-- ===== src/Exec/Care.antt =====
-- What every call of an action is careful of, over all answers of PVE.
use proxops.Base.{
  [], ◌∷◌, Text, Bool-cases, ◌≡◌, none, Option, refl, text_eq, some, inl, text_eq_iff, inr, ◌≢◌,
  ◌⊎◌,
}
use proxops.Base.Result.{Result, ok, err}
use proxops.Exec.Session.{
  World, Trace, Event, Io, called, waited, read_config, continue, recast, send, wait_task,
  stop_guest, clone_guest, create_guest, Call, settle_result, update_guest, start_guest,
  delete_guest, mark_guest, download,
}
use proxops.Exec.Apply.{started, running}
use proxops.Exec.Operations.{guest_of}
use proxops.Plan.Types.{Action, create, update, delete}

-- The object was stopped: PVE accepted the stop, and acted at once or the stop's task settled.
pub data HasHalted (a : Action) : Trace → Type 0 where
  at_once :
      {t : Trace} → HasHalted a (called (stop_guest (guest_of a.kind) a.node a.id) (ok []) ∷ t)
  in_time :
      {u : Text} {t : Trace}
      → HasHalted a
          (waited a.node u none ∷ called (stop_guest (guest_of a.kind) a.node a.id) (ok u) ∷ t)
  earlier : {e : Event} {t : Trace} → HasHalted a t → HasHalted a (e ∷ t)

-- The object was cloned from another one: PVE accepted the clone, and acted at once or the clone's
-- task settled.
pub data HasCloned (a : Action) : Trace → Type 0 where
  at_once :
      {t : Trace}
      → HasCloned a (called (clone_guest a.node a.clone_source_id a.id a.name) (ok []) ∷ t)
  in_time :
      {u : Text} {t : Trace}
      → HasCloned a (
          waited a.node u none
          ∷ called (clone_guest a.node a.clone_source_id a.id a.name) (ok u)
          ∷ t)
  earlier : {e : Event} {t : Trace} → HasCloned a t → HasCloned a (e ∷ t)

-- What an event asks of the trace before it, for an action.
abbrev pub IsCareful : Action → Event → Trace → Type 0
IsCareful a (called (create_guest g n f s) r) t = (n ≡ a.node) × (a.what ≡ create)
IsCareful a (called (update_guest g n i f) r) t =
    (n ≡ a.node) × (i ≡ a.id) × (a.what ≡ create → HasCloned a t)
IsCareful a (called (start_guest g n i) r) t =
    (n ≡ a.node) × (i ≡ a.id) × (a.what ≡ update → HasHalted a t × (a.desired_power ≡ started))
IsCareful a (called (stop_guest g n i) r) t = (n ≡ a.node) × (i ≡ a.id)
IsCareful a (called (delete_guest g n i) r) t =
    (g ≡ guest_of a.kind)
    × (n ≡ a.node)
    × (i ≡ a.id)
    × (a.what ≡ delete)
    × (a.live_power ≡ running → HasHalted a t)
IsCareful a (called (mark_guest g n i) r) t = (n ≡ a.node) × (i ≡ a.id)
IsCareful a (called (clone_guest n source target name) r) t =
    (n ≡ a.node) × (target ≡ a.id) × (source ≢ target)
IsCareful a (called (download n s u f c) r) t = (n ≡ a.node) × (s ≢ []) × (u ≢ []) × (f ≢ [])
IsCareful a (read_config n i r) t = Unit
IsCareful a (waited n u r) t = Unit

-- Every event of the trace is, or is one of `B`: the events that the action does not answer for.
abbrev pub AllCareful : (Event → Type 0) → Action → Trace → Type 0
AllCareful B a [] = Unit
AllCareful B a (e ∷ t) = (B e ⊎ IsCareful a e t) × AllCareful B a t

-- What holds of the value and the trace at a return, and of the trace at an error.
abbrev pub EndsAt :
    {E A : Type 0} → (A → Trace → Type 0) → (Trace → Type 0) → Result E A × Trace → Type 0
EndsAt Q R (ok v, t) = Q v t
EndsAt Q R (err e, t) = R t

pub record Ends {E A : Type 0} (Q : A → Trace → Type 0) (R : Trace → Type 0)
    (x : Result E A × Trace) : Type 0 where
  pub at : EndsAt Q R x

continue-EndsAt :
    {E A B : Type 0} (P : A → Trace → Type 0) (Q : B → Trace → Type 0) (R : Trace → Type 0)
    (f : A → Io E B) (x : Result E A × Trace)
    → EndsAt P R x
    → ((v : A) (t : Trace) → P v t → Ends Q R (f v t))
    → EndsAt Q R (continue x f)
continue-EndsAt P Q R f (ok v, t) h k = (k v t h).at
continue-EndsAt P Q R f (err e, t) h k = h

recast-EndsAt :
    {E F A : Type 0} (P : A → Trace → Type 0) (R : Trace → Type 0) (f : E → F)
    (x : Result E A × Trace)
    → EndsAt P R x
    → EndsAt P R (recast f x)
recast-EndsAt P R f (ok v, t) h = h
recast-EndsAt P R f (err e, t) h = h

imp-EndsAt :
    {E A : Type 0} (P Q : A → Trace → Type 0) (R : Trace → Type 0) (x : Result E A × Trace)
    → EndsAt P R x
    → ((v : A) (t : Trace) → P v t → Q v t)
    → EndsAt Q R x
imp-EndsAt P Q R (ok v, t) h f = f v t h
imp-EndsAt P Q R (err e, t) h f = h

module _ {E A : Type 0} {P : A → Trace → Type 0} {R : Trace → Type 0} {x : Result E A × Trace} where
  pub Ends-continue :
      {B : Type 0} {Q : B → Trace → Type 0} (f : A → Io E B)
      → Ends P R x
      → ((v : A) (t : Trace) → P v t → Ends Q R (f v t))
      → Ends Q R (continue x f)
  Ends-continue {Q = Q} f h k = record { at = continue-EndsAt P Q R f x h.at k }

  pub Ends-recast : {F : Type 0} (f : E → F) → Ends P R x → Ends P R (recast f x)
  Ends-recast f h = record { at = recast-EndsAt P R f x h.at }

  pub Ends-imp :
      {Q : A → Trace → Type 0} → Ends P R x → ((v : A) (t : Trace) → P v t → Q v t) → Ends Q R x
  Ends-imp {Q = Q} h f = record { at = imp-EndsAt P Q R x h.at f }

-- The trace that a wait leaves where the task settled well.
pub data AfterWait (node upid : Text) (t : Trace) : Trace → Type 0 where
  no_task : upid ≡ [] → AfterWait node upid t t
  settled : AfterWait node upid t (waited node upid none ∷ t)

module _ (B : Event → Type 0) (w : World) (a : Action) where
  answered-Ends :
      (c : Call) (t : Trace) (r : Result Text Text)
      → IsCareful a (called c r) t
      → AllCareful B a t
      → Ends
          (λ u z. (z ≡ called c (ok u) ∷ t) × AllCareful B a z)
          (AllCareful B a)
          (r, called c r ∷ t)
  answered-Ends c t (ok u) h k = record { at = (refl, (inr h, k)) }
  answered-Ends c t (err e) h k = record { at = (inr h, k) }

  -- A careful call keeps a trace careful.
  pub send-Ends :
      (c : Call) (t : Trace)
      → IsCareful a (called c (w.answer t c)) t
      → AllCareful B a t
      → Ends (λ u z. (z ≡ called c (ok u) ∷ t) × AllCareful B a z) (AllCareful B a) (send w c t)
  unfolding send
  send-Ends c t h k = answered-Ends c t (w.answer t c) h k

  settled-Ends :
      (node upid : Text) (t : Trace) (r : Option Text)
      → AllCareful B a t
      → Ends
          (λ _ z. AfterWait node upid t z × AllCareful B a z)
          (AllCareful B a)
          (settle_result r (waited node upid r ∷ t))
  settled-Ends node upid t none k = record { at = (settled, (inr tt, k)) }
  settled-Ends node upid t (some e) k = record { at = (inr tt, k) }

  pub wait-Ends :
      (node upid : Text) (t : Trace)
      → AllCareful B a t
      → Ends
          (λ _ z. AfterWait node upid t z × AllCareful B a z)
          (AllCareful B a)
          (wait_task w node upid t)
  unfolding wait_task
  wait-Ends node upid t k = elim (Bool-cases (text_eq upid [])) [
    | inl e ↦ rw e (record { at = ((no_task ((text_eq_iff upid []).0 e), k)) })
    | inr e ↦ rw e (settled-Ends node upid t (w.settle t node upid) k)
  ]
