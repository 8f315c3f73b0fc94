-- ===== src/Exec/Careful.antt =====
-- Every operation of the executor keeps a careful trace careful.
use proxops.Schema.Kind.{artifact_kind}
use proxops.Base.{
  true, false, true, false, ◌∷◌, Text, subst, sym, Bool, refl, ◌≡◌, true, Bool-cases, inl, inr,
  ◌&&◌, text_eq, codes, ◌∙◌, text_eq_iff, and-eq-true,
}
use proxops.Base.Result.{ok}
use proxops.Exec.Session.{
  World, Trace, Event, Io, called, wait_task, clone_guest, stop_guest, start_guest, update_guest,
  delete_guest,
}
use proxops.Exec.Care.{
  AllCareful, HasHalted, HasCloned, Ends, Ends-continue, Ends-recast, Ends-imp, AfterWait,
  send-Ends, wait-Ends, no_task,
}
use proxops.Exec.Care.{settled, no_task}
use proxops.Exec.Operations.{guest_of, stop_and_wait, update_config, start_op, to_values, delete_op}
use proxops.Exec.Apply.{stop_if, restart_if, started, delete_action, update_action, running}
use proxops.Plan.Types.{Action, create, update, delete}

-- What a wait does not undo.
HasHalted-after :
    (a : Action) (u : Text) (t z : Trace)
    → AfterWait a.node u (called (stop_guest (guest_of a.kind) a.node a.id) (ok u) ∷ t) z
    → HasHalted a z
HasHalted-after a u t z (no_task e) =
    subst (λ v. HasHalted a (called (stop_guest (guest_of a.kind) a.node a.id) (ok v) ∷ t)) (sym e)
      HasHalted.at_once
HasHalted-after a u t z settled = HasHalted.in_time

HasHalted-kept :
    (a : Action) (n u : Text) (t z : Trace) → AfterWait n u t z → HasHalted a t → HasHalted a z
HasHalted-kept a n u t z (no_task e) h = h
HasHalted-kept a n u t z settled h = HasHalted.earlier h

pub HasCloned-after :
    (a : Action) (u : Text) (t z : Trace)
    → AfterWait a.node u (called (clone_guest a.node a.clone_source_id a.id a.name) (ok u) ∷ t) z
    → HasCloned a z
HasCloned-after a u t z (no_task e) =
    subst (λ v. HasCloned a (called (clone_guest a.node a.clone_source_id a.id a.name) (ok v) ∷ t))
      (sym e) HasCloned.at_once
HasCloned-after a u t z settled = HasCloned.in_time

module _ (B : Event → Type 0) (w : World) (a : Action) where
  -- An operation that is careful where `ready` holds of what was said.
  abbrev pub Keeps : {E A : Type 0} → (Trace → Type 0) → Io E A → Type 0
  Keeps ready m =
      (t : Trace)
      → ready t
      → AllCareful B a t
      → Ends (λ _ z. AllCareful B a z) (AllCareful B a) (m t)

  pub stop_and_wait-Ends :
      (t : Trace)
      → AllCareful B a t
      → Ends (λ _ z. HasHalted a z × AllCareful B a z) (AllCareful B a) (stop_and_wait w a t)
  unfolding stop_and_wait
  stop_and_wait-Ends t k =
      Ends-continue (λ u. wait_task w a.node u)
        (send-Ends B w a (stop_guest (guest_of a.kind) a.node a.id) t (refl, refl) k)
        (λ u z m.
          Ends-imp (wait-Ends B w a a.node u z m.1)
            (λ _ y n. (HasHalted-after a u t y (subst (λ x. AfterWait a.node u x y) m.0 n.0), n.1)))

  -- The stop in front of an update or a deletion.
  pub stop_if-Ends :
      (b : Bool) (note : Text) (t : Trace)
      → AllCareful B a t
      → Ends
          (λ did z. (did ≡ b) × (b ≡ true → HasHalted a z) × AllCareful B a z)
          (AllCareful B a)
          (stop_if w b note a t)
  unfolding stop_if
  stop_if-Ends false note t k = record { at = (refl, (λ e. cc), k) }
  stop_if-Ends true note t k =
      Ends-continue _ (Ends-recast _ (stop_and_wait-Ends t k))
        (λ _ z m. record { at = (refl, (λ _. m.0), m.1) })

  restart_if-Ends :
      (b : Bool) (t : Trace)
      → (b ≡ true → a.what ≡ update → HasHalted a t × (a.desired_power ≡ started))
      → AllCareful B a t
      → Ends (λ _ z. AllCareful B a z) (AllCareful B a) (restart_if w b a t)
  unfolding restart_if start_op
  restart_if-Ends false t h k = record { at = k }
  restart_if-Ends true t h k =
      Ends-continue _
        (Ends-recast _
          (send-Ends B w a (start_guest (guest_of a.kind) a.node a.id) t (refl, refl, h refl) k))
        (λ u z m. Ends-recast _ (Ends-imp (wait-Ends B w a a.node u z m.1) (λ _ y n. n.1)))

  update_config-Ends :
      (t : Trace)
      → (a.what ≡ create → HasCloned a t)
      → (ready : Trace → Type 0) → ready t
      → ((e : Event) (z : Trace) → ready z → ready (e ∷ z))
      → AllCareful B a t
      → Ends (λ _ z. ready z × AllCareful B a z) (AllCareful B a) (update_config w a t)
  unfolding update_config
  update_config-Ends t h ready y more k = elim (Bool-cases (artifact_kind a.kind)) [
    | inl e ↦ rw e (record { at = k })
    | inr e ↦ rw e (
        Ends-imp
          (send-Ends B w a (update_guest (guest_of a.kind) a.node a.id (to_values a.params)) t
            (refl, refl, h) k)
          (λ u z m. (subst ready (sym m.0) (more _ t y), m.1)))
  ]

  pub delete_action-Ends :
      (t : Trace)
      → a.what ≡ delete
      → AllCareful B a t
      → Ends (λ _ z. AllCareful B a z) (AllCareful B a) (delete_action w a t)
  unfolding delete_action delete_op
  delete_action-Ends t h k =
      Ends-continue _ (stop_if-Ends (text_eq a.live_power running) (codes "pre-delete stop: ") t k)
        (λ did z m.
          Ends-continue _
            (Ends-recast _ (
              send-Ends B w a (delete_guest (guest_of a.kind) a.node a.id) z
                (refl, refl, refl, h, λ r. m.1 ((text_eq_iff a.live_power running).1 r)) m.2))
            (λ u y n.
              Ends-continue _ (Ends-recast _ (wait-Ends B w a a.node u y n.1))
                (λ _ x o. record { at = o.1 })))

  pub update_action-Ends :
      (t : Trace)
      → a.what ≡ update
      → AllCareful B a t
      → Ends (λ _ z. AllCareful B a z) (AllCareful B a) (update_action w a t)
  unfolding update_action
  update_action-Ends t h k =
      Ends-continue _
        (stop_if-Ends (a.stop_first && text_eq a.live_power running) (codes "stop-first: ") t k)
        (λ did z m.
          Ends-continue _
            (Ends-recast _ (
              update_config-Ends z (λ c. cc) (λ x. did ≡ true → HasHalted a x)
                (λ d. m.1 (sym m.0 ∙ d)) (λ e x r d. HasHalted.earlier (r d)) m.2))
            (λ u y n. Ends-continue _ (Ends-recast _ (wait-Ends B w a a.node u y n.1)) (λ _ x o.
              Ends-continue _
                (restart_if-Ends (did && text_eq a.desired_power started) x
                  (λ b _.
                    let (d, p) = and-eq-true did (text_eq a.desired_power started) b in
                    (
                      HasHalted-kept a a.node u y x o.0 (n.0 d),
                      (text_eq_iff a.desired_power started).0 p,
                    ))
                  o.1)
                (λ _ v q. record { at = q }))))
