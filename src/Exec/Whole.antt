-- ===== src/Exec/Whole.antt =====
-- A whole run of a plan: who asked for the deletions that PVE sees.
use proxops.Base.{
  refl, inl, inr, none, some, Any-append_left, Any-of_IsIn, All-self, All-imp, List, [], ◌∷◌, IsIn,
  Text, All, Any, ℕ, ◌≡◌, Option,
}
use proxops.Base.Result.{ok}
use proxops.Schema.Resource.{Resource}
use proxops.Exec.Session.{
  create_guest, update_guest, start_guest, stop_guest, mark_guest, clone_guest, download,
  read_config, waited, Guest, World, Trace, Event, called, delete_guest,
}
use proxops.Exec.Apply.{apply}
use proxops.Exec.Operations.{guest_of}
use proxops.Exec.Care.{AllCareful, IsCareful}
use proxops.Exec.Carefulness.{apply-AllCareful}
use proxops.Exec.Run.{Session, run, run_actions, step, execute, blocker, step_on}
use proxops.Plan.Types.{Action, Plan, delete, PlanOptions, LiveInventory}
use proxops.Plan.Actions.{plan_actions}
use proxops.Plan.Candidates.{IsOwnedOrphan}
use proxops.Plan.Safety.{plan_actions-IsOwnedOrphan}
use proxops.Schema.Kind.{Ref}
use proxops.Status.Store.{Store}

-- The action asks for the deletion of an object.
abbrev pub Deletes : Guest → Text → ℕ → Action → Type 0
Deletes g n i a = (a.what ≡ delete) × (g ≡ guest_of a.kind) × (n ≡ a.node) × (i ≡ a.id)

-- A deletion that PVE was asked for is that of some action with the property.
abbrev pub IsBacked : (Action → Type 0) → List Action → Event → Type 0
IsBacked Q actions (called (delete_guest g n i) r) = Any (λ a. Deletes g n i a × Q a) actions
IsBacked Q actions (called (create_guest g n f s) r) = Unit
IsBacked Q actions (called (update_guest g n i f) r) = Unit
IsBacked Q actions (called (start_guest g n i) r) = Unit
IsBacked Q actions (called (stop_guest g n i) r) = Unit
IsBacked Q actions (called (mark_guest g n i) r) = Unit
IsBacked Q actions (called (clone_guest n i j x) r) = Unit
IsBacked Q actions (called (download n x u f c) r) = Unit
IsBacked Q actions (read_config n i r) = Unit
IsBacked Q actions (waited n u r) = Unit

abbrev Asked : Action → Type 0
Asked a = Unit

careful-IsBacked :
    (actions : List Action) (a : Action) (e : Event) (t : Trace)
    → IsIn a actions
    → IsCareful a e t
    → IsBacked Asked actions e
careful-IsBacked actions a (called (delete_guest g n i) r) t m h =
    Any-of_IsIn (λ b. Deletes g n i b × Asked b) actions m ((h.3, h.0, h.1, h.2), tt)
careful-IsBacked actions a (called (create_guest g n f s) r) t m h = tt
careful-IsBacked actions a (called (update_guest g n i f) r) t m h = tt
careful-IsBacked actions a (called (start_guest g n i) r) t m h = tt
careful-IsBacked actions a (called (stop_guest g n i) r) t m h = tt
careful-IsBacked actions a (called (mark_guest g n i) r) t m h = tt
careful-IsBacked actions a (called (clone_guest n i j x) r) t m h = tt
careful-IsBacked actions a (called (download n x u f c) r) t m h = tt
careful-IsBacked actions a (read_config n i r) t m h = tt
careful-IsBacked actions a (waited n u r) t m h = tt

AllCareful-IsBacked :
    (actions : List Action) (a : Action) (t : Trace)
    → IsIn a actions
    → AllCareful (IsBacked Asked actions) a t
    → All (IsBacked Asked actions) t
AllCareful-IsBacked actions a [] m h = tt
AllCareful-IsBacked actions a (e ∷ t) m h = (
  elim h.0 [ inl b ↦ b | inr c ↦ careful-IsBacked actions a e t m c ],
  AllCareful-IsBacked actions a t m h.1,
)

IsBacked-AllCareful :
    (actions : List Action) (a : Action) (t : Trace)
    → All (IsBacked Asked actions) t
    → AllCareful (IsBacked Asked actions) a t
IsBacked-AllCareful actions a [] h = tt
IsBacked-AllCareful actions a (e ∷ t) h = (inl h.0, IsBacked-AllCareful actions a t h.1)

module _ (cluster : Text) (w : World) (actions : List Action) where
  abbrev Backed : Session → Type 0
  Backed s = All (IsBacked Asked actions) s.trace

  step_on-Backed :
      (s : Session) (a : Action) (b : Option Ref)
      → IsIn a actions
      → Backed s
      → Backed (step_on cluster w b s a).1
  unfolding execute
  step_on-Backed s a (some d) m h = h
  step_on-Backed s a none m h = AllCareful-IsBacked actions a (apply w a s.trace).1 m (
      apply-AllCareful (IsBacked Asked actions) w a s.trace
        (IsBacked-AllCareful actions a s.trace h))

  run_actions-Backed :
      (s : Session) (rest : List Action)
      → All (λ a. IsIn a actions) rest
      → Backed s
      → Backed (run_actions cluster w s rest).1
  unfolding run_actions step
  run_actions-Backed s [] m h = h
  run_actions-Backed s (a ∷ rest) m h =
      run_actions-Backed (step cluster w s a).1 rest m.1
        (step_on-Backed s a (blocker s.failures a.node a.deps) m.0 h)

-- What backs an event has what every deleting action has.
IsBacked-imp :
    (Q : Action → Type 0) (actions : List Action)
    → ((a : Action) → IsIn a actions → a.what ≡ delete → Q a)
    → (e : Event) → IsBacked Asked actions e
    → IsBacked Q actions e
IsBacked-imp Q actions f (called (delete_guest g n i) r) h = deleted actions f h
  where
    deleted :
        (xs : List Action)
        → ((a : Action) → IsIn a xs → a.what ≡ delete → Q a)
        → Any (λ a. Deletes g n i a × Asked a) xs
        → Any (λ a. Deletes g n i a × Q a) xs
    deleted [] k m = elim m [ ]
    deleted (x ∷ xs) k (inl m) = inl (m.0, k x (inl refl) m.0.0)
    deleted (x ∷ xs) k (inr m) = inr (deleted xs (λ a o. k a (inr o)) m)
IsBacked-imp Q actions k (called (create_guest g n f s) r) h = tt
IsBacked-imp Q actions k (called (update_guest g n i f) r) h = tt
IsBacked-imp Q actions k (called (start_guest g n i) r) h = tt
IsBacked-imp Q actions k (called (stop_guest g n i) r) h = tt
IsBacked-imp Q actions k (called (mark_guest g n i) r) h = tt
IsBacked-imp Q actions k (called (clone_guest n i j x) r) h = tt
IsBacked-imp Q actions k (called (download n x u f c) r) h = tt
IsBacked-imp Q actions k (read_config n i r) h = tt
IsBacked-imp Q actions k (waited n u r) h = tt

-- When a plan that PlanActions made is run, whatever PVE answers, PVE is asked only for deletions of
-- owned orphans: each is for the node, the id and the kind of an object that PVE lists on an accepted
-- node and whose configuration was read in this cycle with the ownership tag.
pub run-deletes_orphans :
    (opts : PlanOptions) (live : LiveInventory) (desired : List Resource) (p : Plan)
    (cluster : Text) (w : World) (store : Store)
    → plan_actions opts live desired ≡ ok p
    → All (IsBacked (IsOwnedOrphan opts live) p.actions) (run cluster w p store []).2
unfolding run
run-deletes_orphans opts live desired p cluster w store h =
    All-imp (IsBacked Asked p.actions) (IsBacked (IsOwnedOrphan opts live) p.actions)
      (IsBacked-imp (IsOwnedOrphan opts live) p.actions (λ a m d.
        plan_actions-IsOwnedOrphan opts live desired p a h
          (Any-append_left (λ b. b ≡ a) p.actions p.deferred m) d))
      (run cluster w p store []).2
      (run_actions-Backed cluster w p.actions (record { failures = []; store = store; trace = [] })
        p.actions (All-self p.actions) tt)
