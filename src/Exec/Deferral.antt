-- ===== src/Exec/Deferral.antt =====
-- Which actions of a run are attempted: the loop of Run against its description.
use proxops.Base.{
  List, [], ◌∷◌, Any, Text, IsIn, ◌≡◌, false, true, none, some, Bool-cases, Any-imp, Any→any, Bool,
  if◌then◌else◌, ◌&&◌, inl, text_eq, Option, and-eq-true, arith, inr, text_eq_iff, text_eq_refl,
  any→Any, refl,
}
use proxops.Base.Result.{ok, err, Result}
use proxops.Exec.Session.{World, Trace}
use proxops.Exec.Apply.{apply, Fault}
use proxops.Exec.Run.{
  Session, Failed, Outcome, run_actions, blocker, has_failed, is_named, attempt, step, execute,
}
use proxops.Schema.Kind.{Ref, ref_eq, ref_eq_iff}
use proxops.Plan.Types.{Action}

-- A dep that says a kind and a name, and that failed on the node.
abbrev pub IsFailedAt : List Failed → Text → Ref → Type 0
IsFailedAt fs node d = (is_named d ≡ true) × IsIn (record { ref = d; node = node }) fs

-- What a run may do, from what failed and what was said so far. It keeps no status records.
pub data Runs (w : World) : List Failed → Trace → List Action → List Outcome → Trace → Type 0 where
  finished : {fs : List Failed} {t : Trace} → Runs w fs t [] [] t
  put_off :
      {fs : List Failed} {t u : Trace} {a : Action} {rest : List Action} {o : Outcome}
      {os : List Outcome}
      → Any (IsFailedAt fs a.node) a.deps
      → (o.action ≡ a) × (o.is_ok ≡ false)
      → Runs w fs t rest os u
      → Runs w fs t (a ∷ rest) (o ∷ os) u
  succeeded :
      {fs : List Failed} {t u v : Trace} {a : Action} {rest : List Action} {os : List Outcome}
      (did : Bool)
      → ¬ Any (IsFailedAt fs a.node) a.deps
      → apply w a t ≡ (ok did, u)
      → Runs w fs u rest os v
      → Runs w fs t
          (a ∷ rest)
          (record { action = a; is_ok = true; error = none; did_stop = did } ∷ os)
          v
  went_wrong :
      {fs gs : List Failed} {t u v : Trace} {a : Action} {rest : List Action} {os : List Outcome}
      (f : Fault)
      → ¬ Any (IsFailedAt fs a.node) a.deps
      → apply w a t ≡ (err f, u)
      → gs ≡ (if is_named a.ref then record { ref = a.ref; node = a.node } ∷ fs else fs)
      → Runs w gs u rest os v
      → Runs w fs t
          (a ∷ rest)
          (record { action = a; is_ok = false; error = some f.message; did_stop = f.did_stop } ∷ os)
          v

has_failed→IsIn :
    (fs : List Failed) (node : Text) (d : Ref)
    → has_failed fs node d ≡ true
    → IsIn (record { ref = d; node = node }) fs
unfolding has_failed
has_failed→IsIn fs node d h =
    Any-imp (λ f. (ref_eq f.ref d && text_eq f.node node) ≡ true)
      (λ f. f ≡ record { ref = d; node = node })
      (λ f e.
        let (r, n) = and-eq-true (ref_eq f.ref d) (text_eq f.node node) e in
        let p = (ref_eq_iff f.ref d).0 r in
        let q = (text_eq_iff f.node node).0 n in λ i. record { ref = p i; node = q i })
      fs (any→Any (λ f. ref_eq f.ref d && text_eq f.node node) fs h)

IsIn→has_failed :
    (fs : List Failed) (node : Text) (d : Ref)
    → IsIn (record { ref = d; node = node }) fs
    → has_failed fs node d ≡ true
unfolding has_failed
IsIn→has_failed fs node d m =
    Any→any (λ f. ref_eq f.ref d && text_eq f.node node) fs
      (Any-imp (λ f. f ≡ record { ref = d; node = node })
        (λ f. (ref_eq f.ref d && text_eq f.node node) ≡ true)
        (λ f e. rw e (ground (arith, (ref_eq_iff d d).1 refl, text_eq_refl node))) fs m)

-- What the loop over the deps finds.
blocker-some :
    (fs : List Failed) (node : Text) (ds : List Ref) (d : Ref)
    → blocker fs node ds ≡ some d
    → Any (IsFailedAt fs node) ds
unfolding blocker
blocker-some fs node [] d h = cc
blocker-some fs node (e ∷ ds) d h = elim (Bool-cases (is_named e && has_failed fs node e)) [
  | inl b ↦
      let (n, f) = and-eq-true (is_named e) (has_failed fs node e) b in
      inl (n, has_failed→IsIn fs node e f)
  | inr b ↦ inr (blocker-some fs node ds d (rw b at h))
]

pub blocker-none :
    (fs : List Failed) (node : Text) (ds : List Ref)
    → blocker fs node ds ≡ none
    → ¬ Any (IsFailedAt fs node) ds
unfolding blocker
blocker-none fs node [] h m = m
blocker-none fs node (e ∷ ds) h m = elim (Bool-cases (is_named e && has_failed fs node e)) [
  | inl b ↦ let k : some e ≡ none = rw b at h in cc
  | inr b ↦ elim m [
    | inl i ↦ let f = IsIn→has_failed fs node e i.1 in let n = i.0 in ground arith
    | inr j ↦ blocker-none fs node ds (rw b at h) j
  ]
]

module _ (cluster : Text) (w : World) where
  -- An attempt goes one of the two ways.
  attempt-Runs :
      (s : Session) (a : Action) (rest : List Action) (x : Result Fault Bool × Trace)
      → apply w a s.trace ≡ x
      → ¬ Any (IsFailedAt s.failures a.node) a.deps
      → ((q : Session)
          → Runs w q.failures q.trace rest
              (run_actions cluster w q rest).0
              (run_actions cluster w q rest).1.trace)
      → let (o, q) = attempt cluster w s a in
        let (os, z) = run_actions cluster w q rest in
        Runs w s.failures s.trace (a ∷ rest) (o ∷ os) z.trace
  unfolding execute
  attempt-Runs s a rest (ok did, t) e n more = rw e (succeeded did n e (more _))
  attempt-Runs s a rest (err f, t) e n more = rw e (went_wrong f n e refl (more _))

  step-Runs :
      (s : Session) (a : Action) (rest : List Action) (b : Option Ref)
      → blocker s.failures a.node a.deps ≡ b
      → ((q : Session)
          → Runs w q.failures q.trace rest
              (run_actions cluster w q rest).0
              (run_actions cluster w q rest).1.trace)
      → Runs w s.failures s.trace
          (a ∷ rest)
          (run_actions cluster w s (a ∷ rest)).0
          (run_actions cluster w s (a ∷ rest)).1.trace
  unfolding run_actions step
  step-Runs s a rest none e more = rw e (
      attempt-Runs s a rest (apply w a s.trace) refl (blocker-none s.failures a.node a.deps e) more)
  step-Runs s a rest (some d) e more =
      rw e (put_off (blocker-some s.failures a.node a.deps d e) (refl, refl) (more _))

  -- A run has one outcome for each action, in order. An action is put off, without a call, exactly
  -- where one of its deps was attempted and failed on the action's node earlier in the run; any
  -- other is attempted, with its outcome, and its failure is remembered. An action that was put off
  -- is not among those that failed, for the actions that need it.
  pub run_actions-Runs :
      (s : Session) (actions : List Action)
      → let (os, z) = run_actions cluster w s actions in
        Runs w s.failures s.trace actions os z.trace
  unfolding run_actions
  run_actions-Runs s [] = finished
  run_actions-Runs s (a ∷ rest) =
      step-Runs s a rest (blocker s.failures a.node a.deps) refl (λ q. run_actions-Runs q rest)
