-- ===== src/Reconcile/Reports.antt =====
-- What a cycle that ran its plan reports, and what the status then shows.
use proxops.Base.{
  ◌⊎◌, ◌<◌, subst, ◌+◌, ◌≤◌, Bool, List, [], ◌∷◌, Option, none, some, Text, ◌≡◌, refl, length,
  arith, Bool-cases, inl, inr,
}
use proxops.Plan.Types.{Action, Reason}
use proxops.Exec.Session.{World}
use proxops.Exec.Apply.{apply, Fault}
use proxops.Base.Result.{Result, ok, err}
use proxops.Exec.Chain.{blocker-empty}
use proxops.Exec.Run.{
  Outcome, Session, run_actions, step, step_on, blocker, execute, record_deferred, deferred_object,
  count, outcome_of, outcome_object, note_failure, in_progress_object,
}
use proxops.Schema.Kind.{Ref}
use proxops.Schema.Resource.{Resource}
use proxops.Status.Store.{bump_pruned, bump_skipped, Store, Cycle, set_object}
use proxops.Reconcile.Expected.{IsOf, IsCurrent, bump-IsCurrent, Holds-imp}
use proxops.Reconcile.Cycle.{
  count_ok, count_err, count_pruned, bump_skips, set_desired, set_anomalies,
}

pub counts :
    (os : List Outcome) → (count_ok os + count_err os ≡ length os) × (count_pruned os ≤ count_ok os)
unfolding count_ok count_err count_pruned
counts [] = ground arith
counts (o ∷ os) = ground (arith, counts os)

-- One outcome for each action.
pub run_actions-length :
    (cluster : Text) (w : World) (s : Session) (actions : List Action)
    → length (run_actions cluster w s actions).0 ≡ length actions
unfolding run_actions
run_actions-length cluster w s [] = refl
run_actions-length cluster w s (a ∷ rest) =
    let e = run_actions-length cluster w (step cluster w s a).1 rest in rw e refl

-- What is expected after outcomes.
abbrev pub after_outcomes : Cycle → List Outcome → Cycle
after_outcomes b os = record b {
  actions_ok = b.actions_ok + count_ok os;
  actions_error = b.actions_error + count_err os;
  pruned = b.pruned + count_pruned os;
}

count-IsCurrent :
    (b : Cycle) (cluster : Text) (o : Outcome) (s : Store)
    → IsCurrent b s
    → IsCurrent (after_outcomes b (o ∷ [])) (count cluster o.action o.is_ok s)
unfolding count count_ok count_err count_pruned
count-IsCurrent b cluster o s h = elim (Bool-cases o.is_ok) [
  | inr f ↦
      let after : Cycle = record b {
        actions_ok = b.actions_ok + 0;
        actions_error = b.actions_error + 1;
        pruned = b.pruned + 0;
      } in
      rw f (bump-IsCurrent b after _ s (λ y m. ground (arith, m)) h)
  | inl g ↦ elim (Bool-cases o.action.prune) [
    | inl p ↦
        let mid = record b { pruned = b.pruned + 1 } in
        let after : Cycle = record b {
          actions_ok = b.actions_ok + 1;
          actions_error = b.actions_error + 0;
          pruned = b.pruned + 1;
        } in
        rw (g, p)
          (bump-IsCurrent mid after _ (bump_pruned s) (λ y m. ground (arith, m))
            (bump-IsCurrent b mid _ s (λ y m. ground (arith, m)) h))
    | inr p ↦
        let after : Cycle = record b {
          actions_ok = b.actions_ok + 1;
          actions_error = b.actions_error + 0;
          pruned = b.pruned + 0;
        } in
        rw (g, p) (bump-IsCurrent b after _ s (λ y m. ground (arith, m)) h)
  ]
]

outcome_of-action : (a : Action) (r : Result Fault Bool) → (outcome_of a r).action ≡ a
outcome_of-action a (ok did) = refl
outcome_of-action a (err f) = refl

-- What failed is expected to be counted.
abbrev pub IsCounted : Cycle → Session → Type 0
IsCounted b s = (s.failures ≡ []) ⊎ (0 < b.actions_error)

step_on-IsCurrent :
    (b : Cycle) (cluster : Text) (w : World) (o : Option Ref) (s : Session) (a : Action)
    → (o ≡ none) ⊎ (0 < b.actions_error)
    → IsCurrent b s.store
    → let (out, s') = step_on cluster w o s a in IsCurrent (after_outcomes b (out ∷ [])) s'.store
unfolding execute set_object
step_on-IsCurrent b cluster w (some d) s a k h =
    let (out, s') = step_on cluster w (some d) s a in
    unfold count_ok count_err count_pruned in
    Holds-imp b (after_outcomes b (out ∷ [])) s'.store.last (λ y m. ground (arith, m, k)) h
step_on-IsCurrent b cluster w none s a k h =
    let out = outcome_of a (apply w a s.trace).0 in
    let before =
      set_object (outcome_object cluster a out)
        (set_object (in_progress_object cluster a) s.store) in
    subst (λ z. IsCurrent (after_outcomes b (out ∷ [])) (count cluster z out.is_ok before))
      (outcome_of-action a (apply w a s.trace).0) (count-IsCurrent b cluster out before h)

step_on-IsCounted :
    (b : Cycle) (cluster : Text) (w : World) (o : Option Ref) (s : Session) (a : Action)
    → IsCounted b s
    → let (out, s') = step_on cluster w o s a in IsCounted (after_outcomes b (out ∷ [])) s'
unfolding execute count_err
step_on-IsCounted b cluster w (some d) s a k = inr (omega arith)
step_on-IsCounted b cluster w none s a k = by_answer (apply w a s.trace).0
  where
    by_answer :
        (x : Result Fault Bool)
        → let out = outcome_of a x in
          (note_failure cluster out a s.failures ≡ [])
          ⊎ (0 < (after_outcomes b (out ∷ [])).actions_error)
    by_answer (ok did) = ground (arith, k)
    by_answer (err f) = inr (omega arith)

-- Nothing is put off before something failed.
blocker-IsCounted :
    (b : Cycle) (s : Session) (node : Text) (ds : List Ref)
    → IsCounted b s
    → (blocker s.failures node ds ≡ none) ⊎ (0 < b.actions_error)
blocker-IsCounted b s node ds (inl e) = inl (rw e (blocker-empty node ds))
blocker-IsCounted b s node ds (inr l) = inr l

after_outcomes-cons :
    (b : Cycle) (o : Outcome) (os : List Outcome) (y : Cycle)
    → IsOf (after_outcomes (after_outcomes b (o ∷ [])) os) y
    → IsOf (after_outcomes b (o ∷ os)) y
unfolding count_ok count_err count_pruned
after_outcomes-cons b o os y h = ground (arith, h)

pub run_actions-IsCurrent :
    (b : Cycle) (cluster : Text) (w : World) (s : Session) (actions : List Action)
    → IsCounted b s
    → IsCurrent b s.store
    → let (os, s') = run_actions cluster w s actions in IsCurrent (after_outcomes b os) s'.store
unfolding run_actions step
run_actions-IsCurrent b cluster w s [] k h =
    unfold count_ok count_err count_pruned in
    Holds-imp b (after_outcomes b []) s.store.last (λ y m. ground (arith, m)) h
run_actions-IsCurrent b cluster w s (a ∷ rest) k h =
    let (o, s') = step cluster w s a in
    let os = (run_actions cluster w s' rest).0 in
    let d = blocker s.failures a.node a.deps in
    Holds-imp (after_outcomes (after_outcomes b (o ∷ [])) os) (after_outcomes b (o ∷ os)) _
      (after_outcomes-cons b o os)
      (run_actions-IsCurrent (after_outcomes b (o ∷ [])) cluster w s' rest
        (step_on-IsCounted b cluster w d s a k)
        (step_on-IsCurrent b cluster w d s a (blocker-IsCounted b s a.node a.deps k) h))

pub record_deferred-IsCurrent :
    (b : Cycle) (cluster : Text) (actions : List Action) (s : Store)
    → IsCurrent b s
    → IsCurrent
        (record b { prune_deferred = b.prune_deferred + length actions })
        (record_deferred cluster actions s)
unfolding record_deferred set_object
record_deferred-IsCurrent b cluster [] s h =
    Holds-imp b (record b { prune_deferred = b.prune_deferred + 0 }) s.last
      (λ y m. ground (arith, m)) h
record_deferred-IsCurrent b cluster (a ∷ rest) s h =
    let one = record b { prune_deferred = b.prune_deferred + 1 } in
    Holds-imp (record one { prune_deferred = b.prune_deferred + 1 + length rest })
      (record b { prune_deferred = b.prune_deferred + length (a ∷ rest) }) _
      (λ y m. ground (arith, m))
      (record_deferred-IsCurrent one cluster rest _ (
        bump-IsCurrent b one _ (set_object (deferred_object cluster a) s) (λ y m. ground (arith, m))
          h))

pub bump_skips-IsCurrent :
    (b : Cycle) (actions : List Action) (s : Store)
    → IsCurrent b s
    → IsCurrent (record b { skipped = b.skipped + length actions }) (bump_skips actions s)
unfolding bump_skips
bump_skips-IsCurrent b [] s h =
    Holds-imp b (record b { skipped = b.skipped + 0 }) s.last (λ y m. ground (arith, m)) h
bump_skips-IsCurrent b (a ∷ rest) s h =
    let one = record b { skipped = b.skipped + 1 } in
    Holds-imp (record one { skipped = b.skipped + 1 + length rest })
      (record b { skipped = b.skipped + length (a ∷ rest) }) _ (λ y m. ground (arith, m))
      (bump_skips-IsCurrent one rest (bump_skipped s)
        (bump-IsCurrent b one _ s (λ y m. ground (arith, m)) h))

pub set_desired-IsCurrent :
    (b : Cycle) (cluster : Text) (actions : List Action) (rs : List Resource) (s : Store)
    → IsCurrent b s
    → IsCurrent b (set_desired cluster actions rs s)
unfolding set_desired set_object
set_desired-IsCurrent b cluster actions [] s h = h
set_desired-IsCurrent b cluster actions (r ∷ rs) s h =
    set_desired-IsCurrent b cluster actions rs _ h

pub set_anomalies-IsCurrent :
    (b : Cycle) (cluster : Text) (spell : Reason → Text) (ans : List Action) (s : Store)
    → IsCurrent b s
    → IsCurrent
        (record b { anomalies = b.anomalies + length ans })
        (set_anomalies cluster spell ans s)
unfolding set_anomalies set_object
set_anomalies-IsCurrent b cluster spell [] s h =
    Holds-imp b (record b { anomalies = b.anomalies + 0 }) s.last (λ y m. ground (arith, m)) h
set_anomalies-IsCurrent b cluster spell (an ∷ ans) s h =
    let one = record b { anomalies = b.anomalies + 1 } in
    Holds-imp (record one { anomalies = b.anomalies + 1 + length ans })
      (record b { anomalies = b.anomalies + length (an ∷ ans) }) _ (λ y m. ground (arith, m))
      (set_anomalies-IsCurrent one cluster spell ans _
        (bump-IsCurrent b one _ s (λ y m. ground (arith, m)) h))
