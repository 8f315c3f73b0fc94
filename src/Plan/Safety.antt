-- ===== src/Plan/Safety.antt =====
-- Which live objects a plan deletes.
use proxops.Base.{
  ◌∙◌, ℕ, true, false, List, ◌++◌, ◌≡◌, refl, arith, All, All-append, All-imp, All-filter, All-take,
  All-drop, All-IsIn, IsIn, subst, All-self,
}
use proxops.Base.Sort.{All-insertion_sort, insertion_sort}
use mathlib.Core.Path.{subst₂, sym, ap}
use mathlib.Core.Bool.{false≢true}
use proxops.Base.Result.{Result, ok, err}
use proxops.Schema.Kind.{artifact_kind}
use proxops.Schema.Resource.{Resource}
use proxops.Plan.Types.{Action, delete, Plan, PlanOptions, LiveInventory, PlanError}
use proxops.Plan.Desired.{Emitted, plan_desired}
use proxops.Plan.Live.{live_key}
use proxops.Plan.Prune.{in_set, desired_set}
use proxops.Plan.Guard.{unsuppressed, suppressed, apply_budget, prune_less}
use proxops.Plan.Order.{sort_actions, action_less}
use proxops.Plan.Actions.{plan_actions, assemble, candidates, prunes}
use proxops.Plan.Emission.{IsUpkeep, Emits, Emits-imp, plan_desired-IsUpkeep, is_delete, is_delete}
use proxops.Plan.Candidates.{
  IsCandidate, IsOwnedOrphan, SharesId, prune_candidates-IsCandidate, in_set-desired_set,
}

-- What holds of every candidate holds of the deletions of this cycle and of those left over.
pub apply_budget-All :
    (P : Action → Type 0) (budget : ℕ) (xs : List Action)
    → All P xs
    → All P (apply_budget budget xs).now × All P (apply_budget budget xs).later
unfolding apply_budget
apply_budget-All P budget xs h =
    let sorted = All-insertion_sort prune_less P xs h in
    ground (
      arith,
      All-take P budget (insertion_sort prune_less xs) sorted,
      All-drop P budget (insertion_sort prune_less xs) sorted,
    )

module _ (opts : PlanOptions) (live : LiveInventory) (desired : List Resource) where
  -- A plan is assembled from what pass A emitted.
  pub plan_actions_inv :
      {p : Plan}
      → plan_actions opts live desired ≡ ok p
      → (e : Emitted) × (plan_desired opts live desired ≡ ok e) × (assemble opts live desired e ≡ p)
  unfolding plan_actions
  plan_actions_inv {p} h = inv (plan_desired opts live desired) refl h
    where
      inv :
          (m : Result PlanError Emitted)
          → plan_desired opts live desired ≡ m
          → elim m [ err e ↦ err e | ok e ↦ ok (assemble opts live desired e) ] ≡ ok p
          → (e : Emitted) × (plan_desired opts live desired ≡ ok e)
            × (assemble opts live desired e ≡ p)
      inv (err e) q h = cc
      inv (ok e) q h = (e, q, cc)

  -- A property of what pass A emits and of all candidates holds of every action of a plan, and a property
  -- of the candidates holds of what is deferred.
  pub plan_actions-All :
      (P : Action → Type 0)
      → Emits P (plan_desired opts live desired)
      → ((a : Action) → IsCandidate opts live desired a → P a)
      → (p : Plan) → plan_actions opts live desired ≡ ok p
      → All P p.actions × All P p.deferred
  unfolding assemble sort_actions unsuppressed suppressed
  plan_actions-All P emits cand p h =
      let (e, emitted, made) = plan_actions_inv h in
      let of_e : All P e.actions = subst (Emits P) emitted emits in
      let listed = candidates opts live desired in
      let of_c =
        All-imp (IsCandidate opts live desired) P cand listed
          (prune_candidates-IsCandidate opts live desired live.listing (All-self live.listing)) in
      let free = unsuppressed opts.prune_budget desired listed in
      let split = apply_budget-All P opts.prune_budget free (All-filter P _ listed of_c) in
      subst (λ q. All P q.actions × All P q.deferred) made
        (
          All-insertion_sort action_less P (e.actions ++ (prunes opts live desired).now)
              (All-append P e.actions (prunes opts live desired).now of_e split.0),
          All-append P (suppressed opts.prune_budget desired listed)
              (prunes opts live desired).later (All-filter P _ listed of_c) split.1,
        )

abbrev IfDelete : (Action → Type 0) → Action → Type 0
IfDelete P a = (a.what ≡ delete) → P a

-- Every deletion of a plan, done or deferred, is a candidate's.
plan_actions-delete :
    (opts : PlanOptions) (live : LiveInventory) (desired : List Resource) (p : Plan) (a : Action)
    → plan_actions opts live desired ≡ ok p
    → IsIn a (p.actions ++ p.deferred)
    → a.what ≡ delete
    → IsCandidate opts live desired a
plan_actions-delete opts live desired p a h m d =
    let P = IfDelete (IsCandidate opts live desired) in
    let both =
      plan_actions-All opts live desired P
        (Emits-imp IsUpkeep P (λ b u e. absurd (false≢true (sym u.kept ∙ ap is_delete e)))
          (plan_desired opts live desired) (plan_desired-IsUpkeep opts live desired))
        (λ b c e. c) p h in
    All-IsIn P (p.actions ++ p.deferred) (All-append P p.actions p.deferred both.0 both.1) m d

-- Whatever the manifests and the live inventory are, each deletion that a plan does or defers is
-- for a live object that PVE lists as a VM or a container, with a positive id, on a node that the
-- allowlist accepts, whose configuration was read in this cycle and carries the ownership tag; and
-- it is a tier-9 action marked as a prune.
pub plan_actions-IsOwnedOrphan :
    (opts : PlanOptions) (live : LiveInventory) (desired : List Resource) (p : Plan) (a : Action)
    → plan_actions opts live desired ≡ ok p
    → IsIn a (p.actions ++ p.deferred)
    → a.what ≡ delete
    → IsOwnedOrphan opts live a
plan_actions-IsOwnedOrphan opts live desired p a h m d =
    (plan_actions-delete opts live desired p a h m d).orphan

-- No plan deletes, or defers the deletion of, an object that a manifest stands for: where a
-- deletion has the node and the id of a manifest that is no storage artifact, the two kinds share no
-- id, that is, they differ, and it is not a template manifest against its unmarked kind.
pub plan_actions-keeps_desired :
    (opts : PlanOptions) (live : LiveInventory) (desired : List Resource) (p : Plan) (a : Action)
    (r : Resource)
    → plan_actions opts live desired ≡ ok p
    → IsIn a (p.actions ++ p.deferred)
    → a.what ≡ delete
    → IsIn r desired
    → artifact_kind r.ref.kind ≡ false
    → r.node ≡ a.node
    → r.id ≡ a.id
    → ¬ SharesId r.ref.kind a.kind
plan_actions-keeps_desired opts live desired p a r h m d mr hk hn hi s = false≢true (
    sym (plan_actions-delete opts live desired p a h m d).unclaimed
    ∙ subst₂ (λ n i. in_set (live_key n a.kind i) (desired_set desired) ≡ true) hn hi
        (in_set-desired_set r desired a.kind mr hk s))
