-- ===== src/Plan/Guard.antt =====
-- The limits on deletions of PlanActions: the empty-desired guard and the budget of a cycle.
use proxops.Base.{
  ℕ, Bool, ◌&&◌, ◌||◌, not, List, [], ◌∷◌, ◌++◌, text_eq, text_lt, if◌then◌else◌, ltb, length,
  filter, take, drop,
}
use proxops.Base.Sort.{insertion_sort}
use proxops.Schema.Kind.{Kind, kind_vm, kind_lxc}
use proxops.Schema.Resource.{Resource}
use proxops.Plan.Types.{Action, MassDeletion}

-- desiredByKind[k]
unfoldable pub desired_by_kind : List Resource → Kind → ℕ
desired_by_kind desired k = length (filter (λ r. text_eq r.ref.kind k) desired)

-- The candidates of one kind.
unfoldable pub of_kind : Kind → List Action → List Action
of_kind k candidates = filter (λ a. text_eq a.kind k) candidates

module _ (budget : ℕ) (desired : List Resource) (candidates : List Action) where
  -- suppressed[k]: nothing of the kind is desired, and more than the budget would go.
  unfoldable pub is_suppressed : Kind → Bool
  unfolding desired_by_kind of_kind
  is_suppressed k =
      not (ltb 0 (desired_by_kind desired k)) && ltb budget (length (of_kind k candidates))

  anomaly_part : Kind → List MassDeletion
  unfolding is_suppressed
  anomaly_part k =
      if is_suppressed k
      then record { kind = k; candidates = length (of_kind k candidates); budget = budget } ∷ []
      else []

  -- anomalyParts, over the two kinds that the guard knows.
  unfoldable pub anomaly_parts : List MassDeletion
  unfolding anomaly_part
  anomaly_parts = anomaly_part kind_vm ++ anomaly_part kind_lxc

  -- Whether a candidate is of a suppressed kind.
  unfoldable pub held_back : Action → Bool
  held_back a =
      (text_eq a.kind kind_vm && is_suppressed kind_vm)
      || (text_eq a.kind kind_lxc && is_suppressed kind_lxc)

  -- The candidates that the guard keeps, and those that it defers.
  unfoldable pub unsuppressed : List Action
  unsuppressed = filter (λ a. not (held_back a)) candidates

  unfoldable pub suppressed : List Action
  suppressed = filter held_back candidates

-- The order of the prunes: node, then id.
unfoldable pub prune_less : Action → Action → Bool
prune_less a b = if not (text_eq a.node b.node) then text_lt a.node b.node else ltb a.id b.id

-- The prunes of this cycle, and those left for a later one.
pub record Split : Type 0 where
  pub now : List Action
  pub later : List Action

unfoldable pub apply_budget : ℕ → List Action → Split
apply_budget budget candidates =
    let sorted = insertion_sort prune_less candidates in
    if ltb 0 budget && ltb budget (length candidates)
    then record { now = take budget sorted; later = drop budget sorted }
    else record { now = candidates; later = [] }
