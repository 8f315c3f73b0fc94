-- ===== src/Plan/Order.antt =====
-- The order of a plan's actions (the comparison that PlanActions sorts by).
use proxops.Base.{ℕ, Bool, ◌&&◌, not, text_eq, text_lt, if◌then◌else◌, ltb, ◌==◌, List}
use proxops.Base.Sort.{insertion_sort}
use proxops.Plan.Types.{
  Action, ActionKind, create, update, start, stop, delete, status_only, anomaly, mark_template,
}

-- whatRank[w]; the map has no entry for mark_template, so that reads as 0.
unfoldable pub what_rank : ActionKind → ℕ
what_rank create = 0
what_rank update = 1
what_rank status_only = 2
what_rank start = 3
what_rank stop = 4
what_rank delete = 9
what_rank anomaly = 10
what_rank mark_template = 0

-- A number that tells the constructors apart, for a.What != b.What.
what_code : ActionKind → ℕ
what_code create = 0
what_code update = 1
what_code start = 2
what_code stop = 3
what_code delete = 4
what_code status_only = 5
what_code anomaly = 6
what_code mark_template = 7

unfoldable pub what_eq : ActionKind → ActionKind → Bool
unfolding what_code
what_eq a b = what_code a == what_code b

-- Within one kind of work: node, then id, then name.
unfoldable pub place_less : Action → Action → Bool
place_less a b =
    if not (text_eq a.node b.node)
    then text_lt a.node b.node
    else if not (a.id == b.id)
    then ltb a.id b.id
    else text_lt a.name b.name

-- Within one tier and level: what is done, then where.
unfoldable pub work_less : Action → Action → Bool
unfolding what_eq what_rank place_less
work_less a b =
    if not (what_eq a.what b.what)
    then ltb (what_rank a.what) (what_rank b.what)
    else place_less a b

-- less(i, j)
unfoldable pub action_less : Action → Action → Bool
unfolding work_less
action_less a b =
    if not (a.tier == b.tier)
    then ltb a.tier b.tier
    else if a.tier == 0 && not (a.level == b.level)
    then ltb a.level b.level
    else work_less a b

unfoldable pub sort_actions : List Action → List Action
sort_actions = insertion_sort action_less
