-- ===== src/Plan/Ordering.antt =====
-- The order of a plan's actions, and where the comparison that PlanActions sorts by is no order.
use proxops.Base.{
  ℕ, ◌<◌, ◌≤◌, true, false, ◌≡◌, ◌⊎◌, List, arith, subst, IsOrdered, text_eq_iff, text_lt_irrefl,
  if◌then◌else◌, ◌==◌, text_lt, ◌++◌,
}
use proxops.Base.Sort.{Decides, insertion_sort-IsOrdered}
use proxops.Base.Result.{ok}
use proxops.Schema.Resource.{Resource}
use proxops.Plan.Types.{Action, Plan, PlanOptions, LiveInventory, mark_template, create, ActionKind}
use proxops.Plan.Order.{action_less, work_less, place_less, what_eq, what_rank, sort_actions}
use proxops.Plan.Actions.{plan_actions, assemble, prunes}
use proxops.Plan.Safety.{plan_actions_inv}

-- The dependency level of a tier-0 action; the levels of prunes do not count.
abbrev pub level_of : Action → ℕ
level_of a = if a.tier == 0 then a.level else 0

-- Tier first, then the dependency level, then the rank of the work.
abbrev pub Precedes : Action → Action → Type 0
Precedes a b =
    (a.tier < b.tier)
    ⊎ ((a.tier ≡ b.tier)
        × ((level_of a < level_of b)
            ⊎ ((level_of a ≡ level_of b) × (what_rank a.what ≤ what_rank b.what))))

-- Equal work has equal rank.
what_eq-rank : (v w : ActionKind) → what_eq v w ≡ true → what_rank v ≡ what_rank w
unfolding what_eq what_rank
what_eq-rank v w h = ground arith

work_less-rank : (a b : Action) → work_less a b ≡ true → what_rank a.what ≤ what_rank b.what
unfolding work_less
work_less-rank a b h = ground (arith, what_eq-rank a.what b.what)

not-work_less-rank : (a b : Action) → work_less a b ≡ false → what_rank b.what ≤ what_rank a.what
unfolding work_less
not-work_less-rank a b h = ground (arith, what_eq-rank a.what b.what)

action_less-Precedes : (a b : Action) → action_less a b ≡ true → Precedes a b
unfolding action_less
action_less-Precedes a b h = ground (arith, work_less-rank a b)

not-action_less-Precedes : (a b : Action) → action_less a b ≡ false → Precedes b a
unfolding action_less
not-action_less-Precedes a b h = ground (arith, not-work_less-rank a b)

Precedes-trans : (a b c : Action) → Precedes a b → Precedes b c → Precedes a c
Precedes-trans a b c h k = ground arith

action_less-Decides : Decides action_less Precedes
action_less-Decides = record {
  of_less = action_less-Precedes;
  of_not_less = not-action_less-Precedes;
  r_trans = Precedes-trans;
}

-- Of any two actions of a plan, the one in front has the smaller tier, or the same tier and the
-- smaller dependency level, or the same of both and no larger rank of work. So prunes come last,
-- and what is created on a lower level stands before what is created on a higher one.
pub plan_actions-IsOrdered :
    (opts : PlanOptions) (live : LiveInventory) (desired : List Resource) (p : Plan)
    → plan_actions opts live desired ≡ ok p
    → IsOrdered Precedes p.actions
plan_actions-IsOrdered opts live desired p h =
    let (e, _, made) = plan_actions_inv opts live desired h in
    subst (λ q. IsOrdered Precedes q.actions) made
      (unfold assemble sort_actions in
        insertion_sort-IsOrdered action_less Precedes action_less-Decides
          (e.actions ++ (prunes opts live desired).now))

-- A template mark and a create have one rank, so on one tier and level neither is less than the
-- other, wherever they are; yet creates on two nodes are in the order of the nodes. With a mark
-- between them the comparison is therefore no weak order: being incomparable is not transitive.
pub action_less-not_weak :
    (a m c : Action)
    → a.what ≡ create
    → c.what ≡ create
    → m.what ≡ mark_template
    → (a.tier ≡ m.tier) × (m.tier ≡ c.tier)
    → (a.level ≡ m.level) × (m.level ≡ c.level)
    → text_lt a.node c.node ≡ true
    → (action_less a m ≡ false)
      × (action_less m a ≡ false)
      × (action_less m c ≡ false)
      × (action_less c m ≡ false)
      × (action_less a c ≡ true)
unfolding action_less work_less place_less what_eq what_rank
action_less-not_weak a m c ha hc hm ht hl hn =
    ground (arith, text_eq_iff a.node c.node, text_lt_irrefl a.node)
