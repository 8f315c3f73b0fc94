-- ===== src/Plan/Actions.antt =====
-- PlanActions: the two passes, the limits on deletions, and the order.
use proxops.Base.{List, ◌++◌}
use proxops.Base.Result.{Result, ok, err}
use proxops.Schema.Resource.{Resource}
use proxops.Plan.Types.{Plan, PlanError, PlanOptions, LiveInventory, Action}
use proxops.Plan.Desired.{Emitted, plan_desired}
use proxops.Plan.Prune.{prune_candidates, prune_skipped}
use proxops.Plan.Guard.{Split, anomaly_parts, suppressed, unsuppressed, apply_budget}
use proxops.Plan.Order.{sort_actions}

module _ (opts : PlanOptions) (live : LiveInventory) (desired : List Resource) where
  -- The candidates for deletion.
  abbrev pub candidates : List Action
  candidates = prune_candidates opts live desired live.listing

  -- The deletions of this cycle and those behind the budget.
  abbrev pub prunes : Split
  prunes = apply_budget opts.prune_budget (unsuppressed opts.prune_budget desired candidates)

  -- The plan from what pass A appended.
  unfoldable pub assemble : Emitted → Plan
  assemble e = record {
    actions = sort_actions (e.actions ++ prunes.now);
    skipped = e.skipped ++ prune_skipped opts live desired live.listing;
    deferred = suppressed opts.prune_budget desired candidates ++ prunes.later;
    anomaly = anomaly_parts opts.prune_budget desired candidates;
    anomalies = e.anomalies;
  }

  unfoldable pub plan_actions : Result PlanError Plan
  unfolding assemble
  plan_actions = elim (plan_desired opts live desired) [ err e ↦ err e | ok e ↦ ok (assemble e) ]
