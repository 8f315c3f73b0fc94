-- ===== src/Reconcile/Cycle.antt =====
-- RunOneCycle of internal/reconcile/reconcile.go: from the fetch to the report. Metrics and the log
-- are left out.
use proxops.Base.{
  ℕ, Bool, true, false, List, [], ◌∷◌, ◌++◌, Option, none, some, Text, length, ◌+◌, if◌then◌else◌,
  text_eq, any, ◌&&◌, not,
}
use proxops.Base.Result.{Result, ok, err}
use proxops.Schema.Kind.{Ref}
use proxops.Schema.Resource.{Resource}
use proxops.Plan.Types.{Action, Plan, PlanOptions, PlanError, Reason, no_reason}
use proxops.Plan.Load.{Reads, load_live}
use proxops.Plan.Actions.{plan_actions}
use proxops.Parse.Index.{Index, IndexError, build_index}
use proxops.Parse.Deps.{DepsError, check_deps, edges_for, order_of}
use proxops.Parse.Levels.{Memo, levels}
use proxops.Status.Store.{
  Store, Object, converged, drift, anomalous, begin_cycle, finish_cycle, set_object, bump_anomaly,
  bump_skipped, given,
}
use proxops.Exec.Session.{World, Trace}
use proxops.Exec.Apply.{what_text}
use proxops.Exec.Run.{Outcome, run}
use proxops.Reconcile.Nodes.{Stray, check_node_allowlist}

-- Why a cycle is aborted. The texts of errors that are composed of others are not spelled out.
pub data AbortReason : Type 0 where
  not_ready levels_unfinished : AbortReason
  parse_failed : Text → AbortReason
  index_failed : IndexError → AbortReason
  deps_failed : DepsError → AbortReason
  secrets_failed : Text → AbortReason
  unknown_node : Stray → AbortReason
  inventory_failed : Text → AbortReason
  plan_failed : PlanError → AbortReason

-- The fields of the Reconciler that a cycle reads: `live_mode` says that there is an executor.
pub record Settings : Type 0 where
  pub cluster : Text
  pub node_allowlist : List Text
  pub prune_budget : ℕ
  pub live_mode : Bool

-- The fields that a cycle writes.
pub record Reconciler : Type 0 where
  pub store : Store
  pub last_good : Option Index
  pub last_commit : Text
  pub desired_stale : Bool

-- The outside of one cycle: git, the decoded and resolved manifests with their depends-on
-- annotations, the resolution of secrets, and PVE. `fuel` bounds the recursion of Levels.
pub record Inputs : Type 0 where
  pub fetch_error : Option Text
  pub revision : Text
  pub decoded : Result Text (List Resource)
  pub annotation : Ref → Option Text
  pub secrets_error : Option Text
  pub fuel : ℕ
  pub reads : Reads
  pub world : World

-- Result
pub record Report : Type 0 where
  pub abort_reason : Option AbortReason
  pub commit : Text
  pub desired_stale : Bool
  pub actions : ℕ
  pub actions_ok : ℕ
  pub actions_err : ℕ
  pub pruned : ℕ
  pub prune_deferred : ℕ
  pub skipped : ℕ
  pub anomalies : ℕ

-- What a cycle leaves: the report, the plan, the fields, what was said to PVE.
pub record Cycled : Type 0 where
  pub report : Report
  pub plan : Option Plan
  pub after : Reconciler
  pub trace : Trace

abbrev pub and_next : {E A B : Type 0} → Result E A → (A → Result E B) → Result E B
and_next (err e) f = err e
and_next (ok a) f = f a

abbrev pub lift : {E F A : Type 0} → (E → F) → Result E A → Result F A
lift f (err e) = err (f e)
lift f (ok a) = ok a

abbrev pub require : {E F A : Type 0} → (E → F) → Option E → A → Result F A
require f none a = ok a
require f (some e) a = err (f e)

abbrev pub present : {A : Type 0} → Option A → Result AbortReason A
present none = err levels_unfinished
present (some a) = ok a

-- The stage (2): the index of the manifests, with its checks, and the secrets.
unfoldable pub open_index : Inputs → Result AbortReason Index
unfolding build_index check_deps
open_index i = and_next (lift parse_failed i.decoded) (λ rs.
    and_next (lift index_failed (build_index rs)) (λ idx.
      and_next (require deps_failed (check_deps i.annotation idx) idx)
        (λ _. require secrets_failed i.secrets_error idx)))

-- levels[ref], or 0
abbrev pub or_zero : Option ℕ → ℕ
or_zero none = 0
or_zero (some l) = l

-- The PlanOptions of the stage (4).
abbrev pub plan_options : Settings → Inputs → Index → Memo → PlanOptions
plan_options c i idx m = record {
  prune_budget = c.prune_budget;
  levels = λ r. or_zero (m.levels r);
  edges = edges_for i.annotation idx;
  node_allowlist = c.node_allowlist;
}

-- The stages (2b) to (4): the node allowlist, the live inventory, the levels and the plan.
unfoldable pub make_plan : Settings → Inputs → Index → Result AbortReason Plan
unfolding check_node_allowlist load_live levels plan_actions
make_plan c i idx =
    and_next (require unknown_node (check_node_allowlist c.node_allowlist idx.resources) idx) (λ _.
      and_next (lift inventory_failed (load_live i.reads c.node_allowlist idx.resources)) (λ live.
        and_next (present (levels (edges_for i.annotation idx) i.fuel (order_of idx)))
          (λ m. lift plan_failed (plan_actions (plan_options c i idx m) live idx.resources))))

abbrev pub aborted_report : Text → Bool → AbortReason → Report
aborted_report commit stale why = record {
  abort_reason = some why;
  commit = commit;
  desired_stale = stale;
  actions = 0;
  actions_ok = 0;
  actions_err = 0;
  pruned = 0;
  prune_deferred = 0;
  skipped = 0;
  anomalies = 0;
}

-- kindNodeID[key]: an action of the plan has the resource's kind and name.
abbrev pub is_planned : List Action → Resource → Bool
is_planned actions d =
    any (λ a. text_eq (a.kind ++ b'/' ∷ a.name) (d.ref.kind ++ b'/' ∷ d.ref.name)) actions

-- The record of a desired resource.
abbrev pub desired_object : Text → List Action → Resource → Object
desired_object cluster actions d = record {
  kind = d.ref.kind;
  name = d.ref.name;
  cluster = cluster;
  node = d.node;
  id = d.id;
  state = if is_planned actions d then drift else converged;
  last_action = [];
  last_error = [];
  prune_reason = given no_reason;
}

-- The record of an anomaly.
abbrev pub anomaly_object : Text → (Reason → Text) → Action → Object
anomaly_object cluster spell an = record {
  kind = an.kind;
  name = an.name;
  cluster = cluster;
  node = an.node;
  id = an.id;
  state = anomalous;
  last_action = what_text an.what;
  last_error = spell an.reason;
  prune_reason = given no_reason;
}

unfoldable pub set_desired : Text → List Action → List Resource → Store → Store
unfolding set_object
set_desired cluster actions [] s = s
set_desired cluster actions (d ∷ ds) s =
    set_desired cluster actions ds (set_object (desired_object cluster actions d) s)

unfoldable pub set_anomalies : Text → (Reason → Text) → List Action → Store → Store
unfolding set_object
set_anomalies cluster spell [] s = s
set_anomalies cluster spell (an ∷ ans) s =
    set_anomalies cluster spell ans (set_object (anomaly_object cluster spell an) (bump_anomaly s))

-- BumpSkipped, for each skipped action.
unfoldable pub bump_skips : List Action → Store → Store
bump_skips [] s = s
bump_skips (a ∷ as_) s = bump_skips as_ (bump_skipped s)

-- The loops over the executor's results.
unfoldable pub count_ok : List Outcome → ℕ
count_ok [] = 0
count_ok (o ∷ os) = if o.is_ok then count_ok os + 1 else count_ok os

unfoldable pub count_err : List Outcome → ℕ
count_err [] = 0
count_err (o ∷ os) = if o.is_ok then count_err os else count_err os + 1

unfoldable pub count_pruned : List Outcome → ℕ
count_pruned [] = 0
count_pruned (o ∷ os) = if o.is_ok && o.action.prune then count_pruned os + 1 else count_pruned os

-- What fmt.Sprintf and Error spell is a parameter.
module _ (spell : Reason → Text) (spell_abort : AbortReason → Text) (c : Settings) where
  -- The store and the report when a plan is there.
  abbrev pub plan_report : Text → Bool → Plan → List Outcome → Report
  plan_report commit stale p os = record {
    abort_reason = none;
    commit = commit;
    desired_stale = stale;
    actions = length p.actions;
    actions_ok = count_ok os;
    actions_err = count_err os;
    pruned = count_pruned os;
    prune_deferred = length p.deferred;
    skipped = length p.skipped;
    anomalies = length p.anomalies;
  }

  abbrev pub show_plan : List Resource → Plan → Store → Store
  show_plan rs p s =
      set_anomalies c.cluster spell p.anomalies (set_desired c.cluster p.actions rs s)

  -- The fields after a cycle that had an index.
  abbrev pub settled : Text → Bool → Index → Store → Reconciler
  settled commit stale idx store = record {
    store = store;
    last_good = some idx;
    last_commit = commit;
    desired_stale = stale;
  }

  -- The stages (5) and (6), from what is shown: the execution, or the report of a dry run.
  unfoldable pub execute_in : Bool → Inputs → Text → Bool → Index → Plan → Store → Cycled
  unfolding bump_skips run count_ok count_err count_pruned
  execute_in true i commit stale idx p shown =
      let (os, store, trace) = run c.cluster i.world p shown [] in
      record {
        report = plan_report commit stale p os;
        plan = some p;
        after = settled commit stale idx (finish_cycle false [] (bump_skips p.skipped store));
        trace = trace;
      }
  execute_in false i commit stale idx p shown = record {
    report = plan_report commit stale p [];
    plan = some p;
    after = settled commit stale idx (finish_cycle false [] (bump_skips p.skipped shown));
    trace = [];
  }

  unfoldable pub execute_plan : Inputs → Text → Bool → Index → Plan → Store → Cycled
  unfolding set_desired set_anomalies execute_in
  execute_plan i commit stale idx p s =
      execute_in c.live_mode i commit stale idx p (show_plan idx.resources p s)

  -- An abort: the report, no plan, nothing said to PVE that changes it.
  abbrev pub abort : AbortReason → Text → Bool → Reconciler → Cycled
  abort why commit stale r = record {
    report = aborted_report commit stale why;
    plan = none;
    after = record r { store = finish_cycle true (spell_abort why) r.store };
    trace = [];
  }

  abbrev pub planned : Inputs → Text → Bool → Index → Reconciler → Result AbortReason Plan → Cycled
  planned i commit stale idx r (err why) = abort why commit stale r
  planned i commit stale idx r (ok p) = execute_plan i commit stale idx p r.store

  abbrev pub opened : Inputs → Text → Bool → Reconciler → Result AbortReason Index → Cycled
  opened i commit stale r (err why) = abort why commit stale r
  opened i commit stale r (ok idx) =
      planned i commit stale idx (record r { last_good = some idx; last_commit = commit })
        (make_plan c i idx)

  -- From the fetch on: BeginCycle and the stages.
  unfoldable pub after_fetch : Inputs → Bool → Reconciler → Cycled
  unfolding open_index make_plan execute_plan
  after_fetch i stale r =
      opened i i.revision stale
        (record r {
          store = begin_cycle i.revision stale (not c.live_mode) r.store;
          desired_stale = stale;
        })
        (open_index i)

  -- A failed fetch ends the cycle where no tree was good before.
  abbrev pub on_fetch : Inputs → Reconciler → Option Text → Option Index → Cycled
  on_fetch i r none good = after_fetch i false r
  on_fetch i r (some e) (some idx) = after_fetch i true r
  on_fetch i r (some e) none =
      abort not_ready r.last_commit false
        (record r { store = begin_cycle r.last_commit false (not c.live_mode) r.store })

  -- RunOneCycle
  unfoldable pub run_one_cycle : Inputs → Reconciler → Cycled
  unfolding after_fetch
  run_one_cycle i r = on_fetch i r i.fetch_error r.last_good
