-- ===== src/Reconcile/Tests.antt =====
-- Cycles of a small cluster: two manifests, of which the first needs the second, on a PVE that has
-- neither, and a tagged orphan.
use proxops.Base.{
  ◌+◌, ◌≤◌, true, false, [], ◌∷◌, none, some, ◌≡◌, refl, inl, Text, codes, All, List, IsIn,
  IsOrdered, arith,
}
use proxops.Base.Result.{ok, err}
use proxops.Schema.Kind.{kind_vm, kind_lxc, ref_eq}
use proxops.Schema.Value.{str}
use proxops.Schema.Resource.{Resource, other}
use proxops.Plan.Types.{Action, Plan, ClusterResource, Reason, action_of, create, not_on_pve}
use proxops.Base.{text_eq, digits_of}
use proxops.Base.Sort.{insertion_sort}
use proxops.Plan.Desired.{plan_desired, plan_resource}
use proxops.Plan.Order.{sort_actions, action_less}
use proxops.Plan.Prune.{prune_skipped, prune_candidates}
use proxops.Plan.Guard.{suppressed, anomaly_parts, apply_budget, unsuppressed}
use proxops.Plan.Live.{create_verb}
use proxops.Plan.Load.{Reads, not_found}
use proxops.Status.Store.{new}
use proxops.Exec.Session.{World}
use proxops.Parse.Index.{Index, id_key}
use proxops.Parse.Deps.{edges_for}
use proxops.Reconcile.Cycle.{
  Settings, Inputs, Reconciler, AbortReason, run_one_cycle, open_index, make_plan, execute_plan,
}
use proxops.Reconcile.Safety.{
  DeletesTagged, run_one_cycle-DeletesTagged, run_one_cycle-quiet, make_plan-IsAfterDeps,
}
use proxops.Reconcile.Finish.{ShowsReport, run_one_cycle-ShowsReport, execute_plan-counts}

abbrev n1 : Text
n1 = codes "n1"

abbrev db : Resource
db = record {
  ref = record { kind = kind_lxc; name = codes "db" };
  node = n1;
  nodes = n1 ∷ [];
  id = 102;
  desired_state = codes "started";
  to_create_params = ok [];
  drift = λ cfg. record { update_params = []; stop_required = false; changed = false };
  drift_anomalies = λ cfg. [];
  deps = [];
  concrete = other;
}

abbrev web : Resource
web = record db {
  ref = record { kind = kind_vm; name = codes "web" };
  id = 101;
  deps = db.ref ∷ [];
}

abbrev listing : List ClusterResource
listing = record { node = n1; vmid = 103; type_name = codes "qemu" } ∷ []

abbrev reads : Reads
reads = record {
  cluster_resources = ok listing;
  vm_config = λ n id. ok (some ((codes "tags", str (codes "proxops")) ∷ []));
  vm_status = λ n id. some (codes "running");
  lxc_config = λ n id. err not_found;
  lxc_status = λ n id. none;
  has_content = λ n s c f. ok true;
}

abbrev silent : World
silent = record { answer = λ t c. ok []; config = λ t n id. ok []; settle = λ t n u. none }

abbrev inputs : Inputs
inputs = record {
  fetch_error = none;
  revision = codes "abc";
  decoded = ok (web ∷ db ∷ []);
  annotation = λ r. none;
  secrets_error = none;
  fuel = 2;
  reads = reads;
  world = silent;
}

abbrev settings : Settings
settings = record {
  cluster = codes "prod";
  node_allowlist = n1 ∷ [];
  prune_budget = 5;
  live_mode = true;
}

abbrev first : Reconciler
first = record { store = new; last_good = none; last_commit = []; desired_stale = false }

abbrev spell : Reason → Text
spell r = codes "reason"

abbrev spell_abort : AbortReason → Text
spell_abort r = codes "aborted"

abbrev index : Index
index = record {
  resources = web ∷ db ∷ [];
  seen_id = (id_key n1 102, db.ref) ∷ (id_key n1 101, web.ref) ∷ [];
}

run_one_cycle-DeletesTagged_example :
    All
      (DeletesTagged reads (n1 ∷ []))
      (run_one_cycle spell spell_abort settings inputs first).trace
run_one_cycle-DeletesTagged_example =
    run_one_cycle-DeletesTagged spell spell_abort settings inputs first listing refl
      (((λ e. ground arith), ((λ e. ground arith), tt)), tt)

run_one_cycle-quiet_example :
    (run_one_cycle spell spell_abort (record settings { live_mode = false }) inputs first).trace
    ≡ []
run_one_cycle-quiet_example =
    run_one_cycle-quiet spell spell_abort (record settings { live_mode = false }) inputs first
      (inl refl)

run_one_cycle-ShowsReport_example :
    ShowsReport spell spell_abort settings inputs
      (run_one_cycle spell spell_abort settings inputs first)
run_one_cycle-ShowsReport_example =
    run_one_cycle-ShowsReport spell spell_abort settings inputs first

abbrev create_db : Action
create_db = record (action_of create) {
  kind = kind_lxc;
  name = codes "db";
  node = n1;
  id = 102;
  ref = db.ref;
  reason = not_on_pve db.ref (codes "create");
  desired_power = codes "started";
}

abbrev create_web : Action
create_web = record create_db {
  kind = kind_vm;
  name = codes "web";
  id = 101;
  level = 1;
  ref = web.ref;
  deps = db.ref ∷ [];
  reason = not_on_pve web.ref (codes "create");
}

abbrev planned : Plan
planned = record {
  actions = create_db ∷ create_web ∷ [];
  skipped = [];
  deferred = [];
  anomaly = [];
  anomalies = [];
}

abbrev unlisted : Inputs
unlisted = record inputs { reads = record reads { cluster_resources = ok [] } }

index_test : open_index unlisted ≡ ok index
unfolding open_index ref_eq digits_of
index_test = refl

plan_test : make_plan settings unlisted index ≡ ok planned
unfolding make_plan text_eq edges_for ref_eq plan_desired plan_resource sort_actions prune_skipped
    suppressed anomaly_parts insertion_sort prune_candidates apply_budget unsuppressed action_less
    create_verb
plan_test = refl

make_plan-IsAfterDeps_example :
    IsOrdered
      (λ a b. ¬ ((a.tier ≡ 0) × (b.tier ≡ 0) × IsIn b.ref (edges_for (λ r. none) index a.ref)))
      (create_db ∷ create_web ∷ [])
make_plan-IsAfterDeps_example =
    make_plan-IsAfterDeps settings unlisted index planned index_test plan_test

execute_plan-counts_example :
    let x = (execute_plan spell spell_abort settings inputs [] false index planned new).report in
    (x.actions_ok + x.actions_err ≡ x.actions) × (x.pruned ≤ x.actions_ok)
execute_plan-counts_example =
    execute_plan-counts spell spell_abort settings inputs [] false index planned new refl
