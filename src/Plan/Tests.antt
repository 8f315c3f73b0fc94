-- ===== src/Plan/Tests.antt =====
-- Plans of a small cluster, and the planner's theorems at it: one desired VM that is stopped, and
-- two tagged orphans of which the budget lets one go.
use Prim.Native.String.{String}
use mathlib.Core.List.{Perm}
use proxops.Base.{
  ℕ, ◌≤◌, true, false, [], ◌∷◌, ◌++◌, ◌≡◌, ◌≢◌, refl, inl, inr, arith, Text, codes, some, text_eq,
  text_lt, digits_of, to_lower, to_upper, trim_space, split_on, IsOrdered, length,
}
use proxops.Base.Assoc
use proxops.Base.Sort.{insertion_sort}
use proxops.Base.Result.{ok}
use proxops.Schema.Kind.{kind_vm, kind_lxc, artifact_kind, ref_text}
use proxops.Schema.Value.{str, has_tag, is_pve_template, get, name_of, Params}
use proxops.Schema.Resource.{Resource, vm, other, is_clone_backed}
use proxops.Plan.Types.{
  Action, Plan, PlanOptions, LiveInventory, ClusterResource, action_of, start, delete, create,
  mark_template, power, absent_in_git,
}
use proxops.Plan.Live.{
  live_key, node_allowed, normalize_kind, power_desired_to_live, power_at, config_set, create_verb,
}
use proxops.Plan.Desired.{plan_desired, plan_resource}
use proxops.Plan.Prune.{
  desired_set, in_set, kind_ref, desired_template, in_scope, claimed, claimed_template, judge,
  judge_config, judge_read, prune_candidates, prune_skipped,
}
use proxops.Plan.Guard.{
  desired_by_kind, of_kind, is_suppressed, held_back, unsuppressed, suppressed, anomaly_parts,
  apply_budget, prune_less,
}
use proxops.Plan.Order.{action_less, work_less, place_less, what_eq, what_rank, sort_actions}
use proxops.Plan.Actions.{plan_actions, assemble, candidates}
use proxops.Plan.Candidates.{IsOwnedOrphan, SharesId}
use proxops.Plan.Safety.{plan_actions-IsOwnedOrphan, plan_actions-keeps_desired}
use proxops.Plan.Ordering.{Precedes, plan_actions-IsOrdered, action_less-not_weak}
use proxops.Plan.Limits.{deletions, plan_actions-le_budget, plan_actions-perm, plan_actions-guard}
use proxops.Plan.Upkeep.{HasPowerCause, plan_actions-HasPowerCause}
use proxops.Plan.Cloning.{IsApart, plan_actions-IsApart}
use proxops.Plan.Types.{not_on_pve, clone_of, ActionKind}
use proxops.Plan.Desired.{emit_action}

-- What an evaluation of the planner sees through.
program : Unit {0}
unfolding plan_actions assemble plan_desired plan_resource prune_candidates prune_skipped judge
    judge_read judge_config in_scope claimed claimed_template desired_set in_set kind_ref
    desired_template anomaly_parts is_suppressed held_back unsuppressed suppressed apply_budget
    prune_less sort_actions action_less work_less place_less what_eq what_rank insertion_sort
    desired_by_kind of_kind live_key node_allowed normalize_kind power_desired_to_live power_at
    config_set create_verb text_eq text_lt digits_of to_lower to_upper trim_space split_on
    Assoc.lookup Assoc.get_or artifact_kind ref_text has_tag is_pve_template get name_of
    is_clone_backed
program = tt

abbrev n1 : Text
n1 = codes "n1"

abbrev web : Resource
web = record {
  ref = record { kind = kind_vm; name = codes "web" };
  node = n1;
  nodes = n1 ∷ [];
  id = 101;
  desired_state = codes "started";
  to_create_params = ok [];
  drift = λ cfg. record { update_params = []; stop_required = false; changed = false };
  drift_anomalies = λ cfg. [];
  deps = [];
  concrete = other;
}

abbrev config : String → Params
config name = (codes "name", str (codes name)) ∷ (codes "tags", str (codes "proxops, lab")) ∷ []

abbrev entry : ℕ → ClusterResource
entry id = record { node = n1; vmid = id; type_name = codes "qemu" }

abbrev inventory : LiveInventory
inventory = record {
  configs =
      (codes "n1|VM|101", some (config "web"))
      ∷ (codes "n1|VM|103", some (config "old"))
      ∷ (codes "n1|VM|104", some (config "older"))
      ∷ [];
  power = (codes "n1|VM|101", codes "stopped") ∷ (codes "n1|VM|103", codes "running") ∷ [];
  listing = entry 104 ∷ entry 101 ∷ entry 103 ∷ [];
}

abbrev options : PlanOptions
options = record { prune_budget = 1; levels = λ r. 0; edges = λ r. []; node_allowlist = n1 ∷ [] }

abbrev start_web : Action
start_web = record (action_of start) {
  kind = kind_vm;
  name = codes "web";
  node = n1;
  id = 101;
  ref = web.ref;
  reason = power web.ref (codes "stopped") (codes "started");
  live_power = codes "stopped";
  desired_power = codes "started";
}

abbrev prune_of : ℕ → String → Text → Action
prune_of id name live_power = record (action_of delete) {
  tier = 9;
  kind = kind_vm;
  name = codes name;
  node = n1;
  id = id;
  prune = true;
  reason = absent_in_git;
  live_power = live_power;
}

abbrev prune_old : Action
prune_old = prune_of 103 "old" (codes "running")

abbrev planned : Plan
planned = record {
  actions = start_web ∷ prune_old ∷ [];
  skipped = [];
  deferred = prune_of 104 "older" [] ∷ [];
  anomaly = [];
  anomalies = [];
}

plan_web : plan_actions options inventory (web ∷ []) ≡ ok planned
unfolding program
plan_web = refl

plan_actions-IsOwnedOrphan_example : IsOwnedOrphan options inventory prune_old
plan_actions-IsOwnedOrphan_example =
    plan_actions-IsOwnedOrphan options inventory (web ∷ []) planned prune_old plan_web
      (inr (inl refl)) refl

plan_actions-IsOrdered_example : IsOrdered Precedes (start_web ∷ prune_old ∷ [])
plan_actions-IsOrdered_example =
    plan_actions-IsOrdered options inventory (web ∷ []) planned plan_web

plan_actions-le_budget_example : deletions (start_web ∷ prune_old ∷ []) ≤ 1
plan_actions-le_budget_example =
    plan_actions-le_budget options inventory (web ∷ []) planned plan_web (omega arith)

plan_actions-HasPowerCause_example : HasPowerCause start_web
plan_actions-HasPowerCause_example =
    plan_actions-HasPowerCause options inventory (web ∷ []) planned start_web plan_web (inl refl)

web_emits : plan_desired options inventory (web ∷ []) ≡ ok (emit_action start_web)
unfolding program
web_emits = refl

plan_actions-perm_example :
    Perm
      ((start_web ∷ prune_old ∷ []) ++ prune_of 104 "older" [] ∷ [])
      ((start_web ∷ []) ++ candidates options inventory (web ∷ []))
plan_actions-perm_example =
    plan_actions-perm options inventory (web ∷ []) planned (emit_action start_web) plan_web
      web_emits

-- A desired container with the id of a VM that is an orphan.
abbrev box : Resource
box = record web {
  ref = record { kind = kind_lxc; name = codes "box" };
  id = 103;
  desired_state = [];
}

abbrev create_box : Action
create_box = record (action_of create) {
  kind = kind_lxc;
  name = codes "box";
  node = n1;
  id = 103;
  ref = box.ref;
  reason = not_on_pve box.ref (codes "create");
}

abbrev roomy : PlanOptions
roomy = record options { prune_budget = 3 }

abbrev planned_box : Plan
planned_box = record {
  actions =
      create_box ∷ prune_of 101 "web" (codes "stopped") ∷ prune_old ∷ prune_of 104 "older" [] ∷ [];
  skipped = [];
  deferred = [];
  anomaly = [];
  anomalies = [];
}

plan_box : plan_actions roomy inventory (box ∷ []) ≡ ok planned_box
unfolding program
plan_box = refl

box_object : artifact_kind kind_lxc ≡ false
unfolding program
box_object = refl

plan_actions-keeps_desired_example : ¬ SharesId kind_lxc kind_vm
plan_actions-keeps_desired_example =
    plan_actions-keeps_desired roomy inventory (box ∷ []) planned_box prune_old box plan_box
      (inr (inr (inl refl))) refl (inl refl) box_object refl refl

-- Nothing desired, two orphaned VMs and one orphaned container, and a budget of one.
abbrev emptied : LiveInventory
emptied = record {
  configs =
      (codes "n1|VM|103", some (config "old"))
      ∷ (codes "n1|VM|104", some (config "older"))
      ∷ (codes "n1|LXC|200", some (config "jail"))
      ∷ [];
  power = [];
  listing = entry 104 ∷ entry 103 ∷ record { node = n1; vmid = 200; type_name = codes "lxc" } ∷ [];
}

abbrev prune_jail : Action
prune_jail = record (prune_of 200 "jail" []) { kind = kind_lxc }

abbrev planned_empty : Plan
planned_empty = record {
  actions = prune_jail ∷ [];
  skipped = [];
  deferred = prune_of 104 "older" [] ∷ prune_of 103 "old" [] ∷ [];
  anomaly = record { kind = kind_vm; candidates = 2; budget = 1 } ∷ [];
  anomalies = [];
}

plan_empty : plan_actions options emptied [] ≡ ok planned_empty
unfolding program
plan_empty = refl

two_vms : length (of_kind kind_vm (candidates options emptied [])) ≡ 2
unfolding program
two_vms = refl

plan_actions-guard_example : kind_lxc ≢ kind_vm
unfolding desired_by_kind
plan_actions-guard_example =
    plan_actions-guard options emptied [] planned_empty prune_jail kind_vm plan_empty (inl refl)
      refl (omega (arith, two_vms)) (inl refl) refl

-- A VM that is cloned from the template 900.
abbrev copy : Resource
copy = record web {
  id = 105;
  concrete = vm (record {
    clone = codes "base";
    clone_source_id = 900;
    vmid = 105;
    clone_delete_keys = λ params. codes "hookscript" ∷ [];
  });
}

abbrev clone_web : Action
clone_web = record (action_of create) {
  kind = kind_vm;
  name = codes "web";
  node = n1;
  id = 105;
  ref = web.ref;
  reason = clone_of web.ref (codes "base") 900;
  desired_power = codes "started";
  clone_source_id = 900;
  delete_keys = codes "hookscript" ∷ [];
}

abbrev planned_copy : Plan
planned_copy = record planned_empty { actions = clone_web ∷ []; deferred = []; anomaly = [] }

plan_copy : plan_actions options (record inventory { listing = [] }) (copy ∷ []) ≡ ok planned_copy
unfolding program
plan_copy = refl

plan_actions-IsApart_example : IsApart clone_web
plan_actions-IsApart_example =
    plan_actions-IsApart options (record inventory { listing = [] }) (copy ∷ []) planned_copy
      clone_web ((λ v e. ground (arith, e)), tt) plan_copy (inl refl)

abbrev at_node : ActionKind → String → Action
at_node w node = record (action_of w) { node = codes node }

action_less-not_weak_example :
    (action_less (at_node create "n1") (at_node mark_template "n9") ≡ false)
    × (action_less (at_node mark_template "n9") (at_node create "n1") ≡ false)
    × (action_less (at_node mark_template "n9") (at_node create "n2") ≡ false)
    × (action_less (at_node create "n2") (at_node mark_template "n9") ≡ false)
    × (action_less (at_node create "n1") (at_node create "n2") ≡ true)
unfolding text_lt
action_less-not_weak_example =
    action_less-not_weak (at_node create "n1") (at_node mark_template "n9") (at_node create "n2")
      refl refl refl (refl, refl) (refl, refl) refl
