-- ===== src/Plan/Types.antt =====
-- The data of internal/plan/plan.go. A message is kept as data: its format and its values.
use proxops.Base.{ℕ, Bool, false, List, [], Text}
use proxops.Schema.Value.{Params, Config}
use proxops.Schema.Kind.{Kind, Ref}

-- type ActionKind string
pub data ActionKind : Type 0 where
  create update start stop delete status_only anomaly mark_template : ActionKind

-- Action.Reason, one constructor for each format.
pub data Reason : Type 0 where
  no_reason : Reason
  mark_as_template : Ref → Reason
  not_on_pve : Ref → (verb : Text) → Reason
  clone_of : Ref → (template : Text) → (source : ℕ) → Reason
  live_is_template : Ref → Reason
  live_only : Ref → Text → Reason
  config_drift : Ref → (stop_required : Bool) → Reason
  power : Ref → (live desired : Text) → Reason
  create_params_error : Ref → Text → Reason
  unreadable : Kind → (storage filename : Text) → Reason
  will_download : Kind → (filename storage node : Text) → Reason
  untagged : Reason
  absent_in_git : Reason

pub record Action : Type 0 where
  pub tier : ℕ
  pub kind : Kind
  pub name : Text
  pub node : Text
  pub id : ℕ
  pub what : ActionKind
  pub params : Params
  pub stop_first : Bool
  pub prune : Bool
  pub reason : Reason
  pub live_power : Text
  pub desired_power : Text
  pub level : ℕ
  pub deps : List Ref
  pub ref : Ref
  pub is_anomaly : Bool
  pub clone_source_id : ℕ
  pub delete_keys : List Text

-- An Action literal with only its kind of work set; the other fields have Go's zero values.
abbrev pub action_of : ActionKind → Action
action_of w = record {
  tier = 0;
  kind = [];
  name = [];
  node = [];
  id = 0;
  what = w;
  params = [];
  stop_first = false;
  prune = false;
  reason = no_reason;
  live_power = [];
  desired_power = [];
  level = 0;
  deps = [];
  ref = record { kind = []; name = [] };
  is_anomaly = false;
  clone_source_id = 0;
  delete_keys = [];
}

-- One part of Plan.Anomaly: a kind with no desired object and too many orphans.
pub record MassDeletion : Type 0 where
  pub kind : Kind
  pub candidates : ℕ
  pub budget : ℕ

pub record Plan : Type 0 where
  pub actions : List Action
  pub skipped : List Action
  pub deferred : List Action
  pub anomaly : List MassDeletion
  pub anomalies : List Action

-- One entry of PVE's listing (pveclient.ClusterResource), as far as the planner reads it.
pub record ClusterResource : Type 0 where
  pub node : Text
  pub vmid : ℕ
  pub type_name : Text

-- Maps keyed "node|KIND|id"; a configuration that is there may be a nil map.
pub record LiveInventory : Type 0 where
  pub configs : List (Text × Config)
  pub power : List (Text × Text)
  pub listing : List ClusterResource

-- PlanOptions; a missing Levels or Edges function is the constant one that PlanActions puts in.
pub record PlanOptions : Type 0 where
  pub prune_budget : ℕ
  pub levels : Ref → ℕ
  pub edges : Ref → List Ref
  pub node_allowlist : List Text

-- The errors of PlanActions.
pub data PlanError : Type 0 where
  create_params : Ref → Text → PlanError
  clone_unresolved : Ref → Text → PlanError
  clone_onto_itself : Ref → ℕ → PlanError
