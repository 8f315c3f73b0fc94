-- ===== src/Plan/Desired.antt =====
-- Pass A of PlanActions: what one manifest asks of the live inventory.
use proxops.Base.{
  true, ◌&&◌, ◌||◌, not, none, some, List, [], ◌∷◌, ◌++◌, map, Text, codes, text_eq, trim_space,
  if◌then◌else◌, ◌==◌, Option,
}
use proxops.Base.Assoc
use proxops.Base.Result.{Result, ok, err}
use proxops.Schema.Value.{Params, Config, is_pve_template}
use proxops.Schema.Kind.{kind_vm, kind_lxc, kind_template_vm, kind_template_ct, artifact_kind}
use proxops.Schema.Resource.{Resource, Clone, is_clone_backed, vm, Drift}
use proxops.Plan.Types.{
  Action, action_of, create, update, start, stop, status_only, anomaly, mark_template,
  LiveInventory, PlanOptions, PlanError, create_params, clone_unresolved, clone_onto_itself,
  mark_as_template, not_on_pve, clone_of, live_is_template, live_only, config_drift, power,
  create_params_error, unreadable, will_download,
}
use proxops.Plan.Live.{
  live_key, artifact_key, artifact_storage_fields, power_at, config_set, power_desired_to_live,
  create_verb,
}

-- What the pass appends to the plan.
pub record Emitted : Type 0 where
  pub actions : List Action
  pub skipped : List Action
  pub anomalies : List Action

abbrev pub emit_nothing : Emitted
emit_nothing = record { actions = []; skipped = []; anomalies = [] }

abbrev pub emit_action : Action → Emitted
emit_action a = record { actions = a ∷ []; skipped = []; anomalies = [] }

abbrev pub emit_append : Emitted → Emitted → Emitted
emit_append e f = record {
  actions = e.actions ++ f.actions;
  skipped = e.skipped ++ f.skipped;
  anomalies = e.anomalies ++ f.anomalies;
}

-- One manifest's emission in front of the rest's.
abbrev pub emit_both :
    Result PlanError Emitted → Result PlanError Emitted → Result PlanError Emitted
emit_both (err e) n = err e
emit_both (ok e) (err f) = err f
emit_both (ok e) (ok f) = ok (emit_append e f)

module _ (opts : PlanOptions) (live : LiveInventory) where
  -- The fields that every action for a manifest sets.
  abbrev pub targeting : Resource → Action → Action
  targeting r a = record a {
    kind = r.ref.kind;
    name = r.ref.name;
    node = r.node;
    id = r.id;
    level = opts.levels r.ref;
    ref = r.ref;
  }

  -- The download of an artifact to a node.
  abbrev pub download_action : Resource → Params → Text → Action
  download_action r params node =
      let fields = artifact_storage_fields r.concrete in
      record (targeting r (action_of create)) {
        node = node;
        id = 0;
        params = params;
        reason = will_download r.ref.kind fields.filename fields.storage node;
      }

  -- The skip of an artifact whose storage could not be read.
  abbrev pub unreadable_action : Resource → Text → Action
  unreadable_action r node =
      let fields = artifact_storage_fields r.concrete in
      record (action_of status_only) {
        kind = r.ref.kind;
        name = r.ref.name;
        node = node;
        level = opts.levels r.ref;
        reason = unreadable r.ref.kind fields.storage fields.filename;
      }

  -- What is planned for the configuration under the artifact's key.
  abbrev pub artifact_found : Resource → Params → Text → Option Config → Emitted
  artifact_found r params node (some (some cur)) =
      if (r.drift (some cur)).changed
      then emit_action (download_action r params node)
      else emit_nothing
  artifact_found r params node (some none) = record {
    actions = [];
    skipped = unreadable_action r node ∷ [];
    anomalies = [];
  }
  artifact_found r params node none = record {
    actions = [];
    skipped = unreadable_action r node ∷ [];
    anomalies = [];
  }

  -- planArtifact, at one of the manifest's nodes.
  unfoldable pub artifact_at : Resource → Params → Text → Emitted
  artifact_at r params node =
      let fields = artifact_storage_fields r.concrete in
      artifact_found r params node
        (Assoc.lookup (artifact_key node fields.storage fields.filename r.ref.kind) live.configs)

  unfoldable pub artifact_nodes : Resource → Params → List Text → Emitted
  unfolding artifact_at
  artifact_nodes r params [] = emit_nothing
  artifact_nodes r params (node ∷ nodes) =
      emit_append (artifact_at r params node) (artifact_nodes r params nodes)

  -- planArtifact
  unfoldable pub plan_artifact : Resource → Emitted
  unfolding artifact_nodes
  plan_artifact r = elim r.to_create_params [
    | ok params ↦ artifact_nodes r params r.nodes
    | err e ↦ record {
      actions = [];
      skipped =
          record (action_of status_only) {
            kind = r.ref.kind;
            name = r.ref.name;
            node = r.node;
            level = opts.levels r.ref;
            reason = create_params_error r.ref e;
          }
          ∷ [];
      anomalies = [];
    }
  ]

  -- The MarkTemplate action, for an object that is live under its unmarked kind's key.
  abbrev pub mark_action : Resource → Text → Action
  mark_action r key = record (targeting r (action_of mark_template)) {
    reason = mark_as_template r.ref;
    deps = opts.edges r.ref;
    live_power = power_at live key;
    desired_power = r.desired_state;
  }

  abbrev pub create_action : Resource → Params → Action
  create_action r params = record (targeting r (action_of create)) {
    params = params;
    deps = opts.edges r.ref;
    reason = not_on_pve r.ref (create_verb r.ref.kind);
    desired_power = r.desired_state;
  }

  -- The clone fields of a create; a clone has to come from another vmid.
  unfoldable pub clone_create : Resource → Params → Clone → Result PlanError Emitted
  unfolding is_clone_backed
  clone_create r params v =
      if not (is_clone_backed v)
      then ok (emit_action (create_action r params))
      else if v.clone_source_id == 0
      then err (clone_unresolved r.ref v.clone)
      else if v.clone_source_id == v.vmid
      then err (clone_onto_itself r.ref v.clone_source_id)
      else ok (
          emit_action (record (create_action r params) {
            reason = clone_of r.ref (trim_space v.clone) v.clone_source_id;
            clone_source_id = v.clone_source_id;
            delete_keys = v.clone_delete_keys params;
          }))

  unfoldable pub plan_create : Resource → Result PlanError Emitted
  unfolding clone_create
  plan_create r = elim r.to_create_params [
    | err e ↦ err (create_params r.ref e)
    | ok params ↦ elim r.concrete [
      | vm v ↦ clone_create r params v
      | _ ↦ ok (emit_action (create_action r params))
    ]
  ]

  -- A manifest with no live object under its own key: a template manifest whose object is not yet
  -- a template is marked, anything else is created.
  unfoldable pub plan_absent : Resource → Result PlanError Emitted
  unfolding plan_create
  plan_absent r =
      let vm_key = live_key r.node kind_vm r.id in
      let ct_key = live_key r.node kind_lxc r.id in
      let made = plan_create r in
      if text_eq r.ref.kind kind_template_vm && config_set live vm_key
      then ok (emit_action (mark_action r vm_key))
      else if text_eq r.ref.kind kind_template_ct && config_set live ct_key
      then ok (emit_action (mark_action r ct_key))
      else made

  abbrev pub anomaly_action : Resource → Action
  anomaly_action r = record (targeting r (action_of anomaly)) { is_anomaly = true }

  abbrev pub update_action : Resource → Text → Drift → Action
  update_action r key d = record (targeting r (action_of update)) {
    params = d.update_params;
    stop_first = d.stop_required;
    reason = config_drift r.ref d.stop_required;
    live_power = power_at live key;
    desired_power = r.desired_state;
  }

  abbrev pub power_action : Resource → Text → Text → Action
  power_action r key verb =
      record (targeting r (action_of (if text_eq verb (codes "stop") then stop else start))) {
        reason = power r.ref (power_at live key) r.desired_state;
        live_power = power_at live key;
        desired_power = r.desired_state;
      }

  -- The configuration update, if any field drifted.
  unfoldable pub drift_actions : Resource → Text → Drift → List Action
  drift_actions r key d = if d.changed then update_action r key d ∷ [] else []

  -- The power transition, if any.
  unfoldable pub power_actions : Resource → Text → List Action
  power_actions r key =
      let verb = power_desired_to_live r.desired_state (power_at live key) in
      if text_eq verb [] then [] else power_action r key verb ∷ []

  -- A manifest with a live object under its own key.
  unfoldable pub plan_present : Resource → Text → Config → Emitted
  unfolding drift_actions power_actions
  plan_present r key cfg =
      if (text_eq r.ref.kind kind_vm || text_eq r.ref.kind kind_lxc) && is_pve_template cfg
      then record {
        actions = [];
        skipped = [];
        anomalies = record (anomaly_action r) { reason = live_is_template r.ref } ∷ [];
      }
      else record {
        actions = drift_actions r key (r.drift cfg) ++ power_actions r key;
        skipped = [];
        anomalies =
            map (λ msg. record (anomaly_action r) { reason = live_only r.ref msg })
              (r.drift_anomalies cfg);
      }

  -- The loop body of pass A.
  unfoldable pub plan_resource : Resource → Result PlanError Emitted
  unfolding plan_artifact plan_absent plan_present
  plan_resource r =
      let key = live_key r.node r.ref.kind r.id in
      let object : Result PlanError Emitted = elim (Assoc.lookup key live.configs) [
        | none ↦ plan_absent r
        | some cfg ↦ ok (plan_present r key cfg)
      ] in
      if artifact_kind r.ref.kind then ok (plan_artifact r) else object

  -- The loop of pass A; the first error ends it.
  unfoldable pub plan_desired : List Resource → Result PlanError Emitted
  plan_desired [] = ok emit_nothing
  plan_desired (r ∷ rs) = emit_both (plan_resource r) (plan_desired rs)
