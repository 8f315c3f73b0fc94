-- ===== src/Plan/Prune.antt =====
-- Pass B of PlanActions: which live objects are candidates for deletion.
use proxops.Base.{
  ℕ, Bool, true, false, ◌&&◌, ◌||◌, not, some, List, [], ◌∷◌, ◌++◌, Text, text_eq, if◌then◌else◌,
  ◌==◌, any, Option,
}
use proxops.Base.Assoc
use proxops.Schema.Value.{Config, has_tag, pve_ownership_tag, is_pve_template, name_of}
use proxops.Schema.Kind.{
  Kind, kind_vm, kind_lxc, kind_template_vm, kind_template_ct, ref_text, artifact_kind,
}
use proxops.Schema.Resource.{Resource}
use proxops.Plan.Types.{
  Action, action_of, delete, status_only, ClusterResource, LiveInventory, PlanOptions, untagged,
  absent_in_git,
}
use proxops.Plan.Live.{live_key, node_allowed, normalize_kind, power_at}

-- The identities that one manifest puts into desiredSet: its own key, its Ref's text, and for a
-- template the key under which PVE lists it.
unfoldable pub desired_keys : Resource → List Text
desired_keys r =
    if artifact_kind r.ref.kind
    then []
    else live_key r.node r.ref.kind r.id
      ∷ ref_text r.ref
      ∷ ((if text_eq r.ref.kind kind_template_vm then live_key r.node kind_vm r.id ∷ [] else [])
          ++ (if text_eq r.ref.kind kind_template_ct
              then live_key r.node kind_lxc r.id ∷ []
              else []))

-- desiredSet
unfoldable pub desired_set : List Resource → List Text
unfolding desired_keys
desired_set [] = []
desired_set (r ∷ rs) = desired_keys r ++ desired_set rs

-- desiredSet[key]
unfoldable pub in_set : Text → List Text → Bool
in_set key set = any (λ k. text_eq k key) set

-- kindRef
unfoldable pub kind_ref : Kind → Config → Text
kind_ref kind cfg = ref_text (record { kind = kind; name = name_of cfg })

-- desiredTemplateVM and desiredTemplateCT: a manifest of the template kind claims the id.
unfoldable pub desired_template : Kind → List Resource → Text → ℕ → Bool
desired_template kind [] node id = false
desired_template kind (r ∷ rs) node id =
    (text_eq r.ref.kind kind && (text_eq r.node node && r.id == id))
    || desired_template kind rs node id

-- What the loop body of pass B does with one listing entry.
pub data Outcome : Type 0 where
  ignored : Outcome
  skipped candidate : Action → Outcome

-- What one outcome appends to the candidates and to Plan.Skipped.
abbrev pub candidates_of : Outcome → List Action
candidates_of (candidate a) = a ∷ []
candidates_of _ = []

abbrev pub skipped_of : Outcome → List Action
skipped_of (skipped a) = a ∷ []
skipped_of _ = []

module _ (opts : PlanOptions) (live : LiveInventory) (desired : List Resource) where
  -- The entry is addressable, of a managed kind, and on a node of this cluster.
  unfoldable pub in_scope : ClusterResource → Bool
  in_scope res =
      not (text_eq res.node [] || (res.vmid == 0 || text_eq res.type_name []))
      && (node_allowed opts.node_allowlist res.node
          && (text_eq (normalize_kind res.type_name) kind_vm
              || text_eq (normalize_kind res.type_name) kind_lxc))

  -- The manifests still claim the object: by its key, by its kind and name, or as a template.
  unfoldable pub claimed : ClusterResource → Config → Bool
  claimed res cfg =
      let kind = normalize_kind res.type_name in
      in_set (live_key res.node kind res.vmid) (desired_set desired)
      || in_set (kind_ref kind cfg) (desired_set desired)

  unfoldable pub claimed_template : ClusterResource → Config → Bool
  claimed_template res cfg =
      (is_pve_template cfg && desired_template kind_template_vm desired res.node res.vmid)
      || (is_pve_template cfg && desired_template kind_template_ct desired res.node res.vmid)

  abbrev pub untagged_action : ClusterResource → Config → Action
  untagged_action res cfg = record (action_of status_only) {
    kind = normalize_kind res.type_name;
    name = name_of cfg;
    node = res.node;
    id = res.vmid;
    reason = untagged;
  }

  abbrev pub delete_action : ClusterResource → Config → Action
  delete_action res cfg = record (action_of delete) {
    tier = 9;
    kind = normalize_kind res.type_name;
    name = name_of cfg;
    node = res.node;
    id = res.vmid;
    prune = true;
    reason = absent_in_git;
    live_power = power_at live (live_key res.node (normalize_kind res.type_name) res.vmid);
  }

  -- The part of the loop body behind the configuration's nil test.
  unfoldable pub judge_config : ClusterResource → Config → Outcome
  judge_config res cfg =
      if claimed res cfg
      then ignored
      else if not (has_tag cfg pve_ownership_tag)
      then skipped (untagged_action res cfg)
      else if claimed_template res cfg
      then ignored
      else candidate (delete_action res cfg)

  -- An object whose configuration was not read, or is a nil map, is passed over.
  unfoldable pub judge_read : ClusterResource → Option Config → Outcome
  judge_read res (some (some m)) = judge_config res (some m)
  judge_read res _ = ignored

  -- The loop body of pass B.
  unfoldable pub judge : ClusterResource → Outcome
  judge res =
      if in_scope res
      then judge_read res
          (Assoc.lookup (live_key res.node (normalize_kind res.type_name) res.vmid) live.configs)
      else ignored

  -- The prune candidates and the skipped objects, in the order of the listing.
  unfoldable pub prune_candidates : List ClusterResource → List Action
  prune_candidates [] = []
  prune_candidates (res ∷ listing) = candidates_of (judge res) ++ prune_candidates listing

  unfoldable pub prune_skipped : List ClusterResource → List Action
  prune_skipped [] = []
  prune_skipped (res ∷ listing) = skipped_of (judge res) ++ prune_skipped listing
