-- ===== src/Plan/Load.antt =====
-- LoadLive of internal/plan/plan.go: the live inventory from PVE's listing and its answers.
use proxops.Base.{
  ℕ, Bool, true, false, List, [], ◌∷◌, ◌++◌, Option, none, some, Text, codes, text_eq,
  if◌then◌else◌, ◌==◌, ◌||◌, not,
}
use proxops.Base.Assoc
use proxops.Base.Result.{Result, ok, err}
use proxops.Schema.Kind.{Kind, kind_vm, kind_lxc, kind_template_vm, kind_template_ct, artifact_kind}
use proxops.Schema.Value.{Config, bool, is_pve_template}
use proxops.Schema.Resource.{Resource}
use proxops.Plan.Types.{LiveInventory, ClusterResource}
use proxops.Plan.Live.{
  live_key, artifact_key, node_allowed, normalize_kind, normalize_power, artifact_storage_fields,
  ArtifactFields,
}

-- An error of a read: pveclient.IsNotFound, or another one with its text.
pub data ReadError : Type 0 where
  not_found : ReadError
  read_failed : Text → ReadError

-- What PVE answers in one cycle: the listing, and by handle, node and id the configuration and the
-- status, and whether a storage has a file.
pub record Reads : Type 0 where
  pub cluster_resources : Result Text (List ClusterResource)
  pub vm_config : Text → ℕ → Result ReadError Config
  pub vm_status : Text → ℕ → Option Text
  pub lxc_config : Text → ℕ → Result ReadError Config
  pub lxc_status : Text → ℕ → Option Text
  pub has_content : (node storage content filename : Text) → Result Text Bool

abbrev pub set_config : Text → Config → LiveInventory → LiveInventory
set_config key cfg inv = record inv { configs = (key, cfg) ∷ inv.configs }

abbrev pub set_power : Text → Text → LiveInventory → LiveInventory
set_power key p inv = record inv { power = (key, p) ∷ inv.power }

-- The status of an object, where it can be read.
abbrev pub with_status : Text → Option Text → LiveInventory → LiveInventory
with_status key none inv = inv
with_status key (some s) inv = set_power key (normalize_power s) inv

-- A template is also there under its template kind.
abbrev pub with_template : Text → Config → LiveInventory → LiveInventory
with_template key cfg inv = if is_pve_template cfg then set_config key cfg inv else inv

-- What the loop makes of the answer for an object that PVE lists.
abbrev pub load_object :
    (key template_key : Text)
    → Result ReadError Config
    → Option Text
    → LiveInventory
    → LiveInventory
load_object key tkey (err not_found) st inv = inv
load_object key tkey (err (read_failed e)) st inv = set_power key (codes "read-error: " ++ e) inv
load_object key tkey (ok cfg) st inv =
    with_template tkey cfg (with_status key st (set_config key cfg inv))

module _ (reads : Reads) (allowed : List Text) where
  -- The switch on the kind.
  abbrev pub load_kind : ClusterResource → Kind → LiveInventory → LiveInventory
  load_kind res kind inv =
      if text_eq kind kind_vm
      then load_object (live_key res.node kind res.vmid)
          (live_key res.node kind_template_vm res.vmid) (reads.vm_config res.node res.vmid)
          (reads.vm_status res.node res.vmid) inv
      else if text_eq kind kind_lxc
      then load_object (live_key res.node kind res.vmid)
          (live_key res.node kind_template_ct res.vmid) (reads.lxc_config res.node res.vmid)
          (reads.lxc_status res.node res.vmid) inv
      else inv

  -- The loop's body: entries without a node, an id or a type, and other clusters' nodes are skipped.
  unfoldable pub load_entry : ClusterResource → LiveInventory → LiveInventory
  unfolding node_allowed normalize_kind live_key is_pve_template normalize_power
  load_entry res inv =
      if text_eq res.node [] || (res.vmid == 0 || text_eq res.type_name [])
      then inv
      else if not (node_allowed allowed res.node)
      then inv
      else load_kind res (normalize_kind res.type_name) inv

  unfoldable pub load_entries : List ClusterResource → LiveInventory → LiveInventory
  unfolding load_entry
  load_entries [] inv = inv
  load_entries (res ∷ rest) inv = load_entries rest (load_entry res inv)

  abbrev pub presence : Bool → Config
  presence b = some ((codes "present", bool b) ∷ [])

  abbrev pub load_presence : Text → Result Text Bool → LiveInventory → LiveInventory
  load_presence key (err e) inv = set_power key (codes "read-error: " ++ e) inv
  load_presence key (ok has) inv = set_config key (presence has) inv

  abbrev pub is_loaded : Option Config → Bool
  is_loaded none = false
  is_loaded (some cfg) = true

  -- The probe of a file on one node; a key that is there is not read again.
  unfoldable pub load_file : ArtifactFields → Kind → Text → LiveInventory → LiveInventory
  unfolding artifact_key Assoc.lookup
  load_file f kind node inv =
      let key = artifact_key node f.storage f.filename kind in
      if is_loaded (Assoc.lookup key inv.configs)
      then inv
      else load_presence key (reads.has_content node f.storage f.content f.filename) inv

  unfoldable pub load_files : ArtifactFields → Kind → List Text → LiveInventory → LiveInventory
  unfolding load_file
  load_files f kind [] inv = inv
  load_files f kind (n ∷ ns) inv = load_files f kind ns (load_file f kind n inv)

  -- The loop over the desired artifacts.
  unfoldable pub load_artifact : Resource → LiveInventory → LiveInventory
  unfolding load_files artifact_storage_fields artifact_kind
  load_artifact r inv =
      let f = artifact_storage_fields r.concrete in
      if not (artifact_kind r.ref.kind)
      then inv
      else if text_eq f.content []
      then inv
      else load_files f r.ref.kind r.nodes inv

  unfoldable pub load_artifacts : List Resource → LiveInventory → LiveInventory
  unfolding load_artifact
  load_artifacts [] inv = inv
  load_artifacts (r ∷ rs) inv = load_artifacts rs (load_artifact r inv)

  abbrev pub loaded : List Resource → Result Text (List ClusterResource) → Result Text LiveInventory
  loaded desired (err e) = err (codes "cluster resources: " ++ e)
  loaded desired (ok listing) = ok (
      load_artifacts desired
        (load_entries listing (record { configs = []; power = []; listing = listing })))

  -- LoadLive
  unfoldable pub load_live : List Resource → Result Text LiveInventory
  unfolding load_entries load_artifacts
  load_live desired = loaded desired reads.cluster_resources
