-- ===== src/Plan/Live.antt =====
-- How internal/plan/plan.go reads the live inventory: its keys, kinds, power states and nodes.
use proxops.Base.{
  ℕ, Bool, true, false, ◌||◌, not, some, List, [], ◌∷◌, ◌++◌, Text, codes, text_eq, to_lower,
  to_upper, digits_of, any, if◌then◌else◌,
}
use proxops.Base.Assoc
use proxops.Schema.Kind.{Kind, kind_vm, kind_lxc, kind_iso, kind_ct_template, kind_disk_image}
use proxops.Schema.Kind.{kind_template_vm}
use proxops.Schema.Resource.{Concrete, iso, ct_template, disk_image}
use proxops.Plan.Types.{LiveInventory}

-- keyFor and liveKey: "node|kind|id".
unfoldable pub live_key : Text → Kind → ℕ → Text
live_key node kind id = node ++ b'|' ∷ (kind ++ b'|' ∷ digits_of id)

-- artifactKey: "node|kind|storage:filename".
unfoldable pub artifact_key : Text → Text → Text → Kind → Text
artifact_key node storage filename kind =
    node ++ b'|' ∷ (kind ++ b'|' ∷ (storage ++ b':' ∷ filename))

-- nodeAllowed
unfoldable pub node_allowed : List Text → Text → Bool
node_allowed [] node = true
node_allowed (a ∷ allow) node = any (λ x. text_eq x node) (a ∷ allow)

-- normalizeKind
unfoldable pub normalize_kind : Text → Kind
normalize_kind t =
    let l = to_lower t in
    if text_eq l (codes "vm") || (text_eq l (codes "qemu") || text_eq l (codes "qm"))
    then kind_vm
    else if text_eq l (codes "ct") || (text_eq l (codes "lxc") || text_eq l (codes "container"))
    then kind_lxc
    else to_upper t

-- normalizePower
unfoldable pub normalize_power : Text → Text
normalize_power s =
    let l = to_lower s in
    if text_eq l (codes "running") || text_eq l (codes "started")
    then codes "running"
    else if text_eq l (codes "stopped") || (text_eq l (codes "paused") || text_eq l [])
    then codes "stopped"
    else l

-- powerDesiredToLive: "start", "stop" or "".
unfoldable pub power_desired_to_live : (desired live : Text) → Text
power_desired_to_live desired live =
    if text_eq live []
    then []
    else if text_eq desired (codes "started")
    then (if not (text_eq live (codes "running")) then codes "start" else [])
    else if text_eq desired (codes "stopped")
    then (if text_eq live (codes "running") then codes "stop" else [])
    else []

-- createVerb
unfoldable pub create_verb : Kind → Text
create_verb k =
    if text_eq k kind_ct_template
    then codes "download ct-template (vztmpl)"
    else if text_eq k kind_iso
    then codes "download"
    else if text_eq k kind_disk_image
    then codes "download disk image (import)"
    else if text_eq k kind_template_vm
    then codes "create + mark as PVE template"
    else codes "create"

pub record ArtifactFields : Type 0 where
  pub content : Text
  pub storage : Text
  pub filename : Text

-- artifactStorageFields
unfoldable pub artifact_storage_fields : Concrete → ArtifactFields
artifact_storage_fields (iso s f) = record { content = codes "iso"; storage = s; filename = f }
artifact_storage_fields (ct_template s f) = record {
  content = codes "vztmpl";
  storage = s;
  filename = f;
}
artifact_storage_fields (disk_image s f) = record {
  content = codes "import";
  storage = s;
  filename = f;
}
artifact_storage_fields _ = record { content = []; storage = []; filename = [] }

-- live.Power[key]
unfoldable pub power_at : LiveInventory → Text → Text
unfolding Assoc.get_or
power_at live key = Assoc.get_or [] key live.power

-- live.Configs[key] != nil
unfoldable pub config_set : LiveInventory → Text → Bool
unfolding Assoc.lookup
config_set live key = elim (Assoc.lookup key live.configs) [ some (some m) ↦ true | _ ↦ false ]
