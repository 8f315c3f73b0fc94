-- ===== src/Plan/Downloads.antt =====
-- The artifacts: what is planned for them, and what is executed.
mod Tests
use proxops.Base.{
  ℕ, Bool, true, false, List, [], ◌∷◌, ◌++◌, Option, none, some, Text, codes, not, ◌≡◌, ◌⊎◌, inl,
  inr, refl, sym, map, filter, if◌then◌else◌, Bool-cases, arith, ap, ◌∙◌,
}
use proxops.Base.Assoc
use proxops.Base.Result.{Result, ok, err}
use proxops.Schema.Kind.{Kind, kind_iso, kind_ct_template, kind_disk_image}
use proxops.Schema.Value.{Params, Config}
use proxops.Schema.Resource.{Resource, Concrete, iso, ct_template, disk_image}
use proxops.Schema.Artifact.{
  ArtifactSpec, ArtifactError, artifact, validate, to_create_params, download_params, drift_of,
  is_present, nodes_of, iso_resource, ct_template_resource, disk_image_resource, drift_by,
}
use proxops.Schema.Volumes.{IsValid}
use proxops.Plan.Types.{Action, PlanOptions, LiveInventory, action_of, create, will_download}
use proxops.Plan.Live.{artifact_key, artifact_storage_fields, ArtifactFields}
use proxops.Plan.Desired.{
  Emitted, artifact_at, artifact_nodes, plan_artifact, download_action, artifact_found, emit_action,
  emit_nothing,
}

-- PVE answered for the storage, and the file is not there.
abbrev pub is_absent_at : Option Config → Bool
is_absent_at (some (some cur)) = not (is_present (some cur))
is_absent_at (some none) = false
is_absent_at none = false

module _ (opts : PlanOptions) (live : LiveInventory) where
  abbrev pub is_absent : ArtifactFields → Kind → Text → Bool
  is_absent f kind node =
      is_absent_at (Assoc.lookup (artifact_key node f.storage f.filename kind) live.configs)

  module _ (spell : ArtifactError → Text) (kind : Kind) (content : Text) (c : Concrete)
      (name : Text) (s : ArtifactSpec) (valid : validate content s ≡ none) where
    changed-absent :
        (cur : Params) → (drift_of content s (some cur)).changed ≡ not (is_present (some cur))
    unfolding drift_of to_create_params is_present
    changed-absent cur = rw valid (by_presence (is_present (some cur)))
      where
        by_presence : (b : Bool) → (drift_by b (ok (download_params content s))).changed ≡ not b
        by_presence true = refl
        by_presence false = refl

    abbrev resource : Resource
    resource = artifact spell kind content c name s

    -- What is planned at a node.
    abbrev at_node : Bool → Text → List Action
    at_node true node = download_action opts live resource (download_params content s) node ∷ []
    at_node false node = []

    artifact_found-download :
        (node : Text) (o : Option Config)
        → (artifact_found opts live resource (download_params content s) node o).actions
          ≡ at_node (is_absent_at o) node
    artifact_found-download node none = refl
    artifact_found-download node (some none) = refl
    artifact_found-download node (some (some cur)) =
        let k = changed-absent cur in rw k (by_presence (is_present (some cur)))
      where
        by_presence :
            (b : Bool)
            → (if not b
                then emit_action
                    (download_action opts live resource (download_params content s) node)
                else emit_nothing).actions
              ≡ at_node (not b) node
        by_presence true = refl
        by_presence false = refl

    artifact_nodes-download :
        (nodes : List Text)
        → (artifact_nodes opts live resource (download_params content s) nodes).actions
          ≡ map
              (download_action opts live resource (download_params content s))
              (filter (is_absent (artifact_storage_fields c) kind) nodes)
    unfolding artifact_nodes artifact_at
    artifact_nodes-download [] = refl
    artifact_nodes-download (n ∷ ns) =
        elim (Bool-cases (is_absent (artifact_storage_fields c) kind n)) [
          | inl e ↦
              rw (found n, e)
                (ap (λ l. download_action opts live resource (download_params content s) n ∷ l)
                  (artifact_nodes-download ns))
          | inr e ↦ rw (found n, e) (artifact_nodes-download ns)
        ]
      where
        found :
            (m : Text)
            → (artifact_found opts live resource (download_params content s) m (
                Assoc.lookup
                  (artifact_key m
                    (artifact_storage_fields c).storage
                    (artifact_storage_fields c).filename
                    kind)
                  live.configs)).actions
              ≡ at_node (is_absent (artifact_storage_fields c) kind m) m
        found m = artifact_found-download m (
            Assoc.lookup
              (artifact_key m (artifact_storage_fields c).storage
                (artifact_storage_fields c).filename kind)
              live.configs)

    -- What is planned for a validated artifact: a download to each of its nodes where PVE could say
    -- that the file is not there, in the order of the nodes, and nothing else.
    artifact-downloads :
        (plan_artifact opts live resource).actions
        ≡ map
            (download_action opts live resource (download_params content s))
            (filter (is_absent (artifact_storage_fields c) kind) (nodes_of s.node s.nodes))
    unfolding plan_artifact to_create_params
    artifact-downloads = rw valid (artifact_nodes-download (nodes_of s.node s.nodes))

  -- A validated ISO is planned to be downloaded to each of its nodes where PVE could say that the
  -- file is not there, once and in the order of the nodes, and nothing else is planned for it.
  pub iso-downloads :
      (spell : ArtifactError → Text) (name : Text) (s : ArtifactSpec)
      → validate (codes "iso") s ≡ none
      → (plan_artifact opts live (iso_resource spell name s)).actions
        ≡ map
            (download_action opts live
              (iso_resource spell name s)
              (download_params (codes "iso") s))
            (filter
              (is_absent
                (record { content = codes "iso"; storage = s.storage; filename = s.filename })
                kind_iso)
              (nodes_of s.node s.nodes))
  unfolding iso_resource artifact_storage_fields
  iso-downloads spell name s h =
      artifact-downloads spell kind_iso (codes "iso") (iso s.storage s.filename) name s h
