-- ===== src/Schema/Artifact.antt =====
-- The storage artifacts of internal/schema: iso.go, ctt.go, diskimage.go and artifact_ext.go. The
-- three kinds share their code but for the content type, the accepted extensions and the texts.
use proxops.Base.{
  ℕ, Bool, true, false, List, [], ◌∷◌, ◌++◌, Option, none, some, Text, codes, text_eq, to_lower,
  has_prefix, reverse, any, not, ◌&&◌, ◌||◌, if◌then◌else◌, leb, ◌==◌, length,
}
use proxops.Base.Result.{Result, ok, err}
use proxops.Schema.Kind.{Kind, kind_iso, kind_ct_template, kind_disk_image}
use proxops.Schema.Value.{Value, Params, Config, str, bool, get}
use proxops.Schema.Resource.{Resource, Drift, Concrete, iso, ct_template, disk_image}

pub record Checksum : Type 0 where
  pub algorithm : Text
  pub value : Text

-- ISOSpec, CTTSpec and DiskImageSpec
pub record ArtifactSpec : Type 0 where
  pub node : Text
  pub nodes : List Text
  pub storage : Text
  pub filename : Text
  pub url : Text
  pub checksum : Checksum

pub data ArtifactError : Type 0 where
  no_nodes no_storage no_filename no_url bad_url bad_checksum : ArtifactError
  bad_node bad_storage bad_filename bad_extension : Text → ArtifactError

-- Checksum.Valid
unfoldable pub is_valid_checksum : Checksum → Bool
is_valid_checksum c =
    let a = to_lower c.algorithm in
    if text_eq c.algorithm [] || text_eq c.value []
    then false
    else text_eq a (codes "sha256")
      || (text_eq a (codes "sha1") || (text_eq a (codes "sha512") || text_eq a (codes "md5")))

-- artifactNodes: the loop drops empty and repeated nodes.
unfoldable pub new_nodes : (seen : List Text) → List Text → List Text
new_nodes seen [] = []
new_nodes seen (n ∷ ns) =
    let kept = new_nodes (n ∷ seen) ns in
    let rest = new_nodes seen ns in
    if text_eq n [] || any (λ x. text_eq x n) seen then rest else n ∷ kept

unfoldable pub nodes_of : (legacy : Text) (declared : List Text) → List Text
unfolding new_nodes
nodes_of legacy [] = if text_eq legacy [] then [] else new_nodes [] (legacy ∷ [])
nodes_of legacy (n ∷ ns) = new_nodes [] (n ∷ ns)

-- ValidNodeName
unfoldable pub is_valid_node_name : Text → Bool
is_valid_node_name n =
    not (text_eq n []) && (leb (length n) 64 && not (any (λ c. c == b'/' || c == b' ') n))

is_alnum : ℕ → Bool
is_alnum c =
    (leb b'A' c && leb c b'Z') || ((leb b'a' c && leb c b'z') || (leb b'0' c && leb c b'9'))

-- A byte of storageIDRe, and of artifactNameRe behind the first.
unfoldable pub is_name_byte : ℕ → Bool
unfolding is_alnum
is_name_byte c = is_alnum c || (c == b'.' || (c == b'_' || c == b'-'))

-- storageIDRe.MatchString
unfoldable pub is_storage_id : Text → Bool
unfolding is_name_byte
is_storage_id s = not (text_eq s []) && not (any (λ c. not (is_name_byte c)) s)

-- artifactNameRe.MatchString, which is cttNameRe's too
unfoldable pub is_artifact_name : Text → Bool
unfolding is_name_byte is_alnum
is_artifact_name [] = false
is_artifact_name (c ∷ s) = is_alnum c && not (any (λ x. not (is_name_byte x)) s)

-- strings.HasSuffix
abbrev pub has_suffix : Text → Text → Bool
has_suffix s p = has_prefix (reverse s) (reverse p)

-- artifactExtAccept
unfoldable pub accepts_extension : (filename content : Text) → Bool
unfolding has_prefix
accepts_extension fn content =
    let lc = to_lower fn in
    if text_eq content (codes "vztmpl")
    then has_suffix lc (codes ".tar")
      || (has_suffix lc (codes ".tar.zst")
          || (has_suffix lc (codes ".tar.xz") || has_suffix lc (codes ".tar.gz")))
    else if text_eq content (codes "iso")
    then has_suffix lc (codes ".iso") || has_suffix lc (codes ".img")
    else if text_eq content (codes "import")
    then has_suffix lc (codes ".qcow2")
      || (has_suffix lc (codes ".vmdk") || has_suffix lc (codes ".raw"))
    else false

-- The loop of Validate over the nodes.
unfoldable pub bad_node_of : List Text → Option ArtifactError
unfolding is_valid_node_name
bad_node_of [] = none
bad_node_of (n ∷ ns) =
    let later = bad_node_of ns in if is_valid_node_name n then later else some (bad_node n)

-- The first check that fails ends Validate.
unfoldable pub first_failure : List (Option ArtifactError) → Option ArtifactError
first_failure [] = none
first_failure (some e ∷ later) = some e
first_failure (none ∷ later) = first_failure later

abbrev pub unless : Bool → ArtifactError → Option ArtifactError
unless b e = if b then none else some e

-- if spec.checksum.algorithm != "" || spec.checksum.value != ""
abbrev pub is_declared : Checksum → Bool
is_declared c = not (text_eq c.algorithm [] && text_eq c.value [])

abbrev pub no_drift : Drift
no_drift = record { update_params = []; stop_required = false; changed = false }

-- present, _ := current["present"].(bool)
abbrev pub true_or_false : Option Value → Bool
true_or_false (some (bool b)) = b
true_or_false _ = false

unfoldable pub is_present : Config → Bool
unfolding get
is_present cfg = true_or_false (get (codes "present") cfg)

abbrev pub drift_by : Bool → Result ArtifactError Params → Drift
drift_by true r = no_drift
drift_by false (err e) = no_drift
drift_by false (ok p) = record { update_params = p; stop_required = false; changed = true }

abbrev pub checksum_params : Checksum → Params
checksum_params c =
    if is_valid_checksum c
    then (codes "checksum", str c.value)
      ∷ (codes "checksum_algorithm", str (to_lower c.algorithm))
      ∷ []
    else []

module _ (content : Text) where
  -- The checks of Validate, in order.
  abbrev pub checks : ArtifactSpec → List (Option ArtifactError)
  checks s =
      unless (not (length (nodes_of s.node s.nodes) == 0)) no_nodes
      ∷ bad_node_of (nodes_of s.node s.nodes)
      ∷ unless (not (text_eq s.storage [])) no_storage
      ∷ unless (is_storage_id s.storage) (bad_storage s.storage)
      ∷ unless (not (text_eq s.filename [])) no_filename
      ∷ unless (is_artifact_name s.filename) (bad_filename s.filename)
      ∷ unless (accepts_extension s.filename content) (bad_extension s.filename)
      ∷ unless (not (text_eq s.url [])) no_url
      ∷ unless (has_prefix s.url (codes "http://") || has_prefix s.url (codes "https://")) bad_url
      ∷ unless (not (is_declared s.checksum) || is_valid_checksum s.checksum) bad_checksum
      ∷ []

  -- Validate
  unfoldable pub validate : ArtifactSpec → Option ArtifactError
  unfolding first_failure nodes_of bad_node_of is_storage_id is_artifact_name accepts_extension
      is_valid_checksum has_prefix
  validate s = first_failure (checks s)

  abbrev pub download_params : ArtifactSpec → Params
  download_params s =
      (codes "url", str s.url)
      ∷ (codes "filename", str s.filename)
      ∷ (codes "storage", str s.storage)
      ∷ (codes "content", str content)
      ∷ checksum_params s.checksum

  abbrev pub params_or : Option ArtifactError → ArtifactSpec → Result ArtifactError Params
  params_or (some e) s = err e
  params_or none s = ok (download_params s)

  -- ToCreateParams
  unfoldable pub to_create_params : ArtifactSpec → Result ArtifactError Params
  unfolding validate is_valid_checksum
  to_create_params s = params_or (validate s) s

  -- Drift
  unfoldable pub drift_of : ArtifactSpec → Config → Drift
  unfolding is_present to_create_params
  drift_of s none = no_drift
  drift_of s (some cur) = drift_by (is_present (some cur)) (to_create_params s)

-- What Error spells is a parameter.
module _ (spell : ArtifactError → Text) where
  abbrev pub spelled : Result ArtifactError Params → Result Text Params
  spelled (err e) = err (spell e)
  spelled (ok p) = ok p

  -- Node
  abbrev pub first_node : List Text → Text
  first_node [] = []
  first_node (n ∷ ns) = n

  abbrev pub artifact : Kind → Text → Concrete → Text → ArtifactSpec → Resource
  artifact kind content c name s = record {
    ref = record { kind = kind; name = name };
    node = first_node (nodes_of s.node s.nodes);
    nodes = nodes_of s.node s.nodes;
    id = 0;
    desired_state = [];
    to_create_params = spelled (to_create_params content s);
    drift = drift_of content s;
    drift_anomalies = λ cfg. [];
    deps = [];
    concrete = c;
  }

  -- *ISO, *CTTemplate and *DiskImage as resources
  unfoldable pub iso_resource : Text → ArtifactSpec → Resource
  unfolding to_create_params drift_of nodes_of
  iso_resource name s = artifact kind_iso (codes "iso") (iso s.storage s.filename) name s

  unfoldable pub ct_template_resource : Text → ArtifactSpec → Resource
  unfolding to_create_params drift_of nodes_of
  ct_template_resource name s =
      artifact kind_ct_template (codes "vztmpl") (ct_template s.storage s.filename) name s

  unfoldable pub disk_image_resource : Text → ArtifactSpec → Resource
  unfolding to_create_params drift_of nodes_of
  disk_image_resource name s =
      artifact kind_disk_image (codes "import") (disk_image s.storage s.filename) name s

-- The volume ids of resolveCDrom, resolveTemplate and DiskImage.Volid.
unfoldable pub volid : (content : Text) → ArtifactSpec → Text
volid content s = s.storage ++ b':' ∷ (content ++ b'/' ∷ s.filename)
