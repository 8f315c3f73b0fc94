-- ===== src/Schema/References.antt =====
-- ResolveArtifactRefs of internal/schema/resolve_refs.go. It writes the resolved fields in place;
-- what it reads of other manifests it never writes, so each is resolved against the given list.
use proxops.Base.{
  ℕ, Bool, List, [], ◌∷◌, Option, none, some, Text, codes, text_eq, trim_space, any, not, ◌||◌,
  ◌==◌, if◌then◌else◌,
}
use proxops.Base.Result.{Result, ok, err}
use proxops.Schema.Kind.{Ref, ref_eq, kind_template_vm, kind_iso, kind_ct_template, kind_disk_image}
use proxops.Schema.Artifact.{ArtifactSpec, nodes_of, volid}

-- An entry of spec.disks: its image, and imageVolid.
pub record DiskEntry : Type 0 where
  pub image : Text
  pub image_volid : Text

-- What is read and written of a VM, also inside a TemplateVM.
pub record VmRefs : Type 0 where
  pub ref : Ref
  pub node : Text
  pub clone : Text
  pub cdrom_iso : Text
  pub disks : List DiskEntry
  pub clone_source_id : ℕ
  pub cdrom_volid : Text

-- What is read and written of an LXC, also inside a TemplateCT.
pub record LxcRefs : Type 0 where
  pub ref : Ref
  pub node : Text
  pub template : Text
  pub ostemplate_volid : Text

pub data Manifest : Type 0 where
  vm : VmRefs → Manifest
  template_vm : (vmid : ℕ) → VmRefs → Manifest
  lxc template_ct : LxcRefs → Manifest
  iso ct_template disk_image : Ref → ArtifactSpec → Manifest

pub data ReferenceError : Type 0 where
  unknown_reference wrong_kind misplaced no_vmid : (from target : Ref) → ReferenceError

unfoldable pub ref_of_manifest : Manifest → Ref
ref_of_manifest (vm v) = v.ref
ref_of_manifest (template_vm id v) = v.ref
ref_of_manifest (lxc l) = l.ref
ref_of_manifest (template_ct l) = l.ref
ref_of_manifest (iso r s) = r
ref_of_manifest (ct_template r s) = r
ref_of_manifest (disk_image r s) = r

-- byRef[r]: of two manifests with one identity the later one.
abbrev pub or_else : {A : Type 0} → Option A → Option A → Option A
or_else (some a) b = some a
or_else none b = b

unfoldable pub find_manifest : Ref → List Manifest → Option Manifest
unfolding ref_of_manifest ref_eq
find_manifest r [] = none
find_manifest r (x ∷ xs) =
    or_else (find_manifest r xs) (if ref_eq (ref_of_manifest x) r then some x else none)

-- containsString
unfoldable pub contains_string : List Text → Text → Bool
contains_string list s = any (λ x. text_eq x s) list

-- VM.Nodes, and TemplateVM's
unfoldable pub vm_nodes : VmRefs → List Text
vm_nodes v = if text_eq v.node [] then [] else v.node ∷ []

-- The artifact that a reference names, on the node of the object that refers to it.
abbrev pub placed_on : Ref → Ref → Text → ArtifactSpec → Result ReferenceError ArtifactSpec
placed_on from target node s =
    if contains_string (nodes_of s.node s.nodes) node then ok s else err (misplaced from target)

abbrev pub as_iso : Ref → Ref → Text → Option Manifest → Result ReferenceError ArtifactSpec
as_iso from target node none = err (unknown_reference from target)
as_iso from target node (some (iso r s)) = placed_on from target node s
as_iso from target node (some _) = err (wrong_kind from target)

abbrev pub as_ct_template : Ref → Ref → Text → Option Manifest → Result ReferenceError ArtifactSpec
as_ct_template from target node none = err (unknown_reference from target)
as_ct_template from target node (some (ct_template r s)) = placed_on from target node s
as_ct_template from target node (some _) = err (wrong_kind from target)

abbrev pub as_disk_image : Ref → Ref → Text → Option Manifest → Result ReferenceError ArtifactSpec
as_disk_image from target node none = err (unknown_reference from target)
as_disk_image from target node (some (disk_image r s)) = placed_on from target node s
as_disk_image from target node (some _) = err (wrong_kind from target)

-- The vmid of the template that a clone names.
abbrev pub as_source : Ref → Ref → Text → Option Manifest → Result ReferenceError ℕ
as_source from target node none = err (unknown_reference from target)
as_source from target node (some (template_vm id t)) =
    if not (contains_string (vm_nodes t) node)
    then err (misplaced from target)
    else if id == 0
    then err (no_vmid from target)
    else ok id
as_source from target node (some _) = err (wrong_kind from target)

abbrev pub volid_of : Text → Result ReferenceError ArtifactSpec → Result ReferenceError Text
volid_of content (err e) = err e
volid_of content (ok s) = ok (volid content s)

abbrev pub and_set : {A B : Type 0} → Result ReferenceError A → (A → B) → Result ReferenceError B
and_set (err e) f = err e
and_set (ok a) f = ok (f a)

abbrev pub and_then :
    {A B : Type 0}
    → Result ReferenceError A
    → (A → Result ReferenceError B)
    → Result ReferenceError B
and_then (err e) f = err e
and_then (ok a) f = f a

module _ (ms : List Manifest) where
  -- resolveCDrom: cdromVolid
  unfoldable pub resolve_cdrom : VmRefs → Result ReferenceError Text
  unfolding trim_space text_eq find_manifest contains_string nodes_of volid
  resolve_cdrom v =
      let name = trim_space v.cdrom_iso in
      let target : Ref = record { kind = kind_iso; name = name } in
      if text_eq name [] || text_eq name (codes "none")
      then ok []
      else volid_of (codes "iso") (as_iso v.ref target v.node (find_manifest target ms))

  -- resolveDiskImages: one disk's imageVolid
  unfoldable pub resolve_disk : VmRefs → DiskEntry → Result ReferenceError DiskEntry
  unfolding trim_space text_eq find_manifest contains_string nodes_of volid
  resolve_disk v d =
      let name = trim_space d.image in
      let target : Ref = record { kind = kind_disk_image; name = name } in
      and_set
        (if text_eq name []
          then ok []
          else volid_of (codes "import")
              (as_disk_image v.ref target v.node (find_manifest target ms)))
        (λ x. record d { image_volid = x })

  -- resolveDiskImages
  unfoldable pub resolve_disks : VmRefs → List DiskEntry → Result ReferenceError (List DiskEntry)
  unfolding resolve_disk
  resolve_disks v [] = ok []
  resolve_disks v (d ∷ ds) =
      and_then (resolve_disk v d) (λ e. and_set (resolve_disks v ds) (λ es. e ∷ es))

  -- resolveClone: cloneSourceID
  unfoldable pub resolve_clone : VmRefs → Result ReferenceError ℕ
  unfolding trim_space text_eq find_manifest contains_string vm_nodes
  resolve_clone v =
      let name = trim_space v.clone in
      let target : Ref = record { kind = kind_template_vm; name = name } in
      if text_eq name [] then ok 0 else as_source v.ref target v.node (find_manifest target ms)

  -- resolveTemplate: ostemplateVolid
  unfoldable pub resolve_template : LxcRefs → Result ReferenceError LxcRefs
  unfolding text_eq find_manifest contains_string nodes_of volid
  resolve_template l =
      let target : Ref = record { kind = kind_ct_template; name = l.template } in
      and_set
        (if text_eq l.template []
          then ok []
          else volid_of (codes "vztmpl")
              (as_ct_template l.ref target l.node (find_manifest target ms)))
        (λ x. record l { ostemplate_volid = x })

  -- The cdrom and the images, for a VM and a TemplateVM.
  abbrev pub resolve_devices : VmRefs → Result ReferenceError VmRefs
  resolve_devices v =
      and_then (resolve_cdrom v)
        (λ x. and_set (resolve_disks v v.disks) (λ ds. record v { cdrom_volid = x; disks = ds }))

  abbrev pub resolve_vm : VmRefs → Result ReferenceError VmRefs
  resolve_vm v =
      and_then (resolve_devices v)
        (λ u. and_set (resolve_clone v) (λ id. record u { clone_source_id = id }))

  -- The switch on the type.
  unfoldable pub resolve_manifest : Manifest → Result ReferenceError Manifest
  unfolding resolve_cdrom resolve_disks resolve_clone resolve_template
  resolve_manifest (vm v) = and_set (resolve_vm v) vm
  resolve_manifest (template_vm id v) = and_set (resolve_devices v) (template_vm id)
  resolve_manifest (lxc l) = and_set (resolve_template l) lxc
  resolve_manifest (template_ct l) = and_set (resolve_template l) template_ct
  resolve_manifest (iso r s) = ok (iso r s)
  resolve_manifest (ct_template r s) = ok (ct_template r s)
  resolve_manifest (disk_image r s) = ok (disk_image r s)

  unfoldable pub resolve_each : List Manifest → Result ReferenceError (List Manifest)
  unfolding resolve_manifest
  resolve_each [] = ok []
  resolve_each (x ∷ xs) =
      and_then (resolve_manifest x) (λ y. and_set (resolve_each xs) (λ ys. y ∷ ys))

-- ResolveArtifactRefs
unfoldable pub resolve_artifact_refs : List Manifest → Result ReferenceError (List Manifest)
unfolding resolve_each
resolve_artifact_refs ms = resolve_each ms ms
