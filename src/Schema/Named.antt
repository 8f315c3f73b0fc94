-- ===== src/Schema/Named.antt =====
-- What a reference of a manifest names, where it is resolved.
use proxops.Base.{
  ℕ, true, List, [], ◌∷◌, Option, none, some, Text, codes, text_eq, ◌≡◌, ◌≢◌, inl, inr, refl, IsIn,
  Bool-cases, text_eq_iff, arith, ◌∙◌, subst, if◌then◌else◌, ◌==◌, Any-imp, any→Any,
}
use proxops.Base.Result.{Result, ok, err}
use proxops.Schema.Kind.{Ref, ref_eq, ref_eq_iff}
use proxops.Schema.Artifact.{ArtifactSpec, nodes_of, volid}
use proxops.Schema.References.{
  VmRefs, Manifest, vm, template_vm, lxc, template_ct, iso, ct_template, disk_image, ReferenceError,
  ref_of_manifest, or_else, find_manifest, contains_string, vm_nodes, placed_on, as_iso,
  as_ct_template, as_disk_image, as_source, volid_of, and_set, and_then, misplaced, no_vmid,
}

pub and_set-ok :
    {A B : Type 0} (r : Result ReferenceError A) (f : A → B) (b : B)
    → and_set r f ≡ ok b
    → (a : A) × (r ≡ ok a) × (f a ≡ b)
and_set-ok (err e) f b h = cc
and_set-ok (ok a) f b h = (a, refl, cc)

pub and_then-ok :
    {A B : Type 0} (r : Result ReferenceError A) (f : A → Result ReferenceError B) (b : B)
    → and_then r f ≡ ok b
    → (a : A) × (r ≡ ok a) × (f a ≡ ok b)
and_then-ok (err e) f b h = cc
and_then-ok (ok a) f b h = (a, refl, h)

find-IsIn :
    (r : Ref) (ms : List Manifest) (m : Manifest)
    → find_manifest r ms ≡ some m
    → IsIn m ms × (ref_of_manifest m ≡ r)
unfolding find_manifest
find-IsIn r [] m h = cc
find-IsIn r (x ∷ xs) m h = by_rest (λ y e. find-IsIn r xs y e) (find_manifest r xs) refl h
  where
    by_rest :
        ((y : Manifest) → find_manifest r xs ≡ some y → IsIn y xs × (ref_of_manifest y ≡ r))
        → (o : Option Manifest) → find_manifest r xs ≡ o
        → or_else o (if ref_eq (ref_of_manifest x) r then some x else none) ≡ some m
        → IsIn m (x ∷ xs) × (ref_of_manifest m ≡ r)
    by_rest later (some y) e k =
        let same : y ≡ m = cc in
        let (i, q) = later y e in
        (inr (subst (λ z. IsIn z xs) same i), subst (λ z. ref_of_manifest z ≡ r) same q)
    by_rest later none e k = elim (Bool-cases (ref_eq (ref_of_manifest x) r)) [
      | inl t ↦
          let first : some x ≡ some m = rw t at k in
          let same : x ≡ m = cc in
          (
            inl same,
            subst (λ z. ref_of_manifest z ≡ r) same ((ref_eq_iff (ref_of_manifest x) r).0 t),
          )
      | inr t ↦ let c : none ≡ some m = rw t at k in cc
    ]

contains-IsIn : (list : List Text) (s : Text) → contains_string list s ≡ true → IsIn s list
unfolding contains_string
contains-IsIn list s h =
    Any-imp (λ x. text_eq x s ≡ true) (λ x. x ≡ s) (λ x e. (text_eq_iff x s).0 e) list
      (any→Any (λ x. text_eq x s) list h)

module _ (ms : List Manifest) where
  -- A volume of an artifact of the manifests that is placed on a node.
  pub record IsVolume (made : Ref → ArtifactSpec → Manifest) (content node : Text) (target : Ref)
      (x : Text) : Type 0 where
    pub artifact : ArtifactSpec
    pub listed : IsIn (made target artifact) ms
    pub placed : IsIn node (nodes_of artifact.node artifact.nodes)
    pub is_volid : x ≡ volid content artifact

  -- A template VM of the manifests on a node, with its vmid.
  pub record IsSource (node : Text) (target : Ref) (id : ℕ) : Type 0 where
    pub template : VmRefs
    pub listed : IsIn (template_vm id template) ms
    pub named : template.ref ≡ target
    pub placed : template.node ≡ node
    pub positive : id ≢ 0

  placed-IsVolume :
      (made : Ref → ArtifactSpec → Manifest) (content node x : Text) (from target r : Ref)
      (s : ArtifactSpec)
      → IsIn (made r s) ms
      → r ≡ target
      → volid_of content (placed_on from target node s) ≡ ok x
      → IsVolume made content node target x
  placed-IsVolume made content node x from target r s i e h =
      elim (Bool-cases (contains_string (nodes_of s.node s.nodes) node)) [
        | inl c ↦
            let made_ok : ok (volid content s) ≡ ok x = rw c at h in
            record {
              artifact = s;
              listed = subst (λ q. IsIn (made q s) ms) e i;
              placed = contains-IsIn (nodes_of s.node s.nodes) node c;
              is_volid = cc;
            }
        | inr c ↦ let f : err (misplaced from target) ≡ ok x = rw c at h in cc
      ]

  pub as_iso-IsVolume :
      (from target : Ref) (node x : Text) (o : Option Manifest)
      → find_manifest target ms ≡ o
      → volid_of (codes "iso") (as_iso from target node o) ≡ ok x
      → IsVolume iso (codes "iso") node target x
  unfolding ref_of_manifest
  as_iso-IsVolume from target node x (some (iso r s)) e h =
      let (i, q) = find-IsIn target ms (iso r s) e in
      placed-IsVolume iso (codes "iso") node x from target r s i q h
  as_iso-IsVolume from target node x none e h = cc
  as_iso-IsVolume from target node x (some (vm v)) e h = cc
  as_iso-IsVolume from target node x (some (template_vm id v)) e h = cc
  as_iso-IsVolume from target node x (some (lxc l)) e h = cc
  as_iso-IsVolume from target node x (some (template_ct l)) e h = cc
  as_iso-IsVolume from target node x (some (ct_template r s)) e h = cc
  as_iso-IsVolume from target node x (some (disk_image r s)) e h = cc

  pub as_ct_template-IsVolume :
      (from target : Ref) (node x : Text) (o : Option Manifest)
      → find_manifest target ms ≡ o
      → volid_of (codes "vztmpl") (as_ct_template from target node o) ≡ ok x
      → IsVolume ct_template (codes "vztmpl") node target x
  unfolding ref_of_manifest
  as_ct_template-IsVolume from target node x (some (ct_template r s)) e h =
      let (i, q) = find-IsIn target ms (ct_template r s) e in
      placed-IsVolume ct_template (codes "vztmpl") node x from target r s i q h
  as_ct_template-IsVolume from target node x none e h = cc
  as_ct_template-IsVolume from target node x (some (vm v)) e h = cc
  as_ct_template-IsVolume from target node x (some (template_vm id v)) e h = cc
  as_ct_template-IsVolume from target node x (some (lxc l)) e h = cc
  as_ct_template-IsVolume from target node x (some (template_ct l)) e h = cc
  as_ct_template-IsVolume from target node x (some (iso r s)) e h = cc
  as_ct_template-IsVolume from target node x (some (disk_image r s)) e h = cc

  pub as_disk_image-IsVolume :
      (from target : Ref) (node x : Text) (o : Option Manifest)
      → find_manifest target ms ≡ o
      → volid_of (codes "import") (as_disk_image from target node o) ≡ ok x
      → IsVolume disk_image (codes "import") node target x
  unfolding ref_of_manifest
  as_disk_image-IsVolume from target node x (some (disk_image r s)) e h =
      let (i, q) = find-IsIn target ms (disk_image r s) e in
      placed-IsVolume disk_image (codes "import") node x from target r s i q h
  as_disk_image-IsVolume from target node x none e h = cc
  as_disk_image-IsVolume from target node x (some (vm v)) e h = cc
  as_disk_image-IsVolume from target node x (some (template_vm id v)) e h = cc
  as_disk_image-IsVolume from target node x (some (lxc l)) e h = cc
  as_disk_image-IsVolume from target node x (some (template_ct l)) e h = cc
  as_disk_image-IsVolume from target node x (some (iso r s)) e h = cc
  as_disk_image-IsVolume from target node x (some (ct_template r s)) e h = cc

  vm_nodes-node : (t : VmRefs) (node : Text) → IsIn node (vm_nodes t) → t.node ≡ node
  unfolding vm_nodes
  vm_nodes-node t node m = elim (Bool-cases (text_eq t.node [])) [
    | inl e ↦ let n : IsIn node [] = rw e at m in elim n [ ]
    | inr e ↦
        let n : IsIn node (t.node ∷ []) = rw e at m in elim n [ inl q ↦ q | inr f ↦ elim f [ ] ]
  ]

  pub as_source-IsSource :
      (from target : Ref) (node : Text) (id : ℕ) (o : Option Manifest)
      → find_manifest target ms ≡ o
      → as_source from target node o ≡ ok id
      → IsSource node target id
  unfolding ref_of_manifest
  as_source-IsSource from target node id (some (template_vm k t)) e h =
      elim (Bool-cases (contains_string (vm_nodes t) node)) [
        | inl c ↦ elim (Bool-cases (k == 0)) [
          | inl z ↦ let f : err (no_vmid from target) ≡ ok id = rw (c, z) at h in cc
          | inr z ↦
              let found : ok k ≡ ok id = rw (c, z) at h in
              let same : k ≡ id = cc in
              let (i, q) = find-IsIn target ms (template_vm k t) e in
              record {
                template = t;
                listed = subst (λ j. IsIn (template_vm j t) ms) same i;
                named = q;
                placed = vm_nodes-node t node (contains-IsIn (vm_nodes t) node c);
                positive = (λ y. let w : k ≡ 0 = same ∙ y in ground arith);
              }
        ]
        | inr c ↦ let f : err (misplaced from target) ≡ ok id = rw c at h in cc
      ]
  as_source-IsSource from target node id none e h = cc
  as_source-IsSource from target node id (some (vm v)) e h = cc
  as_source-IsSource from target node id (some (lxc l)) e h = cc
  as_source-IsSource from target node id (some (template_ct l)) e h = cc
  as_source-IsSource from target node id (some (iso r s)) e h = cc
  as_source-IsSource from target node id (some (ct_template r s)) e h = cc
  as_source-IsSource from target node id (some (disk_image r s)) e h = cc
