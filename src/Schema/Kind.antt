-- ===== src/Schema/Kind.antt =====
-- Kinds and identities: internal/schema/resource.go and the kind table of internal/schema/types.go.
use proxops.Base.{
  Bool, true, ◌&&◌, ◌||◌, Option, none, some, ◌++◌, ◌≡◌, ◌↔◌, ap, Text, codes, text_eq, text_eq_iff,
  to_upper, trim_space, if◌then◌else◌, and-eq-true, arith,
}

-- type Kind string
abbrev pub Kind : Type 0
Kind = Text

abbrev pub kind_vm : Kind
kind_vm = codes "VM"

abbrev pub kind_lxc : Kind
kind_lxc = codes "LXC"

abbrev pub kind_ct_template : Kind
kind_ct_template = codes "CTTemplate"

abbrev pub kind_iso : Kind
kind_iso = codes "ISO"

abbrev pub kind_disk_image : Kind
kind_disk_image = codes "DiskImage"

abbrev pub kind_template_vm : Kind
kind_template_vm = codes "TemplateVM"

abbrev pub kind_template_ct : Kind
kind_template_ct = codes "TemplateCT"

pub record Ref : Type 0 where
  pub kind : Kind
  pub name : Text

-- Ref.String
unfoldable pub ref_text : Ref → Text
ref_text r = r.kind ++ codes "/" ++ r.name

-- Ref.Equal, and == on Ref as a map key
unfoldable pub ref_eq : Ref → Ref → Bool
ref_eq r o = text_eq r.kind o.kind && text_eq r.name o.name

-- ArtifactKind
unfoldable pub artifact_kind : Kind → Bool
artifact_kind k = text_eq k kind_iso || text_eq k kind_ct_template || text_eq k kind_disk_image

-- ParseKind; `none` is the error of an unknown kind.
unfoldable pub parse_kind : Text → Option Kind
parse_kind s =
    let u = to_upper (trim_space s) in
    if text_eq u (codes "VM")
    then some kind_vm
    else if text_eq u (codes "LXC")
    then some kind_lxc
    else if text_eq u (codes "CTTEMPLATE") || text_eq u (codes "CTT")
    then some kind_ct_template
    else if text_eq u (codes "ISO")
    then some kind_iso
    else if text_eq u (codes "DISKIMAGE") || text_eq u (codes "DISK")
    then some kind_disk_image
    else if text_eq u (codes "TEMPLATEVM")
        || (text_eq u (codes "TVM") || text_eq u (codes "TEMPLATE"))
    then some kind_template_vm
    else if text_eq u (codes "TEMPLATECT") || text_eq u (codes "TCT")
    then some kind_template_ct
    else none

pub ref_eq_iff : (r o : Ref) → (ref_eq r o ≡ true) ↔ (r ≡ o)
unfolding ref_eq
ref_eq_iff r o = (sound, complete)
  where
    sound : ref_eq r o ≡ true → r ≡ o
    sound h =
        let (k, n) = and-eq-true (text_eq r.kind o.kind) (text_eq r.name o.name) h in
        let p = (text_eq_iff r.kind o.kind).0 k in
        let q = (text_eq_iff r.name o.name).0 n in λ i. record { kind = p i; name = q i }

    complete : r ≡ o → ref_eq r o ≡ true
    complete e = ground (
      arith,
      text_eq_iff r.kind o.kind,
      text_eq_iff r.name o.name,
      ap (λ (x : Ref). x.kind) e,
      ap (λ (x : Ref). x.name) e,
    )
