-- ===== src/Schema/Resolved.antt =====
-- What ResolveArtifactRefs leaves in the manifests.
use proxops.Base.{ℕ, List, [], Text, codes, trim_space, ◌≡◌, ◌⊎◌, All}
use proxops.Base.Result.{Result}
use proxops.Schema.Kind.{kind_template_vm, kind_iso, kind_ct_template, kind_disk_image}
use proxops.Schema.References.{
  DiskEntry, VmRefs, LxcRefs, Manifest, vm, template_vm, lxc, template_ct, iso, ct_template,
  disk_image,
}
use proxops.Schema.Named.{IsVolume, IsSource}

module _ (ms : List Manifest) where
  -- Without a reference there is nothing, and with one there is what it stands for.
  abbrev pub Stands : Type 0 → Type 0 → Type 0 → Type 0
  Stands Absent Nothing Something = (Absent × Nothing) ⊎ ((¬ Absent) × Something)

  abbrev pub CdromResolved : VmRefs → Text → Type 0
  CdromResolved v x =
      let name = trim_space v.cdrom_iso in
      Stands ((name ≡ []) ⊎ (name ≡ codes "none")) (x ≡ [])
        (IsVolume ms iso (codes "iso") v.node (record { kind = kind_iso; name = name }) x)

  abbrev pub DiskResolved : VmRefs → DiskEntry → Type 0
  DiskResolved v d =
      let name = trim_space d.image in
      Stands (name ≡ []) (d.image_volid ≡ []) (
        IsVolume ms disk_image (codes "import") v.node
          (record { kind = kind_disk_image; name = name }) d.image_volid)

  abbrev pub CloneResolved : VmRefs → ℕ → Type 0
  CloneResolved v id =
      let name = trim_space v.clone in
      Stands (name ≡ []) (id ≡ 0)
        (IsSource ms v.node (record { kind = kind_template_vm; name = name }) id)

  abbrev pub TemplateResolved : LxcRefs → Type 0
  TemplateResolved l = Stands (l.template ≡ []) (l.ostemplate_volid ≡ []) (
      IsVolume ms ct_template (codes "vztmpl") l.node
        (record { kind = kind_ct_template; name = l.template }) l.ostemplate_volid)

  abbrev pub DevicesResolved : VmRefs → Type 0
  DevicesResolved v = CdromResolved v v.cdrom_volid × All (DiskResolved v) v.disks

  abbrev pub IsResolved : Manifest → Type 0
  IsResolved (vm v) = DevicesResolved v × CloneResolved v v.clone_source_id
  IsResolved (template_vm id v) = DevicesResolved v
  IsResolved (lxc l) = TemplateResolved l
  IsResolved (template_ct l) = TemplateResolved l
  IsResolved (iso r s) = Unit
  IsResolved (ct_template r s) = Unit
  IsResolved (disk_image r s) = Unit
