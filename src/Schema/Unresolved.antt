-- ===== src/Schema/Unresolved.antt =====
-- What ResolveArtifactRefs leaves of a manifest as it was (Schema/References).
use proxops.Base.{List, [], ◌∷◌, map, ◌≡◌, sym, ap, ◌∙◌}
use proxops.Base.Result.{ok}
use proxops.Schema.References.{
  DiskEntry, VmRefs, LxcRefs, Manifest, vm, template_vm, lxc, template_ct, iso, ct_template,
  disk_image, and_set, resolve_cdrom, resolve_disk, resolve_disks, resolve_clone, resolve_template,
  resolve_devices, resolve_vm, resolve_manifest, resolve_each,
}
use proxops.Schema.Named.{and_set-ok, and_then-ok}

abbrev pub forget_disk : DiskEntry → DiskEntry
forget_disk d = record d { image_volid = [] }

abbrev pub forget_devices : VmRefs → VmRefs
forget_devices v = record v { disks = map forget_disk v.disks; cdrom_volid = [] }

abbrev pub forget_vm : VmRefs → VmRefs
forget_vm v = record v { disks = map forget_disk v.disks; cdrom_volid = []; clone_source_id = 0 }

abbrev pub forget_template : LxcRefs → LxcRefs
forget_template l = record l { ostemplate_volid = [] }

-- A manifest without the fields that are resolved.
abbrev pub forget : Manifest → Manifest
forget (vm v) = vm (forget_vm v)
forget (template_vm id v) = template_vm id (forget_devices v)
forget (lxc l) = lxc (forget_template l)
forget (template_ct l) = template_ct (forget_template l)
forget (iso r s) = iso r s
forget (ct_template r s) = ct_template r s
forget (disk_image r s) = disk_image r s

module _ (ms : List Manifest) where
  resolve_disk-forget :
      (v : VmRefs) (d e : DiskEntry) → resolve_disk ms v d ≡ ok e → forget_disk e ≡ forget_disk d
  unfolding resolve_disk
  resolve_disk-forget v d e h =
      let (x, a, b) = and_set-ok _ (λ x. record d { image_volid = x }) e h in ap forget_disk (sym b)

  resolve_disks-forget :
      (v : VmRefs) (ds es : List DiskEntry)
      → resolve_disks ms v ds ≡ ok es
      → map forget_disk es ≡ map forget_disk ds
  unfolding resolve_disks
  resolve_disks-forget v [] es h = let e : [] ≡ es = cc in ap (map forget_disk) (sym e)
  resolve_disks-forget v (d ∷ ds) es h =
      let (e, a, rest) =
        and_then-ok (resolve_disk ms v d) (λ e. and_set (resolve_disks ms v ds) (λ es. e ∷ es)) es
          h in
      let (fs, b, c) = and_set-ok (resolve_disks ms v ds) (λ es. e ∷ es) es rest in
      let first = resolve_disk-forget v d e a in
      let others = resolve_disks-forget v ds fs b in
      ap (map forget_disk) (sym c) ∙ (λ i. first i ∷ others i)

  resolve_devices-forget :
      (v u : VmRefs)
      → resolve_devices ms v ≡ ok u
      → (forget_devices u ≡ forget_devices v) × (forget_vm u ≡ forget_vm v)
  resolve_devices-forget v u h =
      let (x, a, rest) =
        and_then-ok (resolve_cdrom ms v)
          (λ x.
            and_set (resolve_disks ms v v.disks) (λ ds. record v { cdrom_volid = x; disks = ds }))
          u h in
      let (ds, b, c) =
        and_set-ok (resolve_disks ms v v.disks) (λ ds. record v { cdrom_volid = x; disks = ds }) u
          rest in
      let same = resolve_disks-forget v v.disks ds b in
      (
        ap forget_devices (sym c) ∙ (λ i. record v { disks = same i; cdrom_volid = [] }),
        ap forget_vm (sym c)
            ∙ (λ i. record v { disks = same i; cdrom_volid = []; clone_source_id = 0 }),
      )

  resolve_vm-forget : (v w : VmRefs) → resolve_vm ms v ≡ ok w → forget_vm w ≡ forget_vm v
  resolve_vm-forget v w h =
      let (u, a, rest) =
        and_then-ok (resolve_devices ms v)
          (λ u. and_set (resolve_clone ms v) (λ id. record u { clone_source_id = id })) w h in
      let (id, b, c) =
        and_set-ok (resolve_clone ms v) (λ id. record u { clone_source_id = id }) w rest in
      ap forget_vm (sym c) ∙ (resolve_devices-forget v u a).1

  resolve_template-forget :
      (l m : LxcRefs) → resolve_template ms l ≡ ok m → forget_template m ≡ forget_template l
  unfolding resolve_template
  resolve_template-forget l m h =
      let (x, a, b) = and_set-ok _ (λ x. record l { ostemplate_volid = x }) m h in
      ap forget_template (sym b)

  resolve_manifest-forget : (x y : Manifest) → resolve_manifest ms x ≡ ok y → forget y ≡ forget x
  unfolding resolve_manifest
  resolve_manifest-forget (vm v) y h =
      let (w, a, b) = and_set-ok (resolve_vm ms v) vm y h in
      ap forget (sym b) ∙ ap vm (resolve_vm-forget v w a)
  resolve_manifest-forget (template_vm id v) y h =
      let (w, a, b) = and_set-ok (resolve_devices ms v) (template_vm id) y h in
      ap forget (sym b) ∙ ap (template_vm id) (resolve_devices-forget v w a).0
  resolve_manifest-forget (lxc l) y h =
      let (m, a, b) = and_set-ok (resolve_template ms l) lxc y h in
      ap forget (sym b) ∙ ap lxc (resolve_template-forget l m a)
  resolve_manifest-forget (template_ct l) y h =
      let (m, a, b) = and_set-ok (resolve_template ms l) template_ct y h in
      ap forget (sym b) ∙ ap template_ct (resolve_template-forget l m a)
  resolve_manifest-forget (iso r s) y h = let e : iso r s ≡ y = cc in ap forget (sym e)
  resolve_manifest-forget (ct_template r s) y h =
      let e : ct_template r s ≡ y = cc in ap forget (sym e)
  resolve_manifest-forget (disk_image r s) y h =
      let e : disk_image r s ≡ y = cc in ap forget (sym e)

  pub resolve_each-forget :
      (xs ys : List Manifest) → resolve_each ms xs ≡ ok ys → map forget ys ≡ map forget xs
  unfolding resolve_each
  resolve_each-forget [] ys h = let e : [] ≡ ys = cc in ap (map forget) (sym e)
  resolve_each-forget (x ∷ xs) ys h =
      let (y, a, rest) =
        and_then-ok (resolve_manifest ms x) (λ y. and_set (resolve_each ms xs) (λ ys. y ∷ ys)) ys
          h in
      let (zs, b, c) = and_set-ok (resolve_each ms xs) (λ ys. y ∷ ys) ys rest in
      let first = resolve_manifest-forget x y a in
      let others = resolve_each-forget xs zs b in
      ap (map forget) (sym c) ∙ (λ i. first i ∷ others i)
