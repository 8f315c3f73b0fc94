-- ===== src/Schema/Tests.antt =====
-- A clone of a template that carries a cloud-init drive, and the theorems on it.
use proxops.Schema.Kind.{kind_vm, kind_iso, kind_template_vm}
use proxops.Base.{to_lower, IsOrdered, All, IsIn, ◌≢◌, ◌⊎◌, none, some}
use proxops.Schema.References.{Manifest, VmRefs, template_vm, iso}
use proxops.Schema.Artifact.{ArtifactSpec, validate, nodes_of, bad_extension}
use proxops.Schema.Volumes.{given_nodes, nodes_of-IsDistinct, volid_unique}
use proxops.Schema.Depends.{depends_on, depends_on_error, depends_on_error-agrees, error_of}
use proxops.Base.Sort.{insertion_sort}
use proxops.Base.{
  to_upper, is_space, text_eq, has_prefix, trim_space, text_lt, digits_of, [], ◌∷◌, ◌≡◌, some, IsIn,
  All, codes, refl, ◌↔◌, false, true, ◌⊎◌, ◌++◌, ◌^◌, arith, split_on,
}
use proxops.Schema.Value.{Params, Config, str, string_or_empty, get}
use proxops.Base.Int.{pos}
use proxops.Base.Result.{ok, err}
use proxops.Schema.Quantity.{
  memory_mib, format_disk_bytes, parse_bytes, number_from, unit_bytes, wrap_int64,
}
use proxops.Schema.Amounts.{parse_bytes-wraps}
use proxops.Schema.Human.{human_from_bytes, human_text, human_from_bytes-parse_bytes}
use proxops.Schema.CloneConfig.{
  is_digit, is_held_back, is_disk_slot, has_live_drive, is_new_storage_slot, Networks,
  clone_config_write, clone_delete_keys, has_key, clone_inherited_keys, ipconfig_keys,
  ipconfig_slot_count,
}
use proxops.Schema.Cloned.{IsSent, clone_config_write-IsSent, clone_delete_keys-disjoint}

abbrev declared : Params
declared =
    (codes "name", str (codes "web"))
    ∷ (codes "vmid", str (codes "101"))
    ∷ (codes "scsi0", str (codes "local-lvm:8"))
    ∷ (codes "ide2", str (codes "local-lvm:cloudinit"))
    ∷ (codes "ciuser", str (codes "ops"))
    ∷ []

abbrev live : Config
live = some ((codes "ide2", str (codes "local-lvm:vm-101-cloudinit,media=cdrom")) ∷ [])

abbrev two_nets : Networks
two_nets = record { nics = 1; ip_config_nics = 1 ∷ [] }

write_test :
    clone_config_write declared live
    ≡ (codes "name", str (codes "web")) ∷ (codes "ciuser", str (codes "ops")) ∷ []
unfolding clone_config_write is_held_back text_eq is_disk_slot has_prefix has_live_drive
    is_new_storage_slot trim_space string_or_empty get
write_test = refl

delete_test :
    clone_delete_keys two_nets declared
    ≡ codes "cicustom"
      ∷ codes "cipassword"
      ∷ codes "ipconfig0"
      ∷ codes "ipconfig1"
      ∷ codes "nameserver"
      ∷ codes "searchdomain"
      ∷ codes "sshkeys"
      ∷ []
unfolding clone_delete_keys insertion_sort has_key text_eq ipconfig_keys ipconfig_slot_count text_lt
    digits_of
delete_test = refl

clone_config_write-IsSent_example :
    IsIn (codes "name", str (codes "web")) (clone_config_write declared live)
    ↔ (IsIn (codes "name", str (codes "web")) declared × IsSent live (codes "name"))
clone_config_write-IsSent_example =
    clone_config_write-IsSent declared live (codes "name", str (codes "web"))

clone_delete_keys-disjoint_example :
    All
      (λ k. has_key k (clone_config_write declared live) ≡ false)
      (clone_delete_keys two_nets declared)
    × All
        (λ k. (has_key k declared ≡ true) ⊎ IsIn k (clone_delete_keys two_nets declared))
        (clone_inherited_keys ++ ipconfig_keys 0 (ipconfig_slot_count two_nets))
clone_delete_keys-disjoint_example = clone_delete_keys-disjoint two_nets declared live

-- The readings of quantities.
memory_test : memory_mib (codes " 8GiB") ≡ ok (pos 8192)
unfolding memory_mib text_eq trim_space to_upper is_digit is_space
memory_test = refl

format_test : format_disk_bytes 536870912 ≡ codes "512M"
unfolding format_disk_bytes digits_of
format_test = refl

parse_bytes-wraps_example : parse_bytes (codes "16384PiB") ≡ ok (pos 0)
parse_bytes-wraps_example =
    unfold trim_space is_digit number_from unit_bytes to_upper text_eq wrap_int64 in
    parse_bytes-wraps (codes "16384PiB") b'1' (codes "6384") b'P' (codes "iB") (1024 ^ 5) refl
      (refl, (refl, (refl, (refl, (refl, tt))))) refl (omega arith) refl

human_from_bytes-parse_bytes_example :
    (human_from_bytes (pos 536870912) ≡ some (human_text 536870912))
    × (parse_bytes (human_text 536870912) ≡ ok (pos 536870912))
human_from_bytes-parse_bytes_example =
    human_from_bytes-parse_bytes 536870912 (omega arith) (omega arith)

-- A number that no unit divides is printed as it is.
human_test : human_from_bytes (pos 1025) ≡ some (codes "1025")
unfolding human_from_bytes digits_of
human_test = refl

human_unit_test : human_from_bytes (pos 536870912) ≡ some (codes "512MiB")
unfolding human_from_bytes digits_of
human_unit_test = refl

depends_on_error-agrees_example :
    depends_on_error (some (codes "ISO:ubuntu, base"))
    ≡ error_of (depends_on (some (codes "ISO:ubuntu, base")))
depends_on_error-agrees_example = depends_on_error-agrees (some (codes "ISO:ubuntu, base"))

depends_test : depends_on (some (codes "ISO:ubuntu, base")) ≡ err (codes "base")
unfolding depends_on text_eq trim_space split_on
depends_test = refl

nodes_of-IsDistinct_example :
    let nodes = nodes_of [] (codes "n1" ∷ codes "n1" ∷ []) in
    IsOrdered (λ x y. x ≢ y) nodes
    × All (λ x. (x ≢ []) × IsIn x (given_nodes [] (codes "n1" ∷ codes "n1" ∷ []))) nodes
    × All (λ x. (x ≡ []) ⊎ IsIn x nodes) (given_nodes [] (codes "n1" ∷ codes "n1" ∷ []))
nodes_of-IsDistinct_example = nodes_of-IsDistinct [] (codes "n1" ∷ codes "n1" ∷ [])

abbrev debian : ArtifactSpec
debian = record {
  node = codes "n1";
  nodes = [];
  storage = codes "local";
  filename = codes "debian.iso";
  url = codes "https://d/debian.iso";
  checksum = record { algorithm = codes "SHA256"; value = codes "ab" };
}

debian_test : validate (codes "iso") debian ≡ none
unfolding validate text_eq to_lower
debian_test = refl

volid_unique_example : (codes "local" ≡ codes "local") × (codes "debian.iso" ≡ codes "debian.iso")
volid_unique_example = volid_unique (codes "iso") debian debian debian_test debian_test refl

extension_test : validate (codes "vztmpl") debian ≡ some (bad_extension (codes "debian.iso"))
unfolding validate text_eq to_lower
extension_test = refl

abbrev base_template : Manifest
base_template = template_vm 900 (record {
  ref = record { kind = kind_template_vm; name = codes "base" };
  node = codes "n1";
  clone = [];
  cdrom_iso = codes "debian";
  disks = [];
  clone_source_id = 0;
  cdrom_volid = [];
})

abbrev web_refs : VmRefs
web_refs = record {
  ref = record { kind = kind_vm; name = codes "web" };
  node = codes "n1";
  clone = codes " base";
  cdrom_iso = [];
  disks = [];
  clone_source_id = 0;
  cdrom_volid = [];
}

abbrev debian_iso : Manifest
debian_iso = iso (record { kind = kind_iso; name = codes "debian" }) debian

abbrev resolved_base : Manifest
resolved_base = template_vm 900 (record {
  ref = record { kind = kind_template_vm; name = codes "base" };
  node = codes "n1";
  clone = [];
  cdrom_iso = codes "debian";
  disks = [];
  clone_source_id = 0;
  cdrom_volid = codes "local:iso/debian.iso";
})
