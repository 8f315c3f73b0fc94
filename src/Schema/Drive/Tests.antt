-- ===== src/Schema/Drive/Tests.antt =====
-- A disk with a live volume, of which the thread option differs, and one whose slot is empty.
use proxops.Base.{true, [], ◌∷◌, none, some, ◌≡◌, refl, Text, codes, text_eq, if◌then◌else◌}
use proxops.Schema.Drive.{Numbers, Disk, disk_slot_drift}
use proxops.Schema.Preserved.{AllHarmless, disk_slot_drift-AllHarmless}

-- One size is known.
abbrev numbers : Numbers
numbers = record {
  size_bytes = λ s. if text_eq s (codes "8G") then some 8 else none;
  float_bytes = λ s. if text_eq s (codes "8") then some 8 else none;
  gib = λ s. codes "8";
}

abbrev disk : Disk
disk = record {
  storage = codes "lvm";
  size = codes "8GiB";
  image = [];
  slot = [];
  iothread = true;
  discard = [];
  ssd = none;
  aio = [];
  image_volid = [];
}

abbrev live : Text → Text
live slot = if text_eq slot (codes "scsi0") then codes "lvm:vm-1,size=8G,backup=0" else codes "none"

disk_slot_test : disk_slot_drift numbers live (disk ∷ disk ∷ []) ≡ record {
  updates =
      (codes "scsi1", codes "lvm:8,iothread=1")
      ∷ (codes "scsi0", codes "lvm:vm-1,size=8G,iothread=1,backup=0")
      ∷ [];
  stop = true;
  anomalies = [];
}
unfolding disk_slot_drift text_eq
disk_slot_test = refl

-- A disk on another pool is left alone.
resized_test :
    (disk_slot_drift numbers
      (λ slot. codes "lvm:vm-1,size=9G")
      (record disk { storage = codes "ssd" } ∷ [])).updates
    ≡ []
unfolding disk_slot_drift text_eq
resized_test = refl

disk_slot_drift-AllHarmless_example :
    AllHarmless numbers live (disk ∷ disk ∷ []) (disk_slot_drift numbers live (disk ∷ disk ∷ []))
disk_slot_drift-AllHarmless_example = disk_slot_drift-AllHarmless numbers live (disk ∷ disk ∷ [])
