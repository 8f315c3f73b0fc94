-- ===== src/Schema/Preserved.antt =====
-- What diskSlotDrift writes over a volume that is there.
use proxops.Base.{
  ℕ, Bool, true, false, List, [], ◌∷◌, ◌++◌, Text, text_eq, not, ◌||◌, ◌≡◌, ◌⊎◌, inl, inr, refl,
  All, IsIn, ◌+◌, Any, Any-of_IsIn, All-self, if◌then◌else◌, text_eq_iff,
}
use proxops.Schema.Drive.{
  Numbers, DiskInfo, Disk, is_new_storage_slot, parse_disk_info, drive_volume_string,
  drive_options_drift, live_drive_rewrite, live_volume, live_options, size_changed, Decision, write,
  anomaly, keep, decide_disk, slot_of, SlotDrift, note, drift_from, disk_slot_drift,
}

module _ (num : Numbers) where
  abbrev parse : Text → DiskInfo
  parse = parse_disk_info num

  -- A text that names the live volume, with its size as PVE spells it.
  abbrev pub NamesVolume : DiskInfo → Text → Type 0
  NamesVolume cur s = (t : Text) × (s ≡ live_volume cur ++ t)

  -- A write that loses no data: PVE has nothing at the slot, or the write names the volume that is
  -- there, on the pool that is wanted and with no other size.
  abbrev pub IsHarmless : (live : Text) → Disk → Text → Type 0
  IsHarmless live d s =
      (is_new_storage_slot live ≡ true)
      ⊎ (NamesVolume (parse live) s
          × ((parse live).pool ≡ (parse (drive_volume_string num d)).pool)
          × (size_changed (parse (drive_volume_string num d)).size (parse live).size ≡ false))

  -- A decision writes harmlessly if it writes.
  abbrev Careful : Text → Disk → Decision → Type 0
  Careful live d (write s) = IsHarmless live d s
  Careful live d anomaly = Unit
  Careful live d keep = Unit

  rewrite-NamesVolume : (cur want : DiskInfo) → NamesVolume cur (live_drive_rewrite cur want)
  unfolding live_drive_rewrite
  rewrite-NamesVolume cur want = (live_options cur want, refl)

  decide_disk-Careful : (live : Text) (d : Disk) → Careful live d (decide_disk num live d)
  unfolding decide_disk
  decide_disk-Careful live d =
      by_tests (is_new_storage_slot live)
        (text_eq (parse live).pool (parse (drive_volume_string num d)).pool)
        (size_changed (parse (drive_volume_string num d)).size (parse live).size)
        (drive_options_drift (parse live) (parse (drive_volume_string num d))) refl refl refl
    where
      by_tests :
          (n p c o : Bool)
          → is_new_storage_slot live ≡ n
          → text_eq (parse live).pool (parse (drive_volume_string num d)).pool ≡ p
          → size_changed (parse (drive_volume_string num d)).size (parse live).size ≡ c
          → Careful live d (
              if n
              then write (drive_volume_string num d)
              else if not p || c
              then anomaly
              else if o
              then write (live_drive_rewrite (parse live) (parse (drive_volume_string num d)))
              else keep)
      by_tests true p c o en ep ec = inl en
      by_tests false false c o en ep ec = tt
      by_tests false true true o en ep ec = tt
      by_tests false true false false en ep ec = tt
      by_tests false true false true en ep ec = inr (
        rewrite-NamesVolume (parse live) (parse (drive_volume_string num d)),
        (text_eq_iff (parse live).pool (parse (drive_volume_string num d)).pool).0 ep,
        ec,
      )

  module _ (live : Text → Text) (all : List Disk) where
    -- Each update is a harmless write for one of the disks.
    abbrev pub AllHarmless : SlotDrift → Type 0
    AllHarmless out = All (λ u. Any (λ d. IsHarmless (live u.0) d u.1) all) out.updates

    note-AllHarmless :
        (slot : Text) (d : Disk) (k : Decision) (out : SlotDrift)
        → IsIn d all
        → Careful (live slot) d k
        → AllHarmless out
        → AllHarmless (note slot k out)
    note-AllHarmless slot d (write s) out m c h =
        (Any-of_IsIn (λ x. IsHarmless (live slot) x s) all m c, h)
    note-AllHarmless slot d anomaly out m c h = h
    note-AllHarmless slot d keep out m c h = h

    drift_from-AllHarmless :
        (i : ℕ) (ds : List Disk) (out : SlotDrift)
        → All (λ d. IsIn d all) ds
        → AllHarmless out
        → AllHarmless (drift_from num live i ds out)
    unfolding drift_from
    drift_from-AllHarmless i [] out m h = h
    drift_from-AllHarmless i (d ∷ ds) out m h =
        drift_from-AllHarmless (i + 1) ds
          (note (slot_of i d) (decide_disk num (live (slot_of i d)) d) out) m.1
          (note-AllHarmless (slot_of i d) d (decide_disk num (live (slot_of i d)) d) out m.0
            (decide_disk-Careful (live (slot_of i d)) d) h)

-- Whatever PVE reports of the slots, each disk update is for a slot where PVE reports no storage, or
-- it names the volume that PVE reports there with the size as PVE spells it, and then the wanted pool
-- is the reported one and no wanted size differs from a reported one: no live volume is re-created.
pub disk_slot_drift-AllHarmless :
    (num : Numbers) (live : Text → Text) (ds : List Disk)
    → AllHarmless num live ds (disk_slot_drift num live ds)
unfolding disk_slot_drift
disk_slot_drift-AllHarmless num live ds =
    drift_from-AllHarmless num live ds 0 ds (record { updates = []; stop = false; anomalies = [] })
      (All-self ds) tt
