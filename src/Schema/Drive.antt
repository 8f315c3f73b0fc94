-- ===== src/Schema/Drive.antt =====
-- The drives of internal/schema/vm.go: how PVE's report of a drive is read, and what diskSlotDrift
-- writes. Numbers and sizes that strconv and DiskBytes read are parameters.
mod Tests
use proxops.Base.{
  ℕ, Bool, true, false, List, [], ◌∷◌, ◌++◌, Option, none, some, Text, codes, text_eq, to_lower,
  trim_space, split_on, has_prefix, digits_of, any, not, ◌&&◌, ◌||◌, ◌==◌, ◌+◌, if◌then◌else◌,
}

-- pveDiskInfo, with an absent size or switch as `none`.
pub record DiskInfo : Type 0 where
  pub pool : Text
  pub volume_name : Text
  pub size : Option (ℕ × Text)
  pub iothread : Bool
  pub discard : Text
  pub ssd : Option Bool
  pub aio : Text
  pub efitype : Text
  pub pre_enrolled : Option Bool
  pub raw_extra : Text

abbrev pub no_disk : DiskInfo
no_disk = record {
  pool = [];
  volume_name = [];
  size = none;
  iothread = false;
  discard = [];
  ssd = none;
  aio = [];
  efitype = [];
  pre_enrolled = none;
  raw_extra = [];
}

-- Disk
pub record Disk : Type 0 where
  pub storage : Text
  pub size : Text
  pub image : Text
  pub slot : Text
  pub iothread : Bool
  pub discard : Text
  pub ssd : Option Bool
  pub aio : Text
  pub image_volid : Text

-- s[:i], s[i+1:] at the first of a byte, where it is there.
abbrev pub behind : ℕ → Option (Text × Text) → Option (Text × Text)
behind c none = none
behind c (some (a, b)) = some (c ∷ a, b)

unfoldable pub cut : ℕ → Text → Option (Text × Text)
cut sep [] = none
cut sep (c ∷ s) = let later = cut sep s in if c == sep then some ([], s) else behind c later

-- strings.IndexByte(s, sep) > 0
abbrev pub inside : Option (Text × Text) → Option (Text × Text)
inside none = none
inside (some ([], b)) = none
inside (some (c ∷ a, b)) = some (c ∷ a, b)

-- addRawToken
unfoldable pub add_raw_token : Text → Text → Text
add_raw_token cur tok = if text_eq cur [] then tok else cur ++ codes "," ++ tok

abbrev pub is_on : Text → Bool
is_on v = text_eq v (codes "1") || (text_eq v (codes "on") || text_eq v (codes "true"))

-- isNoneSlot
unfoldable pub is_none_slot : Text → Bool
unfolding trim_space text_eq has_prefix
is_none_slot s =
    let t = trim_space s in
    text_eq t (codes "none") || (has_prefix t (codes "none,") || has_prefix t (codes "none;"))

-- isNewStorageSlot
unfoldable pub is_new_storage_slot : Text → Bool
unfolding is_none_slot
is_new_storage_slot raw = let t = trim_space raw in text_eq t [] || is_none_slot t

abbrev pub extra : Text → DiskInfo → DiskInfo
extra tok out = record out { raw_extra = add_raw_token out.raw_extra tok }

abbrev pub set_size : Text → Text → Option ℕ → DiskInfo → DiskInfo
set_size tok v (some b) out = record out { size = some (b, v) }
set_size tok v none out = extra tok out

-- A first token without an equals sign: a size in GiB, or the name of the volume.
abbrev pub read_first : Text → Option ℕ → DiskInfo → DiskInfo
read_first tok (some b) out = record out { size = some (b, tok) }
read_first tok none out = record out { volume_name = tok }

abbrev pub has_equals : Text → Bool
has_equals tok = any (λ c. c == b'=') tok

abbrev pub switch_token : Text → Option Bool → Text
switch_token k none = []
switch_token k (some true) = k ++ codes "1"
switch_token k (some false) = k ++ codes "0"

abbrev pub filled_token : Text → Text → Text
filled_token k v = if text_eq v [] then [] else k ++ v

-- driveOptionTokens
unfoldable pub drive_option_tokens : Disk → Text
drive_option_tokens d =
    filled_token (codes ",discard=") (to_lower d.discard)
    ++ switch_token (codes ",ssd=") d.ssd
    ++ filled_token (codes ",aio=") (to_lower d.aio)

abbrev pub or_default : Text → Text → Text
or_default v z = if text_eq v [] then z else v

abbrev pub ssd_drifts : (want cur : Option Bool) → Bool
ssd_drifts none cur = false
ssd_drifts (some true) (some true) = false
ssd_drifts (some true) (some false) = true
ssd_drifts (some true) none = true
ssd_drifts (some false) (some true) = true
ssd_drifts (some false) (some false) = false
ssd_drifts (some false) none = false

abbrev pub same_switch : Bool → Bool → Bool
same_switch true b = b
same_switch false b = not b

-- strings.EqualFold on ASCII
abbrev pub equal_fold : Text → Text → Bool
equal_fold a b = text_eq (to_lower a) (to_lower b)

-- driveOptionsDrift
unfoldable pub drive_options_drift : (cur want : DiskInfo) → Bool
drive_options_drift cur want =
    not (same_switch cur.iothread want.iothread)
    || ((not (text_eq want.discard [])
          && not (equal_fold (or_default cur.discard (codes "ignore")) want.discard))
        || (ssd_drifts want.ssd cur.ssd
            || (not (text_eq want.aio [])
                && (text_eq cur.aio [] || not (equal_fold cur.aio want.aio)))))

abbrev pub size_token : Option (ℕ × Text) → Text
size_token none = []
size_token (some (b, tok)) = codes ",size=" ++ tok

abbrev pub or_current : (want cur : Option Bool) → Option Bool
or_current (some b) cur = some b
or_current none cur = cur

-- liveDriveRewrite: the live volume and its size as PVE spells it, then the options.
abbrev pub live_volume : DiskInfo → Text
live_volume cur = cur.pool ++ codes ":" ++ cur.volume_name ++ size_token cur.size

abbrev pub live_options : (cur want : DiskInfo) → Text
live_options cur want =
    (if want.iothread then codes ",iothread=1" else [])
    ++ filled_token (codes ",discard=") (or_default want.discard cur.discard)
    ++ switch_token (codes ",ssd=") (or_current want.ssd cur.ssd)
    ++ filled_token (codes ",aio=") (or_default want.aio cur.aio)
    ++ filled_token (codes ",") cur.raw_extra

unfoldable pub live_drive_rewrite : (cur want : DiskInfo) → Text
live_drive_rewrite cur want = live_volume cur ++ live_options cur want

-- want.sizeSet && (cur.sizeSet && cur.sizeBytes != want.sizeBytes)
abbrev pub size_changed : (want cur : Option (ℕ × Text)) → Bool
size_changed (some (w, t)) (some (c, u)) = not (c == w)
size_changed (some (w, t)) none = false
size_changed none cur = false

-- What diskSlotDrift decides for one disk: a write, an anomaly or nothing.
pub data Decision : Type 0 where
  write : Text → Decision
  anomaly keep : Decision

-- The slot of the disk at a place.
abbrev pub slot_of : ℕ → Disk → Text
slot_of i d = if text_eq d.slot [] then codes "scsi" ++ digits_of i else d.slot

-- What the loop has: the updates, whether a stop is required, and the slots of the anomalies.
pub record SlotDrift : Type 0 where
  pub updates : List (Text × Text)
  pub stop : Bool
  pub anomalies : List Text

abbrev pub note : Text → Decision → SlotDrift → SlotDrift
note slot (write s) out = record out { updates = (slot, s) ∷ out.updates; stop = true }
note slot anomaly out = record out { anomalies = out.anomalies ++ slot ∷ [] }
note slot keep out = out

-- How strconv and the quantities read: pveDiskSizeBytes, a positive number of GiB that
-- strconv.ParseFloat reads, in bytes, and GiBString of diskBytes.
pub record Numbers : Type 0 where
  pub size_bytes : Text → Option ℕ
  pub float_bytes : Text → Option ℕ
  pub gib : Text → Text

module _ (num : Numbers) where
  -- The switch on the key of an option.
  unfoldable pub read_option : Text → Text → Text → DiskInfo → DiskInfo
  unfolding add_raw_token text_eq to_lower
  read_option tok k v out =
      if text_eq k (codes "size")
      then set_size tok v (num.size_bytes v) out
      else if text_eq k (codes "iothread")
      then record out { iothread = is_on v }
      else if text_eq k (codes "discard")
      then record out { discard = to_lower v }
      else if text_eq k (codes "ssd")
      then record out { ssd = some (is_on v) }
      else if text_eq k (codes "aio")
      then record out { aio = to_lower v }
      else if text_eq k (codes "efitype")
      then record out { efitype = to_lower v }
      else if text_eq k (codes "pre-enrolled-keys")
      then record out { pre_enrolled = some (is_on v) }
      else extra tok out

  abbrev pub read_bare : (is_first : Bool) → Text → DiskInfo → DiskInfo
  read_bare true tok out =
      if not (has_equals tok) then read_first tok (num.float_bytes tok) out else extra tok out
  read_bare false tok out = extra tok out

  abbrev pub read_by : Bool → Text → Option (Text × Text) → DiskInfo → DiskInfo
  read_by is_first tok (some (k, v)) out = read_option tok k v out
  read_by is_first tok none out = read_bare is_first tok out

  -- The loop's body.
  unfoldable pub read_token : (is_first : Bool) → Text → DiskInfo → DiskInfo
  unfolding read_option cut trim_space text_eq
  read_token is_first raw out =
      let tok = trim_space raw in
      if text_eq tok [] then out else read_by is_first tok (inside (cut b'=' tok)) out

  unfoldable pub read_tokens : (is_first : Bool) → List Text → DiskInfo → DiskInfo
  unfolding read_token
  read_tokens is_first [] out = out
  read_tokens is_first (t ∷ ts) out = read_tokens false ts (read_token is_first t out)

  abbrev pub read_drive : Option (Text × Text) → DiskInfo
  read_drive none = no_disk
  read_drive (some (pool, rest)) =
      read_tokens true (split_on b',' rest) (record no_disk { pool = pool })

  -- parseDiskInfo
  unfoldable pub parse_disk_info : Text → DiskInfo
  unfolding read_tokens cut trim_space split_on
  parse_disk_info s = read_drive (inside (cut b':' (trim_space s)))

  -- driveVolumeString
  unfoldable pub drive_volume_string : Disk → Text
  unfolding drive_option_tokens
  drive_volume_string d =
      (if text_eq d.image []
        then d.storage ++ codes ":" ++ num.gib d.size
        else d.storage
          ++ codes ":0,import-from="
          ++ (if text_eq d.image_volid [] then d.image else d.image_volid))
      ++ (if d.iothread then codes ",iothread=1" else [])
      ++ drive_option_tokens d

  unfoldable pub decide_disk : (live : Text) → Disk → Decision
  unfolding is_new_storage_slot parse_disk_info drive_volume_string drive_options_drift
      live_drive_rewrite
  decide_disk live d =
      let cur = parse_disk_info live in
      let want = parse_disk_info (drive_volume_string d) in
      if is_new_storage_slot live
      then write (drive_volume_string d)
      else if not (text_eq cur.pool want.pool) || size_changed want.size cur.size
      then anomaly
      else if drive_options_drift cur want
      then write (live_drive_rewrite cur want)
      else keep

  -- The loop, from the disk at a place on; a later write to a slot is in front.
  unfoldable pub drift_from : (live : Text → Text) → ℕ → List Disk → SlotDrift → SlotDrift
  unfolding decide_disk digits_of
  drift_from live i [] out = out
  drift_from live i (d ∷ ds) out =
      drift_from live (i + 1) ds (note (slot_of i d) (decide_disk (live (slot_of i d)) d) out)

  -- diskSlotDrift, with pveStr(current[slot]) as a function.
  unfoldable pub disk_slot_drift : (live : Text → Text) → List Disk → SlotDrift
  unfolding drift_from
  disk_slot_drift live ds =
      drift_from live 0 ds (record { updates = []; stop = false; anomalies = [] })
