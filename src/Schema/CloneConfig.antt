-- ===== src/Schema/CloneConfig.antt =====
-- The configuration that a cloned VM gets after the clone (M12): the slot tests, CloneConfigSet,
-- CloneConfigWrite and CloneDeleteKeys of internal/schema/vm.go.
use proxops.Base.{
  zero, suc, ℕ, List, if◌then◌else◌, Text, Bool, ◌∷◌, filter, codes, [], ltb, ◌&&◌, any, text_eq,
  leb, trim_space, not, false, has_prefix, ◌+◌, ◌||◌, suc, drop, ◌++◌, length, digits_of, text_lt,
}
use proxops.Base.Sort.{insertion_sort}
use proxops.Schema.Value.{Params, Config, get, string_or_empty}

unfoldable pub is_digit : ℕ → Bool
is_digit c = leb b'0' c && leb c b'9'

-- What follows a prefix is a number: not empty, and no byte but digits.
unfoldable pub slot_number : Text → Bool
unfolding is_digit
slot_number rest = not (text_eq rest []) && not (any (λ c. not (is_digit c)) rest)

-- The loop over the prefixes: the first that fits decides.
unfoldable pub slot_of : List Text → Text → Bool
unfolding slot_number
slot_of [] k = false
slot_of (p ∷ ps) k =
    let others = slot_of ps k in if has_prefix k p then slot_number (drop (length p) k) else others

-- isDiskSlot
unfoldable pub is_disk_slot : Text → Bool
unfolding slot_of
is_disk_slot = slot_of (codes "scsi" ∷ codes "virtio" ∷ codes "sata" ∷ [])

-- isNICSlot
unfoldable pub is_nic_slot : Text → Bool
unfolding slot_of
is_nic_slot = slot_of (codes "net" ∷ [])

-- isNoneSlot
unfoldable pub is_none_slot : Text → Bool
is_none_slot s =
    let t = trim_space s in
    text_eq t (codes "none") || (has_prefix t (codes "none,") || has_prefix t (codes "none;"))

-- isNewStorageSlot
unfoldable pub is_new_storage_slot : Text → Bool
unfolding is_none_slot
is_new_storage_slot raw = let t = trim_space raw in text_eq t [] || is_none_slot t

-- CloudInitDriveSlot
abbrev pub cloud_init_drive_slot : Text
cloud_init_drive_slot = codes "ide2"

-- CloneInheritedKeys
abbrev pub clone_inherited_keys : List Text
clone_inherited_keys =
    codes "ciuser"
    ∷ codes "sshkeys"
    ∷ codes "cipassword"
    ∷ codes "cicustom"
    ∷ codes "nameserver"
    ∷ codes "searchdomain"
    ∷ []

-- The keys that the loop of CloneConfigSet passes over.
unfoldable pub is_held_back : Text → Bool
is_held_back k = text_eq k (codes "vmid") || (text_eq k (codes "start") || is_disk_slot k)

-- CloneConfigSet
unfoldable pub clone_config_set : Params → Params
clone_config_set = filter (λ e. not (is_held_back e.0))

-- delete(m, k)
unfoldable pub delete_key : Text → Params → Params
delete_key k = filter (λ e. not (text_eq e.0 k))

-- _, ok := m[k]
unfoldable pub has_key : Text → Params → Bool
has_key k m = any (λ e. text_eq e.0 k) m

-- cur, _ := live["ide2"].(string); !isNewStorageSlot(cur)
unfoldable pub has_live_drive : Config → Bool
has_live_drive live = not (is_new_storage_slot (string_or_empty (get cloud_init_drive_slot live)))

-- CloneConfigWrite
unfoldable pub clone_config_write : Params → Config → Params
unfolding clone_config_set delete_key has_key
clone_config_write params live =
    let out = clone_config_set params in
    if has_key cloud_init_drive_slot out && has_live_drive live
    then delete_key cloud_init_drive_slot out
    else out

-- What ipconfigSlotCount reads of a VM: the number of its NICs and the NIC of each ipconfig.
pub record Networks : Type 0 where
  pub nics : ℕ
  pub ip_config_nics : List ℕ

-- The loop of ipconfigSlotCount.
widest : ℕ → List ℕ → ℕ
widest n [] = n
widest n (c ∷ cs) = widest (if ltb n (c + 1) then c + 1 else n) cs

-- VM.ipconfigSlotCount
unfoldable pub ipconfig_slot_count : Networks → ℕ
unfolding widest
ipconfig_slot_count v = widest v.nics v.ip_config_nics

-- "ipconfig" + strconv.Itoa(i), for i from `i` on, `n` of them
unfoldable pub ipconfig_keys : ℕ → ℕ → List Text
ipconfig_keys i zero = []
ipconfig_keys i (suc n) = (codes "ipconfig" ++ digits_of i) ∷ ipconfig_keys (i + 1) n

-- VM.CloneDeleteKeys
unfoldable pub clone_delete_keys : Networks → Params → List Text
clone_delete_keys v params = insertion_sort text_lt (
    filter (λ k. not (has_key k params))
      (clone_inherited_keys ++ ipconfig_keys 0 (ipconfig_slot_count v)))
