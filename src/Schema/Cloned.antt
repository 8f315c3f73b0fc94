-- ===== src/Schema/Cloned.antt =====
-- What the configuration write after a clone sets and what it deletes (Schema/CloneConfig).
use proxops.Base.{
  All-filter_self, All-self, All-imp, ◌++◌, Any-subset, any→Any, refl, inl, inr, Any-of_IsIn, Text,
  Bool, ◌≡◌, ◌≢◌, IsIn, not, true, codes, ◌↔◌, false, IsIn-filter, Any→any, arith, text_eq,
  text_eq_iff, Bool-cases, Any-of_IsIn, inr, All, ◌⊎◌, ◌++◌, text_lt, filter, All-imp,
  All-filter_self,
}
use proxops.Base.Sort.{Any-insertion_sort, All-insertion_sort}
use proxops.Schema.Value.{Value, Params, Config}
use proxops.Schema.CloneConfig.{
  is_disk_slot, is_held_back, clone_config_set, clone_config_write, delete_key, has_key,
  cloud_init_drive_slot, has_live_drive, clone_delete_keys, Networks, clone_inherited_keys,
  ipconfig_keys, ipconfig_slot_count,
}

-- Whether the write has an entry for a declared key.
abbrev pub IsSent : Config → Text → Type 0
IsSent live k =
    (k ≢ codes "vmid")
    × (k ≢ codes "start")
    × (is_disk_slot k ≡ false)
    × (k ≡ cloud_init_drive_slot → has_live_drive live ≡ false)

held_back-cases :
    (k : Text)
    → (is_held_back k ≡ false)
      ↔ ((k ≢ codes "vmid") × (k ≢ codes "start") × (is_disk_slot k ≡ false))
unfolding is_held_back
held_back-cases k = (
  λ h. (
    λ e. ground (arith, h, text_eq_iff k (codes "vmid"), e),
    λ e. ground (arith, h, text_eq_iff k (codes "start"), e),
    ground (arith, h),
  ),
  λ h. ground (arith, h.0, h.1, h.2, text_eq_iff k (codes "vmid"), text_eq_iff k (codes "start")),
)

not_iff : (b : Bool) → (not b ≡ true) ↔ (b ≡ false)
not_iff true = (λ h. cc, λ h. cc)
not_iff false = (λ h. refl, λ h. refl)

IsIn-config_set :
    (params : Params) (e : Text × Value)
    → IsIn e (clone_config_set params) ↔ (IsIn e params × (is_held_back e.0 ≡ false))
unfolding clone_config_set
IsIn-config_set params e =
    let m = IsIn-filter (λ (d : Text × Value). not (is_held_back d.0)) params e in
    let n = not_iff (is_held_back e.0) in
    (λ i. let (j, h) = m.0 i in (j, n.0 h), λ i. m.1 (i.0, n.1 i.1))

IsIn-delete_key :
    (k : Text) (params : Params) (e : Text × Value)
    → IsIn e (delete_key k params) ↔ (IsIn e params × (e.0 ≢ k))
unfolding delete_key
IsIn-delete_key k params e =
    let m = IsIn-filter (λ (d : Text × Value). not (text_eq d.0 k)) params e in
    (
      λ i. let (j, h) = m.0 i in (j, λ q. ground (arith, h, text_eq_iff e.0 k, q)),
      λ i. m.1 (i.0, ground (arith, i.1, text_eq_iff e.0 k)),
    )

no-key :
    (k : Text) (params : Params) (e : Text × Value)
    → has_key k params ≡ false
    → IsIn e params
    → e.0 ≢ k
unfolding has_key
no-key k params e h m q =
    let there =
      Any→any (λ (d : Text × Value). text_eq d.0 k) params
        (Any-of_IsIn (λ (d : Text × Value). text_eq d.0 k ≡ true) params m
          ((text_eq_iff e.0 k).1 q)) in
    cc

-- Every entry of the configuration write after a clone is a declared one, and its key is neither
-- the id nor the start flag nor a disk slot, nor the slot of the cloud-init drive where the clone
-- has a live volume there; and every declared entry whose key is none of these is in the write.
pub clone_config_write-IsSent :
    (params : Params) (live : Config) (e : Text × Value)
    → IsIn e (clone_config_write params live) ↔ (IsIn e params × IsSent live e.0)
unfolding clone_config_write
clone_config_write-IsSent params live e =
    let set = IsIn-config_set params e in
    let held = held_back-cases e.0 in
    let drop = IsIn-delete_key cloud_init_drive_slot (clone_config_set params) e in
    elim (Bool-cases (has_live_drive live)) [
      | inr l ↦ elim (Bool-cases (has_key cloud_init_drive_slot (clone_config_set params))) [
        | inl k ↦
            rw (k, l)
              (
                λ i.
                    let (j, h) = set.0 i in
                    (j, ((held.0 h).0, (held.0 h).1, (held.0 h).2, λ q. refl)),
                λ m. set.1 (m.0, held.1 (m.1.0, m.1.1, m.1.2)),
              )
        | inr k ↦
            rw (k, l)
              (
                λ i.
                    let (j, h) = set.0 i in
                    (j, ((held.0 h).0, (held.0 h).1, (held.0 h).2, λ q. refl)),
                λ m. set.1 (m.0, held.1 (m.1.0, m.1.1, m.1.2)),
              )
      ]
      | inl l ↦ elim (Bool-cases (has_key cloud_init_drive_slot (clone_config_set params))) [
        | inl k ↦
            rw (k, l)
              (
                λ i.
                    let (c, n) = drop.0 i in
                    let (j, h) = set.0 c in
                    (j, ((held.0 h).0, (held.0 h).1, (held.0 h).2, λ q. elim (n q) [ ])),
                λ m.
                    drop.1
                      (set.1 (m.0, held.1 (m.1.0, m.1.1, m.1.2)), λ q. (let z = m.1.3 q in cc)),
              )
        | inr k ↦
            rw (k, l)
              (
                λ i.
                    let (j, h) = set.0 i in
                    let n = no-key cloud_init_drive_slot (clone_config_set params) e k i in
                    (j, ((held.0 h).0, (held.0 h).1, (held.0 h).2, λ q. elim (n q) [ ])),
                λ m. set.1 (m.0, held.1 (m.1.0, m.1.1, m.1.2)),
              )
      ]
    ]

no_key-of_fresh :
    (params out : Params) (k : Text)
    → ((e : Text × Value) → IsIn e out → IsIn e params)
    → has_key k params ≡ false
    → has_key k out ≡ false
unfolding has_key
no_key-of_fresh params out k within h = elim (Bool-cases (has_key k out)) [
  | inr e ↦ e
  | inl e ↦
      let there =
        Any→any (λ (d : Text × Value). text_eq d.0 k) params
          (Any-subset (λ (d : Text × Value). text_eq d.0 k ≡ true) out params within
            (any→Any (λ (d : Text × Value). text_eq d.0 k) out e)) in
      cc
]

-- No key is both set by the configuration write after a clone and in its list of deletions, and
-- every inherited key that the manifest does not set is in that list.
pub clone_delete_keys-disjoint :
    (v : Networks) (params : Params) (live : Config)
    → All (λ k. has_key k (clone_config_write params live) ≡ false) (clone_delete_keys v params)
      × All
          (λ k. (has_key k params ≡ true) ⊎ IsIn k (clone_delete_keys v params))
          (clone_inherited_keys ++ ipconfig_keys 0 (ipconfig_slot_count v))
unfolding clone_delete_keys
clone_delete_keys-disjoint v params live =
    let keys = clone_inherited_keys ++ ipconfig_keys 0 (ipconfig_slot_count v) in
    let free = λ (k : Text). not (has_key k params) in
    (
      All-insertion_sort text_lt (λ k. has_key k (clone_config_write params live) ≡ false)
          (filter free keys)
          (All-imp (λ k. free k ≡ true) (λ k. has_key k (clone_config_write params live) ≡ false)
            (λ k h.
              no_key-of_fresh params (clone_config_write params live) k
                (λ e m. ((clone_config_write-IsSent params live e).0 m).0)
                ((not_iff (has_key k params)).0 h))
            (filter free keys) (All-filter_self free keys)),
      All-imp (λ k. IsIn k keys)
          (λ k. (has_key k params ≡ true) ⊎ IsIn k (clone_delete_keys v params))
          (λ k m. elim (Bool-cases (has_key k params)) [
            | inl e ↦ inl e
            | inr e ↦ inr (
                Any-insertion_sort text_lt (λ j. j ≡ k) (filter free keys)
                  ((IsIn-filter free keys k).1 (m, (not_iff (has_key k params)).1 e)))
          ])
          keys (All-self keys),
    )
