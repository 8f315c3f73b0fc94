-- ===== src/Plan/Reading.antt =====
-- Where the configurations of a live inventory come from.
use proxops.Base.{
  ℕ, Bool, true, false, List, [], ◌∷◌, ◌++◌, Option, none, some, Text, text_eq, ◌≡◌, ◌⊎◌, inl, inr,
  refl, sym, All, IsIn, Bool-cases, text_eq_iff, ◌∙◌, subst, arith, if◌then◌else◌, digits_of,
  All-self, Any, All-IsIn,
}
use proxops.Base.Assoc
use proxops.Base.Keys.{IsFree, split_unique, digits_of_unique}
use proxops.Base.Result.{Result, ok, err}
use proxops.Schema.Kind.{Kind, kind_vm, kind_lxc, kind_template_vm, kind_template_ct}
use proxops.Schema.Value.{Params, Config, has_tag, pve_ownership_tag, is_pve_template}
use proxops.Schema.Resource.{Resource}
use proxops.Plan.Types.{LiveInventory, ClusterResource}
use proxops.Plan.Live.{
  live_key, artifact_key, normalize_kind, ArtifactFields, artifact_storage_fields,
}
use proxops.Plan.Load.{
  Reads, ReadError, not_found, read_failed, load_object, load_kind, load_entry, load_entries,
  load_file, load_files, load_artifact, load_artifacts, load_live, load_presence, presence,
  set_config, with_status, with_template,
}

module _ (reads : Reads) where
  -- What PVE answered for an object, by the kind of its key.
  abbrev pub Answers : Kind → Text → ℕ → Config → Type 0
  Answers kind node id cfg =
      ((kind ≡ kind_vm) × (reads.vm_config node id ≡ ok cfg))
      ⊎ ((kind ≡ kind_lxc) × (reads.lxc_config node id ≡ ok cfg))
      ⊎ (kind ≡ kind_template_vm)
      ⊎ (kind ≡ kind_template_ct)

  -- The configuration under a key was answered for a listed object, or has no ownership tag.
  abbrev Sourced : List ClusterResource → Text → Config → Type 0
  Sourced listing key cfg =
      (has_tag cfg pve_ownership_tag ≡ false)
      ⊎ ((e : ClusterResource) × (kind : Kind) × IsIn e listing
          × (key ≡ live_key e.node kind e.vmid)
          × Answers kind e.node e.vmid cfg)

  abbrev AllSourced : List ClusterResource → LiveInventory → Type 0
  AllSourced listing inv = (inv.listing ≡ listing) × All (λ b. Sourced listing b.0 b.1) inv.configs

  with_status-AllSourced :
      (listing : List ClusterResource) (key : Text) (st : Option Text) (inv : LiveInventory)
      → AllSourced listing inv
      → AllSourced listing (with_status key st inv)
  with_status-AllSourced listing key none inv h = h
  with_status-AllSourced listing key (some s) inv h = h

  with_template-AllSourced :
      (listing : List ClusterResource) (key : Text) (cfg : Config) (inv : LiveInventory)
      → Sourced listing key cfg
      → AllSourced listing inv
      → AllSourced listing (with_template key cfg inv)
  with_template-AllSourced listing key cfg inv k h = elim (Bool-cases (is_pve_template cfg)) [
    | inl e ↦ rw e (h.0, (k, h.1))
    | inr e ↦ rw e h
  ]

  load_object-AllSourced :
      (listing : List ClusterResource) (key tkey : Text) (r : Result ReadError Config)
      (st : Option Text) (inv : LiveInventory)
      → ((cfg : Config) → r ≡ ok cfg → Sourced listing key cfg × Sourced listing tkey cfg)
      → AllSourced listing inv
      → AllSourced listing (load_object key tkey r st inv)
  load_object-AllSourced listing key tkey (err not_found) st inv f h = h
  load_object-AllSourced listing key tkey (err (read_failed e)) st inv f h = h
  load_object-AllSourced listing key tkey (ok cfg) st inv f h =
      let s = f cfg refl in
      with_template-AllSourced listing tkey cfg (with_status key st (set_config key cfg inv)) s.1
        (with_status-AllSourced listing key st (set_config key cfg inv) (h.0, (s.0, h.1)))

  module _ (allowed : List Text) where
    load_kind-AllSourced :
        (listing : List ClusterResource) (e : ClusterResource) (kind : Kind) (inv : LiveInventory)
        → IsIn e listing
        → AllSourced listing inv
        → AllSourced listing (load_kind reads allowed e kind inv)
    load_kind-AllSourced listing e kind inv m h = elim (Bool-cases (text_eq kind kind_vm)) [
      | inl v ↦ rw v (
          load_object-AllSourced listing (live_key e.node kind e.vmid)
            (live_key e.node kind_template_vm e.vmid) (reads.vm_config e.node e.vmid)
            (reads.vm_status e.node e.vmid) inv
            (λ cfg r. (
              inr (e, kind, m, refl, inl ((text_eq_iff kind kind_vm).0 v, r)),
              inr (e, kind_template_vm, m, refl, inr (inr (inl refl))),
            ))
            h)
      | inr v ↦ elim (Bool-cases (text_eq kind kind_lxc)) [
        | inl l ↦
            rw (v, l)
              (load_object-AllSourced listing (live_key e.node kind e.vmid)
                (live_key e.node kind_template_ct e.vmid) (reads.lxc_config e.node e.vmid)
                (reads.lxc_status e.node e.vmid) inv
                (λ cfg r. (
                  inr (e, kind, m, refl, inr (inl ((text_eq_iff kind kind_lxc).0 l, r))),
                  inr (e, kind_template_ct, m, refl, inr (inr (inr refl))),
                ))
                h)
        | inr l ↦ rw (v, l) h
      ]
    ]

    load_entry-AllSourced :
        (listing : List ClusterResource) (e : ClusterResource) (inv : LiveInventory)
        → IsIn e listing
        → AllSourced listing inv
        → AllSourced listing (load_entry reads allowed e inv)
    unfolding load_entry
    load_entry-AllSourced listing e inv m h =
        ground (arith, h, load_kind-AllSourced listing e (normalize_kind e.type_name) inv m h)

    load_entries-AllSourced :
        (listing rest : List ClusterResource) (inv : LiveInventory)
        → All (λ e. IsIn e listing) rest
        → AllSourced listing inv
        → AllSourced listing (load_entries reads allowed rest inv)
    unfolding load_entries
    load_entries-AllSourced listing [] inv m h = h
    load_entries-AllSourced listing (e ∷ rest) inv m h =
        load_entries-AllSourced listing rest (load_entry reads allowed e inv) m.1
          (load_entry-AllSourced listing e inv m.0 h)

    untagged : (b : Bool) → has_tag (presence reads allowed b) pve_ownership_tag ≡ false
    unfolding has_tag proxops.Schema.Value.get text_eq
    untagged b = refl

    load_presence-AllSourced :
        (listing : List ClusterResource) (key : Text) (r : Result Text Bool) (inv : LiveInventory)
        → AllSourced listing inv
        → AllSourced listing (load_presence reads allowed key r inv)
    load_presence-AllSourced listing key (err e) inv h = h
    load_presence-AllSourced listing key (ok b) inv h = (h.0, (inl (untagged b), h.1))

    load_files-AllSourced :
        (listing : List ClusterResource) (f : ArtifactFields) (kind : Kind) (nodes : List Text)
        (inv : LiveInventory)
        → AllSourced listing inv
        → AllSourced listing (load_files reads allowed f kind nodes inv)
    unfolding load_files load_file
    load_files-AllSourced listing f kind [] inv h = h
    load_files-AllSourced listing f kind (n ∷ ns) inv h =
        load_files-AllSourced listing f kind ns (load_file reads allowed f kind n inv) (
          ground (
            arith,
            h,
            load_presence-AllSourced listing (artifact_key n f.storage f.filename kind)
                (reads.has_content n f.storage f.content f.filename) inv h,
          ))

    load_artifacts-AllSourced :
        (listing : List ClusterResource) (rs : List Resource) (inv : LiveInventory)
        → AllSourced listing inv
        → AllSourced listing (load_artifacts reads allowed rs inv)
    unfolding load_artifacts load_artifact
    load_artifacts-AllSourced listing [] inv h = h
    load_artifacts-AllSourced listing (r ∷ rs) inv h =
        load_artifacts-AllSourced listing rs (load_artifact reads allowed r inv) (
          ground (
            arith,
            h,
            load_files-AllSourced listing (artifact_storage_fields r.concrete) r.ref.kind r.nodes
                inv h,
          ))

    load_live-AllSourced :
        (desired : List Resource) (listing : List ClusterResource) (inv : LiveInventory)
        → reads.cluster_resources ≡ ok listing
        → load_live reads allowed desired ≡ ok inv
        → AllSourced listing inv
    unfolding load_live
    load_live-AllSourced desired listing inv c h =
        let empty : LiveInventory = record { configs = []; power = []; listing = listing } in
        let made : ok
              (load_artifacts reads allowed desired (load_entries reads allowed listing empty))
            ≡ ok inv =
          rw c at h in
        let same : load_artifacts reads allowed desired (load_entries reads allowed listing empty)
            ≡ inv =
          cc in
        subst (AllSourced listing) same (
          load_artifacts-AllSourced listing desired (load_entries reads allowed listing empty)
            (load_entries-AllSourced listing listing empty (All-self listing) (refl, tt)))

pub load_live-listing :
    (reads : Reads) (allowed : List Text) (desired : List Resource) (listing : List ClusterResource)
    (inv : LiveInventory)
    → reads.cluster_resources ≡ ok listing
    → load_live reads allowed desired ≡ ok inv
    → inv.listing ≡ listing
load_live-listing reads allowed desired listing inv c h =
    (load_live-AllSourced reads allowed desired listing inv c h).0

lookup-All :
    {V : Type 0} (P : Text → V → Type 0) (k : Text) (m : List (Text × V)) (v : V)
    → All (λ b. P b.0 b.1) m
    → Assoc.lookup k m ≡ some v
    → P k v
unfolding Assoc.lookup
lookup-All P k [] v h e = cc
lookup-All P k ((j, w) ∷ m) v h e = elim (Bool-cases (text_eq j k)) [
  | inl t ↦
      let first : some w ≡ some v = rw t at e in
      let same : w ≡ v = cc in
      subst (λ x. P k x) same (subst (λ x. P x w) ((text_eq_iff j k).0 t) h.0)
  | inr t ↦ lookup-All P k m v h.1 (rw t at e)
]

-- Keys of objects on nodes without a bar are unique.
live_key_unique :
    (m n : Text) (j k : Kind) (a b : ℕ)
    → IsFree b'|' m
    → IsFree b'|' n
    → IsFree b'|' j
    → IsFree b'|' k
    → live_key m j a ≡ live_key n k b
    → (m ≡ n) × (j ≡ k) × (a ≡ b)
unfolding live_key
live_key_unique m n j k a b fm fn fj fk e =
    let (p, rest) =
      split_unique b'|' m n (j ++ b'|' ∷ digits_of a) (k ++ b'|' ∷ digits_of b) fm fn e in
    let (q, last) = split_unique b'|' j k (digits_of a) (digits_of b) fj fk rest in
    (p, q, digits_of_unique a b last)

abbrev Guests : Kind → Type 0
Guests kind = (kind ≡ kind_vm) ⊎ (kind ≡ kind_lxc)

-- The handle that reads an object's configuration, by the object's kind.
abbrev pub answer_for : Reads → Kind → Text → ℕ → Result ReadError Config
answer_for reads kind node id =
    if text_eq kind kind_vm then reads.vm_config node id else reads.lxc_config node id

guest-IsFree : (kind : Kind) → Guests kind → IsFree b'|' kind
guest-IsFree kind (inl e) = subst (IsFree b'|') (sym e) free_vm
  where
    free_vm : IsFree b'|' kind_vm
    free_vm = ground arith
guest-IsFree kind (inr e) = subst (IsFree b'|') (sym e) free_lxc
  where
    free_lxc : IsFree b'|' kind_lxc
    free_lxc = ground arith

abbrev Templates : Kind → Type 0
Templates kind = (kind ≡ kind_template_vm) ⊎ (kind ≡ kind_template_ct)

template-IsFree : (kind : Kind) → Templates kind → IsFree b'|' kind
template-IsFree kind (inl e) = subst (IsFree b'|') (sym e) free_vm
  where
    free_vm : IsFree b'|' kind_template_vm
    free_vm = ground arith
template-IsFree kind (inr e) = subst (IsFree b'|') (sym e) free_ct
  where
    free_ct : IsFree b'|' kind_template_ct
    free_ct = ground arith

not_template : (kind found : Kind) → Templates found → kind ≡ found → Guests kind → ⊥
not_template kind found (inl t) e (inl g) = let c : kind_vm ≡ kind_template_vm = cc in ground arith
not_template kind found (inr t) e (inl g) = let c : kind_vm ≡ kind_template_ct = cc in ground arith
not_template kind found (inl t) e (inr g) = let c : kind_lxc ≡ kind_template_vm = cc in ground arith
not_template kind found (inr t) e (inr g) = let c : kind_lxc ≡ kind_template_ct = cc in ground arith

listed-IsFree :
    (listing : List ClusterResource) (node : Text)
    → All (λ e. IsFree b'|' e.node) listing
    → Any (λ e. e.node ≡ node) listing
    → IsFree b'|' node
listed-IsFree [] node free m = elim m [ ]
listed-IsFree (e ∷ es) node free (inl q) = subst (IsFree b'|') q free.0
listed-IsFree (e ∷ es) node free (inr m) = listed-IsFree es node free.1 m

-- PVE answered for the object a guest's key names.
same_object :
    (reads : Reads) (kind found : Kind) (node at : Text) (id vmid : ℕ) (cfg : Config)
    → Guests kind
    → IsFree b'|' node
    → IsFree b'|' at
    → live_key node kind id ≡ live_key at found vmid
    → Answers reads found at vmid cfg
    → answer_for reads kind node id ≡ ok cfg
unfolding text_eq
same_object reads kind found node at id vmid cfg g fn fa e (inl (k, r)) =
    let (p, q, i) =
      live_key_unique node at kind found id vmid fn fa (guest-IsFree kind g)
        (guest-IsFree found (inl k)) e in
    let vm : text_eq kind kind_vm ≡ true = (text_eq_iff kind kind_vm).1 (q ∙ k) in rw (vm, p, i) r
same_object reads kind found node at id vmid cfg g fn fa e (inr (inl (k, r))) =
    let (p, q, i) =
      live_key_unique node at kind found id vmid fn fa (guest-IsFree kind g)
        (guest-IsFree found (inr k)) e in
    rw (q ∙ k) (rw (p, i) r)
same_object reads kind found node at id vmid cfg g fn fa e (inr (inr t)) =
    elim (not_template kind found t
      (live_key_unique node at kind found id vmid fn fa (guest-IsFree kind g)
        (template-IsFree found t) e).1
      g) [ ]

-- In an inventory that LoadLive made, a tagged configuration under a guest's key is the one that PVE
-- answered for that guest in the same cycle, where no listed node's name has a bar.
pub load_live-is_read :
    (reads : Reads) (allowed : List Text) (desired : List Resource) (listing : List ClusterResource)
    (inv : LiveInventory) (node : Text) (kind : Kind) (id : ℕ) (cfg : Config)
    → reads.cluster_resources ≡ ok listing
    → load_live reads allowed desired ≡ ok inv
    → All (λ e. IsFree b'|' e.node) listing
    → Any (λ e. e.node ≡ node) listing
    → Guests kind
    → Assoc.lookup (live_key node kind id) inv.configs ≡ some cfg
    → has_tag cfg pve_ownership_tag ≡ true
    → answer_for reads kind node id ≡ ok cfg
load_live-is_read reads allowed desired listing inv node kind id cfg c h free here g found tag =
    by_source (
      lookup-All (Sourced reads listing) (live_key node kind id) inv.configs cfg
        (load_live-AllSourced reads allowed desired listing inv c h).1 found)
  where
    by_source :
        Sourced reads listing (live_key node kind id) cfg → answer_for reads kind node id ≡ ok cfg
    by_source (inl untagged) = cc
    by_source (inr (e, k, m, same, answers)) =
        same_object reads kind k node e.node id e.vmid cfg g (listed-IsFree listing node free here)
          (All-IsIn (λ x. IsFree b'|' x.node) listing free m) same answers
