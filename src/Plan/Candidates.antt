-- ===== src/Plan/Candidates.antt =====
-- What the prune pass asks of a candidate for deletion.
use proxops.Base.{
  true, false, List, [], ◌∷◌, ◌≡◌, subst, ◌⊎◌, ◌<◌, refl, sym, inl, inr, arith, All, Any, IsIn,
  any-append, any→Any, Any-imp, Text, text_eq, text_eq_iff, text_eq_refl, Bool-cases, Option, none,
  some, All-append, Any-of_IsIn,
}
use proxops.Base.Assoc
use proxops.Schema.Kind.{Kind, artifact_kind, kind_template_vm, kind_template_ct, kind_vm, kind_lxc}
use proxops.Schema.Value.{Params, Config, has_tag, pve_ownership_tag}
use proxops.Schema.Resource.{Resource}
use proxops.Plan.Types.{Action, delete, PlanOptions, LiveInventory, ClusterResource}
use proxops.Plan.Live.{live_key, node_allowed, normalize_kind}
use proxops.Plan.Prune.{
  desired_keys, desired_set, in_set, in_scope, claimed, Outcome, candidate, skipped, ignored,
  judge_config, judge_read, candidates_of, judge, prune_candidates, delete_action,
}

-- The allowlist accepts the node: it is empty, or names it.
abbrev pub Accepts : List Text → Text → Type 0
Accepts allow node = (allow ≡ []) ⊎ Any (λ n. n ≡ node) allow

-- The listing entry is for the object of an action.
abbrev pub Lists : ClusterResource → Action → Type 0
Lists e a = (e.node ≡ a.node) × (e.vmid ≡ a.id) × (normalize_kind e.type_name ≡ a.kind)

-- The live object that a deletion is for: listed on an accepted node under a positive id, a VM or
-- a container, with a configuration that could be read and carries the ownership tag.
pub record IsOwnedOrphan (opts : PlanOptions) (live : LiveInventory) (a : Action) : Type 0 where
  pub tier : a.tier ≡ 9
  pub pruned : a.prune ≡ true
  pub deletes : a.what ≡ delete
  pub listed : Any (λ e. Lists e a) live.listing
  pub positive : 0 < a.id
  pub managed : (a.kind ≡ kind_vm) ⊎ (a.kind ≡ kind_lxc)
  pub accepted : Accepts opts.node_allowlist a.node
  pub config : Params
  pub readable : Assoc.lookup (live_key a.node a.kind a.id) live.configs ≡ some (some config)
  pub tagged : has_tag (some config) pve_ownership_tag ≡ true

-- The manifests and PVE list an object of these two kinds under one id: the same kind, or a
-- template and its unmarked kind.
abbrev pub SharesId : Kind → Kind → Type 0
SharesId desired live =
    (desired ≡ live)
    ⊎ ((desired ≡ kind_template_vm) × (live ≡ kind_vm))
    ⊎ ((desired ≡ kind_template_ct) × (live ≡ kind_lxc))

-- No manifest of the list claims the object of an action.
abbrev pub IsUnclaimed : List Resource → Action → Type 0
IsUnclaimed desired a = in_set (live_key a.node a.kind a.id) (desired_set desired) ≡ false

node_allowed-Accepts :
    (allow : List Text) (node : Text) → node_allowed allow node ≡ true → Accepts allow node
unfolding node_allowed
node_allowed-Accepts [] node h = inl refl
node_allowed-Accepts (x ∷ xs) node h = inr (
    Any-imp (λ n. text_eq n node ≡ true) (λ n. n ≡ node) (λ n e. (text_eq_iff n node).0 e) (x ∷ xs)
      (any→Any (λ n. text_eq n node) (x ∷ xs) h))

module _ (opts : PlanOptions) (live : LiveInventory) (desired : List Resource) where
  -- The facts that one listing entry's judgement rests on.
  pub record IsCandidate (a : Action) : Type 0 where
    pub orphan : IsOwnedOrphan opts live a
    pub unclaimed : IsUnclaimed desired a
    pub plain : a.clone_source_id ≡ 0

  candidate_config :
      (res : ClusterResource) (m : Params) (a : Action)
      → judge_config opts live desired res (some m) ≡ candidate a
      → (a ≡ delete_action opts live desired res (some m))
        × (has_tag (some m) pve_ownership_tag ≡ true)
        × (claimed opts live desired res (some m) ≡ false)
  unfolding judge_config
  candidate_config res m a h = ground arith

  in_scope_facts :
      (res : ClusterResource)
      → in_scope opts live desired res ≡ true
      → (0 < res.vmid)
        × (node_allowed opts.node_allowlist res.node ≡ true)
        × ((normalize_kind res.type_name ≡ kind_vm) ⊎ (normalize_kind res.type_name ≡ kind_lxc))
  unfolding in_scope
  in_scope_facts res h = ground (
    arith,
    text_eq_iff (normalize_kind res.type_name) kind_vm,
    text_eq_iff (normalize_kind res.type_name) kind_lxc,
  )

  candidate-IsCandidate :
      (res : ClusterResource) (m : Params) (a : Action)
      → IsIn res live.listing
      → in_scope opts live desired res ≡ true
      → Assoc.lookup (live_key res.node (normalize_kind res.type_name) res.vmid) live.configs
        ≡ some (some m)
      → judge_config opts live desired res (some m) ≡ candidate a
      → IsCandidate a
  unfolding claimed
  candidate-IsCandidate res m a here scope found h =
      let (shape, tagged, free) = candidate_config res m a h in
      let (positive, allowed, managed) = in_scope_facts res scope in
      subst IsCandidate (sym shape) (record {
        orphan = record {
          tier = refl;
          pruned = refl;
          deletes = refl;
          listed =
              Any-of_IsIn (λ e. Lists e (delete_action opts live desired res (some m))) live.listing
                here (refl, refl, refl);
          positive = positive;
          managed = managed;
          accepted = node_allowed-Accepts opts.node_allowlist res.node allowed;
          config = m;
          readable = found;
          tagged = tagged;
        };
        unclaimed = ground arith;
        plain = refl;
      })

  judge_read-IsCandidate :
      (res : ClusterResource) (read : Option Config)
      → IsIn res live.listing
      → in_scope opts live desired res ≡ true
      → Assoc.lookup (live_key res.node (normalize_kind res.type_name) res.vmid) live.configs ≡ read
      → All IsCandidate (candidates_of (judge_read opts live desired res read))
  unfolding judge_read
  judge_read-IsCandidate res none here scope found = tt
  judge_read-IsCandidate res (some none) here scope found = tt
  judge_read-IsCandidate res (some (some m)) here scope found =
      of_outcome (judge_config opts live desired res (some m)) refl
    where
      of_outcome :
          (o : Outcome)
          → judge_config opts live desired res (some m) ≡ o
          → All IsCandidate (candidates_of o)
      of_outcome ignored e = tt
      of_outcome (skipped a) e = tt
      of_outcome (candidate a) e = (candidate-IsCandidate res m a here scope found e, tt)

  judge-IsCandidate :
      (res : ClusterResource)
      → IsIn res live.listing
      → All IsCandidate (candidates_of (judge opts live desired res))
  unfolding judge
  judge-IsCandidate res here = elim (Bool-cases (in_scope opts live desired res)) [
    | inl scope ↦ rw scope (judge_read-IsCandidate res _ here scope refl)
    | inr out ↦ rw out tt
  ]

  pub prune_candidates-IsCandidate :
      (listing : List ClusterResource)
      → All (λ res. IsIn res live.listing) listing
      → All IsCandidate (prune_candidates opts live desired listing)
  unfolding prune_candidates
  prune_candidates-IsCandidate [] here = tt
  prune_candidates-IsCandidate (res ∷ listing) here =
      All-append IsCandidate (candidates_of (judge opts live desired res))
        (prune_candidates opts live desired listing) (judge-IsCandidate res here.0)
        (prune_candidates-IsCandidate listing here.1)

-- A manifest's identity is in the set under each key by which PVE may list its object.
in_set-desired_keys :
    (r : Resource) (kind : Kind)
    → artifact_kind r.ref.kind ≡ false
    → SharesId r.ref.kind kind
    → in_set (live_key r.node kind r.id) (desired_keys r) ≡ true
unfolding in_set desired_keys
in_set-desired_keys r kind h (inl e) =
    subst (λ k. in_set (live_key r.node k r.id) (desired_keys r) ≡ true) e
      (ground (arith, text_eq_refl (live_key r.node r.ref.kind r.id)))
in_set-desired_keys r kind h (inr (inl (t, e))) =
    subst (λ k. in_set (live_key r.node k r.id) (desired_keys r) ≡ true) (sym e)
      (ground (
        arith,
        text_eq_refl (live_key r.node kind_vm r.id),
        text_eq_iff r.ref.kind kind_template_vm,
      ))
in_set-desired_keys r kind h (inr (inr (t, e))) =
    subst (λ k. in_set (live_key r.node k r.id) (desired_keys r) ≡ true) (sym e)
      (ground (
        arith,
        text_eq_refl (live_key r.node kind_lxc r.id),
        text_eq_iff r.ref.kind kind_template_vm,
        text_eq_iff r.ref.kind kind_template_ct,
      ))

pub in_set-desired_set :
    (r : Resource) (rs : List Resource) (kind : Kind)
    → IsIn r rs
    → artifact_kind r.ref.kind ≡ false
    → SharesId r.ref.kind kind
    → in_set (live_key r.node kind r.id) (desired_set rs) ≡ true
unfolding in_set desired_set
in_set-desired_set r [] kind m h s = elim m [ ]
in_set-desired_set r (x ∷ rs) kind (inl e) h s = rw any-append (
    ground (
      arith,
      subst (λ y. in_set (live_key r.node kind r.id) (desired_keys y) ≡ true) (sym e)
          (in_set-desired_keys r kind h s),
    ))
in_set-desired_set r (x ∷ rs) kind (inr m) h s =
    rw any-append (ground (arith, in_set-desired_set r rs kind m h s))
