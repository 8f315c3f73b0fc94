-- ===== src/Plan/Targets.antt =====
-- Which manifest each action of a plan is for, and that the actions for its prerequisites stand in
-- front.
use proxops.Base.{
  ◌<◌, List, [], ◌∷◌, ◌≡◌, ◌⊎◌, inl, inr, arith, All, All-imp, All-append, Text, IsIn, IsOrdered,
  All-self, All-IsIn, IsOrdered-imp, IsOrdered-both, subst, ◌∙◌, All-IsOrdered, ap, sym,
}
use proxops.Base.Result.{ok}
use proxops.Schema.Value.{Params, Config}
use proxops.Schema.Resource.{Resource, Clone}
use proxops.Plan.Types.{Action, Plan, PlanOptions, LiveInventory}
use proxops.Plan.Desired.{
  artifact_at, artifact_nodes, plan_artifact, clone_create, plan_create, plan_absent, plan_present,
  plan_resource, plan_desired,
}
use proxops.Plan.Emission.{Emits, Emits-imp, plan_desired-Emits}
use proxops.Plan.Actions.{plan_actions}
use proxops.Plan.Safety.{plan_actions-All}
use proxops.Plan.Ordering.{Precedes, level_of, plan_actions-IsOrdered}

level_of-zero : (a : Action) → a.tier ≡ 0 → level_of a ≡ a.level
level_of-zero a h = ground arith

module _ (opts : PlanOptions) (live : LiveInventory) where
  -- An action of pass A for a manifest.
  record IsFor (r : Resource) (a : Action) : Type 0 where
    pub tier : a.tier ≡ 0
    pub level : a.level ≡ opts.levels r.ref
    pub ref : a.ref ≡ r.ref

  artifact_at-IsFor :
      (r : Resource) (params : Params) (node : Text)
      → All (IsFor r) (artifact_at opts live r params node).actions
  unfolding artifact_at
  artifact_at-IsFor r params node = ground arith

  artifact_nodes-IsFor :
      (r : Resource) (params : Params) (nodes : List Text)
      → All (IsFor r) (artifact_nodes opts live r params nodes).actions
  unfolding artifact_nodes
  artifact_nodes-IsFor r params [] = tt
  artifact_nodes-IsFor r params (n ∷ ns) =
      All-append (IsFor r) (artifact_at opts live r params n).actions
        (artifact_nodes opts live r params ns).actions (artifact_at-IsFor r params n)
        (artifact_nodes-IsFor r params ns)

  plan_artifact-IsFor : (r : Resource) → All (IsFor r) (plan_artifact opts live r).actions
  unfolding plan_artifact
  plan_artifact-IsFor r = grind (arith, artifact_nodes-IsFor)

  clone_create-IsFor :
      (r : Resource) (params : Params) (v : Clone)
      → Emits (IsFor r) (clone_create opts live r params v)
  unfolding clone_create
  clone_create-IsFor r params v = ground arith

  plan_create-IsFor : (r : Resource) → Emits (IsFor r) (plan_create opts live r)
  unfolding plan_create
  plan_create-IsFor r = grind (arith, clone_create-IsFor)

  plan_absent-IsFor : (r : Resource) → Emits (IsFor r) (plan_absent opts live r)
  unfolding plan_absent
  plan_absent-IsFor r = ground (arith, plan_create-IsFor r)

  plan_present-IsFor :
      (r : Resource) (key : Text) (cfg : Config)
      → All (IsFor r) (plan_present opts live r key cfg).actions
  unfolding plan_present
  plan_present-IsFor r key cfg = ground arith

  plan_resource-IsFor : (r : Resource) → Emits (IsFor r) (plan_resource opts live r)
  unfolding plan_resource
  plan_resource-IsFor r =
      grind (arith, plan_artifact-IsFor r, plan_absent-IsFor r, plan_present-IsFor r)

  -- An action is a prune's, or for one of the manifests.
  abbrev IsPlaced : List Resource → Action → Type 0
  IsPlaced desired a = (0 < a.tier) ⊎ ((r : Resource) × IsIn r desired × IsFor r a)

  plan_desired-IsPlaced :
      (desired : List Resource) → Emits (IsPlaced desired) (plan_desired opts live desired)
  plan_desired-IsPlaced desired = plan_desired-Emits opts live (IsPlaced desired) desired (
      All-imp (λ r. IsIn r desired) (λ r. Emits (IsPlaced desired) (plan_resource opts live r))
        (λ r m.
          Emits-imp (IsFor r) (IsPlaced desired) (λ a h. inr (r, m, h)) (plan_resource opts live r)
            (plan_resource-IsFor r))
        desired (All-self desired))

not_before :
    (opts : PlanOptions) (live : LiveInventory) (desired : List Resource)
    → All (λ r. All (λ d. opts.levels d < opts.levels r.ref) (opts.edges r.ref)) desired
    → (a b : Action) → Precedes a b
    → IsPlaced opts live desired a
    → IsPlaced opts live desired b
    → ¬ ((a.tier ≡ 0) × (b.tier ≡ 0) × IsIn b.ref (opts.edges a.ref))
not_before opts live desired below a b q (inl t) k (ta, tb, m) = omega arith
not_before opts live desired below a b q (inr i) (inl t) (ta, tb, m) = omega arith
not_before opts live desired below a b q (inr (r, i, f)) (inr (s, j, g)) (ta, tb, m) =
    let here =
      All-IsIn (λ x. All (λ d. opts.levels d < opts.levels x.ref) (opts.edges x.ref)) desired below
        i in
    let lower =
      All-IsIn (λ d. opts.levels d < opts.levels r.ref) (opts.edges r.ref) here
        (subst (λ x. IsIn b.ref (opts.edges x)) f.ref m) in
    let la : level_of a ≡ opts.levels r.ref = level_of-zero a ta ∙ f.level in
    let lb : level_of b ≡ opts.levels b.ref =
      level_of-zero b tb ∙ g.level ∙ ap opts.levels (sym g.ref) in
    ground arith

-- Where the levels of a manifest's edges are below its own, no action of pass A stands before an
-- action for something that its manifest has an edge to: the work on prerequisites is in front.
pub plan_actions-IsAfterDeps :
    (opts : PlanOptions) (live : LiveInventory) (desired : List Resource) (p : Plan)
    → plan_actions opts live desired ≡ ok p
    → All (λ r. All (λ d. opts.levels d < opts.levels r.ref) (opts.edges r.ref)) desired
    → IsOrdered (λ a b. ¬ ((a.tier ≡ 0) × (b.tier ≡ 0) × IsIn b.ref (opts.edges a.ref))) p.actions
plan_actions-IsAfterDeps opts live desired p h below =
    let placed =
      (plan_actions-All opts live desired (IsPlaced opts live desired)
        (plan_desired-IsPlaced opts live desired)
        (λ a c. let t : a.tier ≡ 9 = c.orphan.tier in inl (omega arith)) p h).0 in
    IsOrdered-imp
      (λ a b. Precedes a b × (IsPlaced opts live desired a × IsPlaced opts live desired b))
      (λ a b. ¬ ((a.tier ≡ 0) × (b.tier ≡ 0) × IsIn b.ref (opts.edges a.ref)))
      (λ a b q. not_before opts live desired below a b q.0 q.1.0 q.1.1) p.actions
      (IsOrdered-both Precedes (λ a b. IsPlaced opts live desired a × IsPlaced opts live desired b)
        p.actions (plan_actions-IsOrdered opts live desired p h)
        (All-IsOrdered (IsPlaced opts live desired) p.actions placed))
