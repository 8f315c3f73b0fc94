-- ===== src/Plan/Emission.antt =====
-- What pass A emits: work on the manifests' own objects, never a deletion.
use proxops.Base.{
  Bool, true, false, List, [], ◌∷◌, ◌≡◌, ◌⊎◌, arith, All, All-imp, All-of_forall, All-append, Text,
}
use proxops.Base.Result.{Result, ok, err}
use proxops.Schema.Value.{Params, Config}
use proxops.Schema.Resource.{Resource, Clone}
use proxops.Plan.Types.{
  Action, ActionKind, create, mark_template, delete, PlanOptions, LiveInventory, PlanError,
}
use proxops.Plan.Desired.{
  Emitted, artifact_at, artifact_nodes, plan_artifact, clone_create, plan_create, plan_absent,
  plan_present, plan_resource, plan_desired, emit_both,
}

abbrev pub is_delete : ActionKind → Bool
is_delete delete = true
is_delete _ = false

-- A tier-0 action that deletes nothing and is not marked as a prune.
pub record IsUpkeep (a : Action) : Type 0 where
  pub tier : a.tier ≡ 0
  pub unpruned : a.prune ≡ false
  pub kept : is_delete a.what ≡ false

-- A tier-0 action that makes an object or marks it as a template.
pub record IsSetup (a : Action) : Type 0 where
  pub tier : a.tier ≡ 0
  pub unpruned : a.prune ≡ false
  pub makes : (a.what ≡ create) ⊎ (a.what ≡ mark_template)

IsSetup-IsUpkeep : (a : Action) → IsSetup a → IsUpkeep a
IsSetup-IsUpkeep a s = record {
  tier = s.tier;
  unpruned = s.unpruned;
  kept = ground (arith, s.makes);
}

-- What holds of each emitted action.
abbrev pub Emits : (Action → Type 0) → Result PlanError Emitted → Type 0
Emits P (ok e) = All P e.actions
Emits P (err _) = Unit

pub Emits-imp :
    (P Q : Action → Type 0)
    → ((a : Action) → P a → Q a)
    → (m : Result PlanError Emitted) → Emits P m
    → Emits Q m
Emits-imp P Q f (ok e) h = All-imp P Q f e.actions h
Emits-imp P Q f (err e) h = tt

emit_both-Emits :
    (P : Action → Type 0) (m n : Result PlanError Emitted)
    → Emits P m
    → Emits P n
    → Emits P (emit_both m n)
emit_both-Emits P (err e) n hm hn = tt
emit_both-Emits P (ok e) (err f) hm hn = tt
emit_both-Emits P (ok e) (ok f) hm hn = All-append P e.actions f.actions hm hn

module _ (opts : PlanOptions) (live : LiveInventory) where
  -- A property that every manifest's emission has holds of the whole pass.
  pub plan_desired-Emits :
      (P : Action → Type 0) (rs : List Resource)
      → All (λ r. Emits P (plan_resource opts live r)) rs
      → Emits P (plan_desired opts live rs)
  unfolding plan_desired
  plan_desired-Emits P [] h = tt
  plan_desired-Emits P (r ∷ rs) h =
      emit_both-Emits P (plan_resource opts live r) (plan_desired opts live rs) h.0
        (plan_desired-Emits P rs h.1)

  artifact_at-IsSetup :
      (r : Resource) (params : Params) (node : Text)
      → All IsSetup (artifact_at opts live r params node).actions
  unfolding artifact_at
  artifact_at-IsSetup r params node = ground arith

  artifact_nodes-IsSetup :
      (r : Resource) (params : Params) (nodes : List Text)
      → All IsSetup (artifact_nodes opts live r params nodes).actions
  unfolding artifact_nodes
  artifact_nodes-IsSetup r params [] = tt
  artifact_nodes-IsSetup r params (n ∷ ns) =
      All-append IsSetup (artifact_at opts live r params n).actions
        (artifact_nodes opts live r params ns).actions (artifact_at-IsSetup r params n)
        (artifact_nodes-IsSetup r params ns)

  pub plan_artifact-IsSetup : (r : Resource) → All IsSetup (plan_artifact opts live r).actions
  unfolding plan_artifact
  plan_artifact-IsSetup r = grind (arith, artifact_nodes-IsSetup)

  clone_create-IsSetup :
      (r : Resource) (params : Params) (v : Clone)
      → Emits IsSetup (clone_create opts live r params v)
  unfolding clone_create
  clone_create-IsSetup r params v = ground arith

  plan_create-IsSetup : (r : Resource) → Emits IsSetup (plan_create opts live r)
  unfolding plan_create
  plan_create-IsSetup r = grind (arith, clone_create-IsSetup)

  pub plan_absent-IsSetup : (r : Resource) → Emits IsSetup (plan_absent opts live r)
  unfolding plan_absent
  plan_absent-IsSetup r = ground (arith, plan_create-IsSetup r)

  plan_present-IsUpkeep :
      (r : Resource) (key : Text) (cfg : Config)
      → All IsUpkeep (plan_present opts live r key cfg).actions
  unfolding plan_present
  plan_present-IsUpkeep r key cfg = ground arith

  pub plan_resource-IsUpkeep : (r : Resource) → Emits IsUpkeep (plan_resource opts live r)
  unfolding plan_resource
  plan_resource-IsUpkeep r = grind (
    arith,
    All-imp IsSetup IsUpkeep IsSetup-IsUpkeep (plan_artifact opts live r).actions
        (plan_artifact-IsSetup r),
    Emits-imp IsSetup IsUpkeep IsSetup-IsUpkeep (plan_absent opts live r) (plan_absent-IsSetup r),
    plan_present-IsUpkeep,
  )

  -- So does the whole pass.
  pub plan_desired-IsUpkeep : (rs : List Resource) → Emits IsUpkeep (plan_desired opts live rs)
  plan_desired-IsUpkeep rs =
      plan_desired-Emits IsUpkeep rs
        (All-of_forall (λ r. Emits IsUpkeep (plan_resource opts live r)) plan_resource-IsUpkeep rs)
