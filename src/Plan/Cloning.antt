-- ===== src/Plan/Cloning.antt =====
-- Which source a clone-backed create has.
use proxops.Base.{
  List, [], ◌∷◌, ◌≡◌, ◌≢◌, ◌⊎◌, inl, arith, All, All-append, All-imp, All-IsIn, IsIn, Text,
}
use proxops.Base.Result.{ok}
use proxops.Schema.Value.{Params, Config}
use proxops.Schema.Resource.{Resource, Clone, vm}
use proxops.Plan.Types.{Action, Plan, PlanOptions, LiveInventory}
use proxops.Plan.Desired.{
  artifact_at, artifact_nodes, plan_artifact, clone_create, plan_create, plan_absent, plan_present,
  plan_resource,
}
use proxops.Plan.Actions.{plan_actions}
use proxops.Plan.Emission.{Emits, plan_desired-Emits}
use proxops.Plan.Safety.{plan_actions-All}

-- The action clones nothing, or from another id than its own.
abbrev pub IsApart : Action → Type 0
IsApart a = (a.clone_source_id ≡ 0) ⊎ (a.clone_source_id ≢ a.id)

-- The id of a VM's manifest is its spec.vmid, as VM.ID has it.
abbrev pub HasOwnVmid : Resource → Type 0
HasOwnVmid r = (v : Clone) → r.concrete ≡ vm v → v.vmid ≡ r.id

module _ (opts : PlanOptions) (live : LiveInventory) where
  artifact_nodes-IsApart :
      (r : Resource) (params : Params) (nodes : List Text)
      → All IsApart (artifact_nodes opts live r params nodes).actions
  unfolding artifact_nodes
  artifact_nodes-IsApart r params [] = tt
  artifact_nodes-IsApart r params (n ∷ ns) =
      All-append IsApart (artifact_at opts live r params n).actions
        (artifact_nodes opts live r params ns).actions (unfold artifact_at in ground arith)
        (artifact_nodes-IsApart r params ns)

  plan_artifact-IsApart : (r : Resource) → All IsApart (plan_artifact opts live r).actions
  unfolding plan_artifact
  plan_artifact-IsApart r = grind (arith, artifact_nodes-IsApart)

  clone_create-IsApart :
      (r : Resource) (params : Params) (v : Clone)
      → v.vmid ≡ r.id
      → Emits IsApart (clone_create opts live r params v)
  unfolding clone_create
  clone_create-IsApart r params v h = ground arith

  plan_create-IsApart : (r : Resource) → HasOwnVmid r → Emits IsApart (plan_create opts live r)
  unfolding plan_create
  plan_create-IsApart r h = grind (arith, clone_create-IsApart)

  plan_absent-IsApart : (r : Resource) → HasOwnVmid r → Emits IsApart (plan_absent opts live r)
  unfolding plan_absent
  plan_absent-IsApart r h = ground (arith, plan_create-IsApart r h)

  plan_present-IsApart :
      (r : Resource) (key : Text) (cfg : Config)
      → All IsApart (plan_present opts live r key cfg).actions
  unfolding plan_present
  plan_present-IsApart r key cfg = ground arith

  plan_resource-IsApart : (r : Resource) → HasOwnVmid r → Emits IsApart (plan_resource opts live r)
  unfolding plan_resource
  plan_resource-IsApart r h =
      grind (arith, plan_artifact-IsApart, plan_absent-IsApart r h, plan_present-IsApart)

-- Where each VM manifest's id is its vmid, no action of a plan clones an object onto itself.
pub plan_actions-IsApart :
    (opts : PlanOptions) (live : LiveInventory) (desired : List Resource) (p : Plan) (a : Action)
    → All HasOwnVmid desired
    → plan_actions opts live desired ≡ ok p
    → IsIn a p.actions
    → IsApart a
plan_actions-IsApart opts live desired p a own h m =
    All-IsIn IsApart p.actions
      (plan_actions-All opts live desired IsApart
        (plan_desired-Emits opts live IsApart desired (
          All-imp HasOwnVmid (λ r. Emits IsApart (plan_resource opts live r))
            (plan_resource-IsApart opts live) desired own))
        (λ b c. inl c.plain) p h).0
      m
