-- ===== src/Schema/Resource.antt =====
-- The resource contract (schema.Resource of internal/schema/resource.go) as a record of its
-- methods' results, with what internal/plan/plan.go reads behind a type switch on the concrete type.
use proxops.Base.{ℕ, Bool, List, Text, not, trim_space, text_eq, []}
use proxops.Base.Result.{Result}
use proxops.Schema.Value.{Params, Config}
use proxops.Schema.Kind.{Ref}

-- What the planner reads of a *schema.VM: spec.clone, the resolved clone source, spec.vmid and
-- CloneDeleteKeys.
pub record Clone : Type 0 where
  pub clone : Text
  pub clone_source_id : ℕ
  pub vmid : ℕ
  pub clone_delete_keys : Params → List Text

-- VM.IsCloneBacked
unfoldable pub is_clone_backed : Clone → Bool
is_clone_backed v = not (text_eq (trim_space v.clone) [])

-- The concrete types that the planner tells apart, the artifacts with their storage and filename.
pub data Concrete : Type 0 where
  vm : Clone → Concrete
  iso ct_template disk_image : (storage filename : Text) → Concrete
  other : Concrete

-- Drift's three results.
pub record Drift : Type 0 where
  pub update_params : Params
  pub stop_required : Bool
  pub changed : Bool

pub record Resource : Type 0 where
  pub ref : Ref
  pub node : Text
  pub nodes : List Text
  pub id : ℕ
  pub desired_state : Text
  pub to_create_params : Result Text Params
  pub drift : Config → Drift
  pub drift_anomalies : Config → List Text
  pub deps : List Ref
  pub concrete : Concrete
