-- ===== src/Parse/Index.antt =====
-- The index of internal/parse/parse.go: what BuildIndex and BuildIndexFromFiles make of the
-- resources that their files decode to, in order, and EdgesFor. Reading and decoding the files,
-- and a resource's Validate, are outside.
use proxops.Base.{
  none, some, ℕ, Bool, List, [], ◌∷◌, Text, if◌then◌else◌, any, Option, ◌==◌, ◌++◌, some, codes,
  digits_of,
}
use proxops.Base.Assoc
use proxops.Base.Result.{Result, ok, err}
use proxops.Schema.Kind.{Ref, ref_eq}
use proxops.Schema.Resource.{Resource}

-- `byRef` and `order` in one: the resources in the order of their files. `seen_id` has the PVE ids
-- taken so far.
pub record Index : Type 0 where
  pub resources : List Resource
  pub seen_id : List (Text × Ref)

pub data IndexError : Type 0 where
  duplicate_resource : Ref → IndexError
  id_claimed : (id : ℕ) (node : Text) (owner claimant : Ref) → IndexError

-- res.Node() + ":" + itoa(id)
unfoldable pub id_key : Text → ℕ → Text
id_key node id = node ++ codes ":" ++ digits_of id

-- byRef[ref]
unfoldable pub is_defined : Ref → List Resource → Bool
is_defined r rs = any (λ x. ref_eq x.ref r) rs

abbrev pub claim_by :
    Resource → List (Text × Ref) → Option Ref → Result IndexError (List (Text × Ref))
claim_by r seen (some owner) = err (id_claimed r.id r.node owner r.ref)
claim_by r seen none = ok ((id_key r.node r.id, r.ref) ∷ seen)

-- The check of the PVE id space: resources without an id claim none.
unfoldable pub claim_id : Resource → List (Text × Ref) → Result IndexError (List (Text × Ref))
unfolding id_key Assoc.lookup
claim_id r seen =
    if r.id == 0 then ok seen else claim_by r seen (Assoc.lookup (id_key r.node r.id) seen)

abbrev pub with_ids :
    Resource → Index → Result IndexError (List (Text × Ref)) → Result IndexError Index
with_ids r idx (err e) = err e
with_ids r idx (ok seen) = ok (record { resources = idx.resources ++ r ∷ []; seen_id = seen })

-- The loop's body for one resource.
unfoldable pub add_resource : Resource → Index → Result IndexError Index
unfolding is_defined claim_id
add_resource r idx =
    if is_defined r.ref idx.resources
    then err (duplicate_resource r.ref)
    else with_ids r idx (claim_id r idx.seen_id)

abbrev pub and_then :
    Result IndexError Index → (Index → Result IndexError Index) → Result IndexError Index
and_then (err e) f = err e
and_then (ok idx) f = f idx

-- The loop over the resources.
unfoldable pub add_all : List Resource → Index → Result IndexError Index
unfolding add_resource
add_all [] idx = ok idx
add_all (r ∷ rs) idx = and_then (add_resource r idx) (λ next. add_all rs next)

-- The index, before checkDeps.
unfoldable pub build_index : List Resource → Result IndexError Index
unfolding add_all
build_index rs = add_all rs (record { resources = []; seen_id = [] })

-- EdgesFor's loops: the edges that were not seen yet.
unfoldable pub merge_edges : List Ref → List Ref → List Ref
merge_edges out [] = out
merge_edges out (d ∷ ds) = merge_edges (if any (λ e. ref_eq e d) out then out else out ++ d ∷ []) ds
