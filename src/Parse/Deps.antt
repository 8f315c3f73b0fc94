-- ===== src/Parse/Deps.antt =====
-- EdgesFor and checkDeps of internal/parse/parse.go, after ResolveArtifactRefs.
use proxops.Base.{List, [], ◌∷◌, Option, none, some, Text, if◌then◌else◌, map}
use proxops.Base.Result.{Result, ok, err}
use proxops.Schema.Kind.{Ref, ref_eq}
use proxops.Schema.Resource.{Resource}
use proxops.Schema.Depends.{depends_on, depends_on_error, dep_ref, Dep}
use proxops.Parse.Index.{Index, merge_edges, is_defined}
use proxops.Parse.Cycle.{Found, clear, cycle, out_of_fuel, index_of_cycle}

pub data DepsError : Type 0 where
  bad_annotation : Ref → (part : Text) → DepsError
  undefined_target : (from target : Ref) → DepsError
  dependency_cycle : List Ref → DepsError
  search_unfinished : DepsError

abbrev pub deps_or_nil : Result Text (List Dep) → List Dep
deps_or_nil (ok ds) = ds
deps_or_nil (err e) = []

-- res, ok := idx.byRef[ref]
unfoldable pub find_resource : Ref → List Resource → Option Resource
find_resource r [] = none
find_resource r (x ∷ xs) = if ref_eq x.ref r then some x else find_resource r xs

-- The order of an index.
abbrev pub order_of : Index → List Ref
order_of idx = map (λ r. r.ref) idx.resources

-- `annotation` is the value of the depends-on annotation of a resource, metadataOf(res).Annotations.
module _ (annotation : Ref → Option Text) where
  abbrev pub edges_of : Option Resource → List Ref
  edges_of none = []
  edges_of (some res) =
      merge_edges (merge_edges [] res.deps)
        (map dep_ref (deps_or_nil (depends_on (annotation res.ref))))

  -- Index.EdgesFor
  unfoldable pub edges_for : Index → Ref → List Ref
  unfolding find_resource merge_edges depends_on dep_ref
  edges_for idx r = edges_of (find_resource r idx.resources)

  -- The first target that is not defined.
  unfoldable pub missing_target : List Resource → List Ref → Option Ref
  unfolding is_defined
  missing_target rs [] = none
  missing_target rs (t ∷ ts) =
      let later = missing_target rs ts in if is_defined t rs then later else some t

  abbrev pub first_error : Ref → Option Text → Option Ref → Option DepsError → Option DepsError
  first_error r (some part) missing next = some (bad_annotation r part)
  first_error r none (some t) next = some (undefined_target r t)
  first_error r none none next = next

  -- The loop over the order.
  unfoldable pub check_targets : Index → List Ref → Option DepsError
  unfolding edges_for missing_target depends_on_error
  check_targets idx [] = none
  check_targets idx (r ∷ rs) =
      first_error r (depends_on_error (annotation r))
        (missing_target idx.resources (edges_for idx r)) (check_targets idx rs)

  abbrev pub cycle_error : Found → Option DepsError
  cycle_error (clear s) = none
  cycle_error (cycle c) = some (dependency_cycle c)
  cycle_error out_of_fuel = some search_unfinished

  abbrev pub or_cycle : Option DepsError → Found → Option DepsError
  or_cycle (some e) found = some e
  or_cycle none found = cycle_error found

  -- Index.checkDeps
  unfoldable pub check_deps : Index → Option DepsError
  unfolding check_targets index_of_cycle
  check_deps idx =
      or_cycle (check_targets idx (order_of idx)) (index_of_cycle (edges_for idx) (order_of idx))
