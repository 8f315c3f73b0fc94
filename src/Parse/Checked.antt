-- ===== src/Parse/Checked.antt =====
-- What checkDeps accepts and what it reports.
use proxops.Base.{
  List, [], ◌∷◌, Option, none, some, Text, true, false, refl, inl, inr, All, IsIn, ◌≡◌, subst, map,
  Bool-cases, All-self, ℕ, sym,
}
use proxops.Schema.Kind.{Ref, ref_eq, ref_eq_iff}
use proxops.Schema.Resource.{Resource}
use proxops.Schema.Depends.{depends_on_error}
use proxops.Parse.Index.{Index, is_defined}
use proxops.Parse.Cycle.{Found, clear, cycle, out_of_fuel, index_of_cycle, Search}
use proxops.Parse.Cycle.Order.{index_of_cycle-IsTopological}
use proxops.Parse.Cycle.Walks.{Walk}
use proxops.Parse.Cycle.Chains.{IsCycle}
use proxops.Parse.Cycle.Fuel.{IsClosed}
use proxops.Parse.Cycle.Answer.{IsAnswer, index_of_cycle-IsAnswer}
use proxops.Parse.Levels.{Memo, levels}
use proxops.Parse.Levels.Memoised.{IsLeveled, levels-IsLeveled}
use proxops.Parse.Deps.{
  DepsError, bad_annotation, undefined_target, dependency_cycle, search_unfinished, order_of,
  edges_for, missing_target, first_error, check_targets, cycle_error, or_cycle, check_deps,
}

defined-IsIn :
    (t : Ref) (rs : List Resource) → is_defined t rs ≡ true → IsIn t (map (λ r. r.ref) rs)
unfolding is_defined
defined-IsIn t [] h = cc
defined-IsIn t (x ∷ rs) h = elim (Bool-cases (ref_eq x.ref t)) [
  | inl e ↦ inl ((ref_eq_iff x.ref t).0 e)
  | inr e ↦ inr (defined-IsIn t rs (rw e at h))
]

module _ (annotation : Ref → Option Text) (idx : Index) where
  abbrev Targets : List Ref → Type 0
  Targets ts = All (λ t. is_defined t idx.resources ≡ true) ts

  -- What each answer of the check says.
  abbrev pub IsReport : Option DepsError → Type 0
  IsReport none =
      IsClosed (edges_for annotation idx) (order_of idx)
      × All (λ r. ¬ Walk (edges_for annotation idx) r r) (order_of idx)
  IsReport (some (bad_annotation r part)) =
      IsIn r (order_of idx) × (depends_on_error (annotation r) ≡ some part)
  IsReport (some (undefined_target r t)) =
      IsIn r (order_of idx)
      × IsIn t (edges_for annotation idx r)
      × (is_defined t idx.resources ≡ false)
  IsReport (some (dependency_cycle c)) = IsCycle (edges_for annotation idx) c
  IsReport (some search_unfinished) = ⊥

  -- What the loop over the targets says.
  abbrev Checks : List Ref → Option DepsError → Type 0
  Checks rs none = All (λ r. All (λ d. IsIn d (order_of idx)) (edges_for annotation idx r)) rs
  Checks rs (some e) = IsReport (some e) × ((c : List Ref) → e ≡ dependency_cycle c → ⊥)

  missing_target-none :
      (ts : List Ref)
      → missing_target annotation idx.resources ts ≡ none
      → All (λ d. IsIn d (order_of idx)) ts
  unfolding missing_target
  missing_target-none [] h = tt
  missing_target-none (t ∷ ts) h = elim (Bool-cases (is_defined t idx.resources)) [
    | inl e ↦ (defined-IsIn t idx.resources e, missing_target-none ts (rw e at h))
    | inr e ↦ let c : some t ≡ none = rw e at h in cc
  ]

  missing_target-some :
      (ts : List Ref) (t : Ref)
      → missing_target annotation idx.resources ts ≡ some t
      → IsIn t ts × (is_defined t idx.resources ≡ false)
  unfolding missing_target
  missing_target-some [] t h = cc
  missing_target-some (x ∷ ts) t h = elim (Bool-cases (is_defined x idx.resources)) [
    | inl e ↦ let (m, d) = missing_target-some ts t (rw e at h) in (inr m, d)
    | inr e ↦
        let c : some x ≡ some t = rw e at h in let same : x ≡ t = cc in (inl same, rw (sym same) e)
  ]

  first_error-Checks :
      (r : Ref) (rs : List Ref) (a : Option Text) (m : Option Ref) (next : Option DepsError)
      → IsIn r (order_of idx)
      → depends_on_error (annotation r) ≡ a
      → missing_target annotation idx.resources (edges_for annotation idx r) ≡ m
      → Checks rs next
      → Checks (r ∷ rs) (first_error annotation r a m next)
  first_error-Checks r rs (some part) m next i e f k = ((i, e), λ c q. cc)
  first_error-Checks r rs none (some t) next i e f k =
      let (n, d) = missing_target-some (edges_for annotation idx r) t f in ((i, n, d), λ c q. cc)
  first_error-Checks r rs none none none i e f k =
      (missing_target-none (edges_for annotation idx r) f, k)
  first_error-Checks r rs none none (some d) i e f k = k

  check_targets-Checks :
      (rs : List Ref)
      → All (λ r. IsIn r (order_of idx)) rs
      → Checks rs (check_targets annotation idx rs)
  unfolding check_targets
  check_targets-Checks [] a = tt
  check_targets-Checks (r ∷ rs) a =
      first_error-Checks r rs (depends_on_error (annotation r))
        (missing_target annotation idx.resources (edges_for annotation idx r))
        (check_targets annotation idx rs) a.0 refl refl (check_targets-Checks rs a.1)

  cycle_error-IsReport :
      (x : Found)
      → IsClosed (edges_for annotation idx) (order_of idx)
      → IsAnswer (edges_for annotation idx) (order_of idx) x
      → IsReport (cycle_error annotation x)
  cycle_error-IsReport (clear s) c h = (c, h)
  cycle_error-IsReport (cycle p) c h = h
  cycle_error-IsReport out_of_fuel c h = h

  or_cycle-IsReport :
      (o : Option DepsError)
      → Checks (order_of idx) o
      → IsReport (or_cycle annotation o (index_of_cycle (edges_for annotation idx) (order_of idx)))
  or_cycle-IsReport none h =
      cycle_error-IsReport (index_of_cycle (edges_for annotation idx) (order_of idx)) h
        (index_of_cycle-IsAnswer (edges_for annotation idx) (order_of idx) h)
  or_cycle-IsReport (some e) h = h.0

-- What checkDeps answers is so. No error: each edge leads to a defined resource, and no walk along
-- edges leads from a resource back to it. A bad annotation: the annotation of a resource has that
-- part. An undefined target: a resource has an edge to it, and nothing defines it. A cycle: a path
-- along edges from a node back to it. The search for a cycle always ends.
pub check_deps-IsReport :
    (annotation : Ref → Option Text) (idx : Index)
    → IsReport annotation idx (check_deps annotation idx)
unfolding check_deps
check_deps-IsReport annotation idx =
    or_cycle-IsReport annotation idx (check_targets annotation idx (order_of idx))
      (check_targets-Checks annotation idx (order_of idx) (All-self (order_of idx)))

or_cycle-none :
    (annotation : Ref → Option Text) (o : Option DepsError) (x : Found)
    → or_cycle annotation o x ≡ none
    → (s : Search) × (x ≡ clear s)
or_cycle-none annotation (some e) x h = cc
or_cycle-none annotation none (clear s) h = (s, refl)
or_cycle-none annotation none (cycle c) h = cc
or_cycle-none annotation none out_of_fuel h = cc

-- For an index that checkDeps accepts, Levels ends, and gives every resource a level above the levels
-- of all its deps.
pub check_deps-IsLeveled :
    (annotation : Ref → Option Text) (idx : Index)
    → check_deps annotation idx ≡ none
    → (f : ℕ) × (m : Memo) × (levels (edges_for annotation idx) f (order_of idx) ≡ some m)
      × All (IsLeveled (edges_for annotation idx) m) (order_of idx)
unfolding check_deps
check_deps-IsLeveled annotation idx h =
    let (s, found) =
      or_cycle-none annotation (check_targets annotation idx (order_of idx))
        (index_of_cycle (edges_for annotation idx) (order_of idx)) h in
    let (done, topological, inside) =
      index_of_cycle-IsTopological (edges_for annotation idx) (order_of idx) s found in
    let closed = subst (IsReport annotation idx) h (check_deps-IsReport annotation idx) in
    levels-IsLeveled (edges_for annotation idx) (order_of idx) done topological inside closed.0
