-- ===== src/Parse/Cycle.antt =====
-- indexOfCycle of internal/parse/parse.go: the depth-first search for a cycle of dependencies.
pub mod Walks
mod Finished
pub mod Order
pub mod Chains
pub mod Fuel
pub mod Answer
use proxops.Base.{
  ℕ, Bool, List, [], ◌∷◌, none, some, zero, suc, if◌then◌else◌, length, ◌++◌, Option,
}
use proxops.Schema.Kind.{Ref, ref_eq}

pub data Color : Type 0 where
  white gray black : Color

-- `color`, where a missing key is white, and `path`.
pub record Search : Type 0 where
  pub color : Ref → Color
  pub path : List Ref

-- A cycle, or the search goes on; the recursion has fuel.
pub data Found : Type 0 where
  clear : Search → Found
  cycle : List Ref → Found
  out_of_fuel : Found

-- color[ref] = c
abbrev pub paint : Ref → Color → (Ref → Color) → Ref → Color
paint r c color q = if ref_eq r q then c else color q

-- path[:len(path)-1]
unfoldable pub drop_last : List Ref → List Ref
drop_last [] = []
drop_last (p ∷ []) = []
drop_last (p ∷ q ∷ ps) = p ∷ drop_last (q ∷ ps)

-- The loop over the path for the first occurrence of a node: path[i:].
unfoldable pub path_from : Ref → List Ref → Option (List Ref)
path_from d [] = none
path_from d (p ∷ ps) = let later = path_from d ps in if ref_eq p d then some (p ∷ ps) else later

-- The start and the end of a visit.
abbrev pub enter : Ref → Search → Search
enter r s = record { color = paint r gray s.color; path = s.path ++ r ∷ [] }

abbrev pub leave : Ref → Search → Search
leave r s = record { color = paint r black s.color; path = drop_last s.path }

abbrev pub finish : Ref → Found → Found
finish r (clear s) = clear (leave r s)
finish r (cycle c) = cycle c
finish r out_of_fuel = out_of_fuel

abbrev pub and_on : Found → (Search → Found) → Found
and_on (clear s) next = next s
and_on (cycle c) next = cycle c
and_on out_of_fuel next = out_of_fuel

-- What a gray dep gives.
abbrev pub back_edge : Ref → Option (List Ref) → Found → Found
back_edge d (some ps) next = cycle (ps ++ d ∷ [])
back_edge d none next = next

-- The switch on the color of a dep, given the visit of a white one and the rest of the loop.
abbrev pub on_color : Color → Ref → (Ref → Search → Found) → (Search → Found) → Search → Found
on_color white d visit next s = and_on (visit d s) next
on_color gray d visit next s = back_edge d (path_from d s.path) (next s)
on_color black d visit next s = next s

-- The loop over the deps of a node.
unfoldable pub visit_deps : (Ref → Search → Found) → List Ref → Search → Found
unfolding path_from
visit_deps visit [] s = clear s
visit_deps visit (d ∷ ds) s = on_color (s.color d) d visit (visit_deps visit ds) s

module _ (edges : Ref → List Ref) where
  unfoldable pub visit : ℕ → Ref → Search → Found
  unfolding visit_deps drop_last
  visit zero r s = out_of_fuel
  visit (suc f) r s = finish r (visit_deps (visit f) (edges r) (enter r s))

  -- The loop over the order: a node that is not white was visited.
  abbrev pub visit_if : Color → ℕ → Ref → Search → Found
  visit_if white f r s = visit f r s
  visit_if gray f r s = clear s
  visit_if black f r s = clear s

  unfoldable pub visit_all : ℕ → List Ref → Search → Found
  unfolding visit
  visit_all f [] s = clear s
  visit_all f (r ∷ rs) s = and_on (visit_if (s.color r) f r s) (visit_all f rs)

  abbrev pub start : Search
  start = record { color = λ q. white; path = [] }

  -- indexOfCycle, with one step of fuel for each node.
  unfoldable pub index_of_cycle : List Ref → Found
  unfolding visit_all
  index_of_cycle order = visit_all (length order) order start
