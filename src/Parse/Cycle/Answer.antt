-- ===== src/Parse/Cycle/Answer.antt =====
-- What indexOfCycle answers.
use proxops.Base.{List, [], All, IsIn, ◌≡◌, refl, All-imp, subst}
use proxops.Schema.Kind.{Ref}
use proxops.Parse.Cycle.{Found, clear, cycle, out_of_fuel, index_of_cycle}
use proxops.Parse.Cycle.Walks.{Walk, topological-no_cycle}
use proxops.Parse.Cycle.Order.{index_of_cycle-IsTopological}
use proxops.Parse.Cycle.Chains.{IsCycle, Gives, index_of_cycle-Gives}
use proxops.Parse.Cycle.Fuel.{IsClosed, index_of_cycle-ends}

module _ (edges : Ref → List Ref) (order : List Ref) where
  -- No cycle: no walk leads from a node back to it. A cycle: one along the edges.
  abbrev pub IsAnswer : Found → Type 0
  IsAnswer (clear s) = All (λ r. ¬ Walk edges r r) order
  IsAnswer (cycle c) = IsCycle edges c
  IsAnswer out_of_fuel = ⊥

-- Where every edge leads to a node of the order, the search for a cycle ends within its fuel. What it
-- returns as a cycle is a path along edges from a node back to it, and when it returns none, no walk
-- along edges leads from a node of the order back to that node.
pub index_of_cycle-IsAnswer :
    (edges : Ref → List Ref) (order : List Ref)
    → IsClosed edges order
    → IsAnswer edges order (index_of_cycle edges order)
index_of_cycle-IsAnswer edges order closed = by_result (index_of_cycle edges order) refl
  where
    by_result : (x : Found) → index_of_cycle edges order ≡ x → IsAnswer edges order x
    by_result (clear s) e =
        let (done, topological, inside) = index_of_cycle-IsTopological edges order s e in
        All-imp (λ r. IsIn r done) (λ r. ¬ Walk edges r r)
          (λ r m. topological-no_cycle edges done r topological m) order inside
    by_result (cycle c) e = subst (Gives edges []) e (index_of_cycle-Gives edges order)
    by_result out_of_fuel e = index_of_cycle-ends edges order closed e
