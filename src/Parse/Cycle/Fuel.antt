-- ===== src/Parse/Cycle/Fuel.antt =====
-- The fuel of a search is enough where the edges stay among the nodes: each visit turns one of the
-- white nodes gray.
use proxops.Base.{
  ℕ, List, [], ◌∷◌, none, some, zero, suc, ◌+◌, ◌≤◌, ◌<◌, arith, refl, inl, inr, All, ◌≡◌, IsIn,
  Option, length, All-IsIn, ◌≢◌, subst, sym, All-self,
}
use proxops.Schema.Kind.{Ref, ref_eq_iff}
use proxops.Parse.Cycle.{
  Color, white, gray, black, Search, Found, clear, cycle, out_of_fuel, visit_if, visit_deps, visit,
  and_on, index_of_cycle, visit_all, on_color, back_edge, paint, enter, start, path_from, finish,
}
use proxops.Parse.Cycle.Finished.{painted}

count_one : Color → ℕ
count_one white = 1
count_one gray = 0
count_one black = 0

-- The white ones of some nodes.
whites : (Ref → Color) → List Ref → ℕ
unfolding count_one
whites color [] = 0
whites color (r ∷ rs) = count_one (color r) + whites color rs

-- A color changes, if it changes, from white.
abbrev Darker : (Ref → Color) → (Ref → Color) → Type 0
Darker c c' = (q : Ref) → c' q ≡ white → c q ≡ white

count_one-le : (k j : Color) → (j ≡ white → k ≡ white) → count_one j ≤ count_one k
unfolding count_one
count_one-le k white h = rw (h refl) (omega arith)
count_one-le k gray h = omega arith
count_one-le k black h = omega arith

whites-le : (c c' : Ref → Color) (rs : List Ref) → Darker c c' → whites c' rs ≤ whites c rs
unfolding whites
whites-le c c' [] h = omega arith
whites-le c c' (r ∷ rs) h =
    let one = count_one-le (c r) (c' r) (h r) in let rest = whites-le c c' rs h in omega arith

whites-lt :
    (c c' : Ref → Color) (rs : List Ref) (r : Ref)
    → Darker c c'
    → IsIn r rs
    → c r ≡ white
    → c' r ≡ gray
    → whites c' rs < whites c rs
unfolding whites count_one
whites-lt c c' [] r h m e e' = elim m [ ]
whites-lt c c' (x ∷ rs) r h (inl q) e e' =
    let rest = whites-le c c' rs h in
    let was : c x ≡ white = subst (λ y. c y ≡ white) (sym q) e in
    let is : c' x ≡ gray = subst (λ y. c' y ≡ gray) (sym q) e' in rw (was, is) (omega arith)
whites-lt c c' (x ∷ rs) r h (inr m) e e' =
    let one = count_one-le (c x) (c' x) (h x) in
    let rest = whites-lt c c' rs r h m e e' in omega arith

whites-le_length : (c : Ref → Color) (rs : List Ref) → whites c rs ≤ length rs
unfolding whites count_one
whites-le_length c [] = omega arith
whites-le_length c (r ∷ rs) =
    let rest = whites-le_length c rs in
    let one = count_one-le white (c r) (λ e. refl) in omega arith

painted_self : (r : Ref) (c : Ref → Color) → paint r gray c r ≡ gray
painted_self r c = rw ((ref_eq_iff r r).1 refl) refl

paint-Darker : (r : Ref) (k : Color) (c : Ref → Color) → k ≢ white → Darker c (paint r k c)
paint-Darker r k c n q e = elim (painted r k white c q e) [ inl m ↦ elim (n m.1) [ ] | inr m ↦ m.1 ]

-- A search ends, and whitens nothing.
abbrev Ends : (Ref → Color) → Found → Type 0
Ends c (clear s) = Darker c s.color
Ends c (cycle ps) = Unit
Ends c out_of_fuel = ⊥

Ends-Darker : (a b : Ref → Color) (x : Found) → Darker a b → Ends b x → Ends a x
Ends-Darker a b (clear t) p i = λ q o. p q (i q o)
Ends-Darker a b (cycle ps) p i = tt
Ends-Darker a b out_of_fuel p i = i

Ends-and_on :
    (c : Ref → Color) (x : Found) (next : Search → Found)
    → Ends c x
    → ((s : Search) → Darker c s.color → Ends c (next s))
    → Ends c (and_on x next)
Ends-and_on c (clear s) next h k = k s h
Ends-and_on c (cycle ps) next h k = tt
Ends-and_on c out_of_fuel next h k = h

Ends-back_edge :
    (c : Ref → Color) (d : Ref) (o : Option (List Ref)) (next : Found)
    → Ends c next
    → Ends c (back_edge d o next)
Ends-back_edge c d (some ps) next h = tt
Ends-back_edge c d none next h = h

Ends-finish :
    (c : Ref → Color) (r : Ref) (x : Found) → Ends (paint r gray c) x → Ends c (finish r x)
Ends-finish c r (clear s) h =
    λ q e. paint-Darker r gray c (λ k. cc) q (h q (paint-Darker r black s.color (λ k. cc) q e))
Ends-finish c r (cycle ps) h = tt
Ends-finish c r out_of_fuel h = h

module _ (edges : Ref → List Ref) (order : List Ref) where
  -- Every edge leads into the order.
  abbrev pub IsClosed : Type 0
  IsClosed = All (λ r. All (λ d. IsIn d order) (edges r)) order

  abbrev VisitEnds : ℕ → (Ref → Search → Found) → Type 0
  VisitEnds n v =
      (r : Ref) (s : Search)
      → IsIn r order
      → s.color r ≡ white
      → whites s.color order ≤ n
      → Ends s.color (v r s)

  on_color-Ends :
      (k : Color) (n : ℕ) (v : Ref → Search → Found) (next : Search → Found) (c : Ref → Color)
      (d : Ref) (s : Search)
      → VisitEnds n v
      → whites c order ≤ n
      → Darker c s.color
      → IsIn d order
      → s.color d ≡ k
      → ((m : Search) → Darker c m.color → Ends c (next m))
      → Ends c (on_color k d v next s)
  on_color-Ends white n v next c d s hv w h m e k =
      let fewer = whites-le c s.color order h in
      Ends-and_on c (v d s) next (Ends-Darker c s.color (v d s) h (hv d s m e (omega arith))) k
  on_color-Ends gray n v next c d s hv w h m e k =
      Ends-back_edge c d (path_from d s.path) (next s) (k s h)
  on_color-Ends black n v next c d s hv w h m e k = k s h

  visit_deps-Ends :
      (n : ℕ) (v : Ref → Search → Found) (c : Ref → Color) (ds : List Ref) (s : Search)
      → VisitEnds n v
      → whites c order ≤ n
      → Darker c s.color
      → All (λ d. IsIn d order) ds
      → Ends c (visit_deps v ds s)
  unfolding visit_deps
  visit_deps-Ends n v c [] s hv w h a = h
  visit_deps-Ends n v c (d ∷ ds) s hv w h a =
      on_color-Ends (s.color d) n v (visit_deps v ds) c d s hv w h a.0 refl
        (λ m i. visit_deps-Ends n v c ds m hv w i a.1)

  module _ (closed : IsClosed) where
    visit-Ends : (f : ℕ) → VisitEnds f (visit edges f)
    unfolding visit
    visit-Ends zero r s m e w =
        let some_white =
          whites-lt s.color (paint r gray s.color) order r (paint-Darker r gray s.color (λ k. cc)) m
            e (painted_self r s.color) in
        let never : ⊥ = omega arith in elim never [ ]
    visit-Ends (suc f) r s m e w =
        let fewer =
          whites-lt s.color (paint r gray s.color) order r (paint-Darker r gray s.color (λ k. cc)) m
            e (painted_self r s.color) in
        Ends-finish s.color r (visit_deps (visit edges f) (edges r) (enter r s)) (
          visit_deps-Ends f (visit edges f) (paint r gray s.color) (edges r) (enter r s)
            (visit-Ends f) (omega arith) (λ q i. i)
            (All-IsIn (λ x. All (λ d. IsIn d order) (edges x)) order closed m))

    visit_if-Ends :
        (k : Color) (f : ℕ) (r : Ref) (s : Search)
        → IsIn r order
        → s.color r ≡ k
        → whites s.color order ≤ f
        → Ends s.color (visit_if edges k f r s)
    visit_if-Ends white f r s m e w = visit-Ends f r s m e w
    visit_if-Ends gray f r s m e w = λ q i. i
    visit_if-Ends black f r s m e w = λ q i. i

    visit_all-Ends :
        (f : ℕ) (c : Ref → Color) (rs : List Ref) (s : Search)
        → whites c order ≤ f
        → Darker c s.color
        → All (λ r. IsIn r order) rs
        → Ends c (visit_all edges f rs s)
    unfolding visit_all
    visit_all-Ends f c [] s w h a = h
    visit_all-Ends f c (r ∷ rs) s w h a =
        let fewer = whites-le c s.color order h in
        Ends-and_on c (visit_if edges (s.color r) f r s) (visit_all edges f rs)
          (Ends-Darker c s.color (visit_if edges (s.color r) f r s) h
            (visit_if-Ends (s.color r) f r s a.0 refl (omega arith)))
          (λ m i. visit_all-Ends f c rs m w i a.1)

    -- The fuel of the search is enough.
    pub index_of_cycle-ends : index_of_cycle edges order ≢ out_of_fuel
    unfolding index_of_cycle
    index_of_cycle-ends e = subst (Ends (λ q. white)) e (
        visit_all-Ends (length order) (λ q. white) order (start edges)
          (whites-le_length (λ q. white) order) (λ q i. i) (All-self order))
