-- ===== src/Parse/Cycle/Chains.antt =====
-- The path of a search follows edges, so what it returns is a cycle.
use proxops.Base.{
  ℕ, List, [], ◌∷◌, none, some, zero, suc, refl, inl, inr, All, ◌≡◌, IsIn, ◌++◌, Option, subst, sym,
  ap, Bool-cases, All-imp, length, All-self, ◌∙◌,
}
use proxops.Schema.Kind.{Ref, ref_eq, ref_eq_iff}
use proxops.Parse.Cycle.{
  Color, white, gray, black, Search, Found, clear, cycle, out_of_fuel, visit_deps, on_color,
  visit_all, visit_if, and_on, visit, path_from, index_of_cycle, finish, enter, back_edge,
  drop_last, start,
}
use proxops.Parse.Cycle.Walks.{IsPath}
use proxops.Parse.Cycle.Finished.{drop_last-append}

module _ (edges : Ref → List Ref) where
  -- A path from a node back to it.
  pub record IsCycle (c : List Ref) : Type 0 where
    pub node : Ref
    pub between : List Ref
    pub ends : c ≡ node ∷ (between ++ node ∷ [])
    pub follows : IsPath edges c

  IsPath-snoc :
      (ps : List Ref) (r d : Ref)
      → IsPath edges (ps ++ r ∷ [])
      → IsIn d (edges r)
      → IsPath edges ((ps ++ r ∷ []) ++ d ∷ [])
  IsPath-snoc [] r d h m = (m, tt)
  IsPath-snoc (p ∷ []) r d h m = (h.0, (m, tt))
  IsPath-snoc (p ∷ q ∷ ps) r d h m = (h.0, IsPath-snoc (q ∷ ps) r d h.1 m)

  IsPath-tail : (p : Ref) (ps : List Ref) → IsPath edges (p ∷ ps) → IsPath edges ps
  IsPath-tail p [] h = tt
  IsPath-tail p (q ∷ ps) h = h.1

  path_from-IsCycle :
      (d : Ref) (ps qs : List Ref)
      → path_from d ps ≡ some qs
      → IsPath edges (ps ++ d ∷ [])
      → IsCycle (qs ++ d ∷ [])
  unfolding path_from
  path_from-IsCycle d [] qs e h = cc
  path_from-IsCycle d (p ∷ ps) qs e h = elim (Bool-cases (ref_eq p d)) [
    | inl t ↦
        let same : p ≡ d = (ref_eq_iff p d).0 t in
        let whole : some (p ∷ ps) ≡ some qs = rw t at e in
        let q : qs ≡ p ∷ ps = cc in
        record {
          node = d;
          between = ps;
          ends = rw (q, same) refl;
          follows = subst (λ l. IsPath edges (l ++ d ∷ [])) (sym q) h;
        }
    | inr t ↦ path_from-IsCycle d ps qs (rw t at e) (IsPath-tail p (ps ++ d ∷ []) h)
  ]

  -- What a search gives: the same path, or a cycle.
  abbrev pub Gives : List Ref → Found → Type 0
  Gives p (clear s) = s.path ≡ p
  Gives p (cycle c) = IsCycle c
  Gives p out_of_fuel = Unit

  Gives-and_on :
      (p : List Ref) (x : Found) (next : Search → Found)
      → Gives p x
      → ((s : Search) → s.path ≡ p → Gives p (next s))
      → Gives p (and_on x next)
  Gives-and_on p (clear s) next h k = k s h
  Gives-and_on p (cycle c) next h k = h
  Gives-and_on p out_of_fuel next h k = tt

  Gives-back_edge :
      (p : List Ref) (d : Ref) (o : Option (List Ref)) (next : Found)
      → path_from d p ≡ o
      → IsPath edges (p ++ d ∷ [])
      → Gives p next
      → Gives p (back_edge d o next)
  Gives-back_edge p d (some ps) next e h k = path_from-IsCycle d p ps e h
  Gives-back_edge p d none next e h k = k

  Gives-finish : (p : List Ref) (r : Ref) (x : Found) → Gives (p ++ r ∷ []) x → Gives p (finish r x)
  Gives-finish p r (clear s) h = ap drop_last h ∙ drop_last-append p r
  Gives-finish p r (cycle c) h = h
  Gives-finish p r out_of_fuel h = tt

  abbrev VisitGives : (Ref → Search → Found) → Type 0
  VisitGives v = (r : Ref) (s : Search) → IsPath edges (s.path ++ r ∷ []) → Gives s.path (v r s)

  on_color-Gives :
      (k : Color) (v : Ref → Search → Found) (next : Search → Found) (p : List Ref) (d : Ref)
      (s : Search)
      → VisitGives v
      → s.path ≡ p
      → IsPath edges (p ++ d ∷ [])
      → ((m : Search) → m.path ≡ p → Gives p (next m))
      → Gives p (on_color k d v next s)
  on_color-Gives white v next p d s hv e h k =
      Gives-and_on p (v d s) next
        (subst (λ l. Gives l (v d s)) e
          (hv d s (subst (λ l. IsPath edges (l ++ d ∷ [])) (sym e) h)))
        k
  on_color-Gives gray v next p d s hv e h k =
      Gives-back_edge p d (path_from d s.path) (next s) (ap (path_from d) (sym e)) h (k s e)
  on_color-Gives black v next p d s hv e h k = k s e

  visit_deps-Gives :
      (v : Ref → Search → Found) (p : List Ref) (ds : List Ref) (s : Search)
      → VisitGives v
      → s.path ≡ p
      → All (λ d. IsPath edges (p ++ d ∷ [])) ds
      → Gives p (visit_deps v ds s)
  unfolding visit_deps
  visit_deps-Gives v p [] s hv e h = e
  visit_deps-Gives v p (d ∷ ds) s hv e h =
      on_color-Gives (s.color d) v (visit_deps v ds) p d s hv e h.0
        (λ m q. visit_deps-Gives v p ds m hv q h.1)

  visit-Gives : (f : ℕ) → VisitGives (visit edges f)
  unfolding visit
  visit-Gives zero r s h = tt
  visit-Gives (suc f) r s h =
      Gives-finish s.path r (visit_deps (visit edges f) (edges r) (enter r s)) (
        visit_deps-Gives (visit edges f) (s.path ++ r ∷ []) (edges r) (enter r s) (visit-Gives f)
          refl
          (All-imp (λ d. IsIn d (edges r)) (λ d. IsPath edges ((s.path ++ r ∷ []) ++ d ∷ []))
            (λ d m. IsPath-snoc s.path r d h m) (edges r) (All-self (edges r))))

  visit_if-Gives :
      (k : Color) (f : ℕ) (r : Ref) (s : Search) → s.path ≡ [] → Gives [] (visit_if edges k f r s)
  visit_if-Gives white f r s e =
      subst (λ l. Gives l (visit edges f r s)) e
        (visit-Gives f r s (subst (λ l. IsPath edges (l ++ r ∷ [])) (sym e) tt))
  visit_if-Gives gray f r s e = e
  visit_if-Gives black f r s e = e

  visit_all-Gives :
      (f : ℕ) (rs : List Ref) (s : Search) → s.path ≡ [] → Gives [] (visit_all edges f rs s)
  unfolding visit_all
  visit_all-Gives f [] s e = e
  visit_all-Gives f (r ∷ rs) s e =
      Gives-and_on [] (visit_if edges (s.color r) f r s) (visit_all edges f rs)
        (visit_if-Gives (s.color r) f r s e) (λ m q. visit_all-Gives f rs m q)

  pub index_of_cycle-Gives : (order : List Ref) → Gives [] (index_of_cycle edges order)
  unfolding index_of_cycle
  index_of_cycle-Gives order = visit_all-Gives (length order) order (start edges) refl
