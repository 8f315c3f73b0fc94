-- ===== src/Parse/Cycle/Order.antt =====
-- A search that goes on puts the nodes in a topological order.
use proxops.Base.{
  ℕ, List, [], ◌∷◌, zero, suc, refl, inl, inr, All, ◌≡◌, IsIn, subst, length, ◌∙◌, ap,
}
use proxops.Schema.Kind.{Ref}
use proxops.Parse.Cycle.{
  Color, white, gray, black, Search, Found, clear, index_of_cycle, visit_if, enter, visit, on_color,
  visit_all, visit_deps, leave, start, drop_last, path_from,
}
use proxops.Parse.Cycle.Walks.{IsTopological}
use proxops.Parse.Cycle.Finished.{
  IsSound, Went, and_on-clear, finish-clear, enter-IsSound, Went-cons, leave-IsSound,
  back_edge-clear, drop_last-append, path_from-none,
}

module _ (edges : Ref → List Ref) where
  -- A visit that goes on has finished its node.
  abbrev Visits : (Ref → Search → Found) → Type 0
  Visits v =
      (r : Ref) (s s' : Search) (done : List Ref)
      → IsSound edges done s
      → v r s ≡ clear s'
      → Went edges done s s' (r ∷ [])

  abbrev VisitsAll : (Search → Found) → List Ref → Type 0
  VisitsAll next ds =
      (s s' : Search) (done : List Ref)
      → IsSound edges done s
      → next s ≡ clear s'
      → Went edges done s s' ds

  skipped :
      (done : List Ref) (s : Search) (d : Ref)
      → IsSound edges done s
      → s.color d ≡ black
      → Went edges done s s (d ∷ [])
  skipped done s d h e = record {
    done' = done;
    sound = h;
    grown = λ q m. m;
    same_path = refl;
    visited = (h.blacks d e, tt);
  }

  nothing :
      (done : List Ref) (s s' : Search) → IsSound edges done s → s ≡ s' → Went edges done s s' []
  nothing done s s' h e =
      subst (λ x. Went edges done s x []) e
        (record { done' = done; sound = h; grown = λ q m. m; same_path = refl; visited = tt })

  on_color-Went :
      (v : Ref → Search → Found) (next : Search → Found) (d : Ref) (ds : List Ref)
      → Visits v
      → VisitsAll next ds
      → (s s' : Search) (done : List Ref) → IsSound edges done s
      → (k : Color) → s.color d ≡ k
      → on_color k d v next s ≡ clear s'
      → Went edges done s s' (d ∷ ds)
  on_color-Went v next d ds hv hn s s' done h white e c =
      let (m, x, y) = and_on-clear (v d s) next s' c in
      Went-cons edges done s m s' d ds (hv d s m done h x) (λ k i. hn m s' k i y)
  on_color-Went v next d ds hv hn s s' done h gray e c =
      let none_found = back_edge-clear d (path_from d s.path) (next s) s' c in
      elim (path_from-none d s.path none_found (h.grays d e)) [ ]
  on_color-Went v next d ds hv hn s s' done h black e c =
      Went-cons edges done s s s' d ds (skipped done s d h e) (λ k i. hn s s' k i c)

  visit_deps-Went :
      (v : Ref → Search → Found) (ds : List Ref) → Visits v → VisitsAll (visit_deps v ds) ds
  unfolding visit_deps
  visit_deps-Went v [] hv s s' done h c = nothing done s s' h cc
  visit_deps-Went v (d ∷ ds) hv s s' done h c =
      on_color-Went v (visit_deps v ds) d ds hv (visit_deps-Went v ds hv) s s' done h (s.color d)
        refl c

  finished :
      (s m : Search) (r : Ref) (done : List Ref)
      → Went edges done (enter r s) m (edges r)
      → Went edges done s (leave r m) (r ∷ [])
  finished s m r done g = record {
    done' = r ∷ g.done';
    sound = leave-IsSound edges g.done' s m r g.sound g.same_path g.visited;
    grown = λ q i. inr (g.grown q i);
    same_path = ap drop_last g.same_path ∙ drop_last-append s.path r;
    visited = (inl refl, tt);
  }

  visit-Went : (f : ℕ) → Visits (visit edges f)
  unfolding visit
  visit-Went zero r s s' done h c = cc
  visit-Went (suc f) r s s' done h c =
      let (m, x, y) = finish-clear r (visit_deps (visit edges f) (edges r) (enter r s)) s' c in
      subst (λ z. Went edges done s z (r ∷ [])) y
        (finished s m r done (
          visit_deps-Went (visit edges f) (edges r) (visit-Went f) (enter r s) m done
            (enter-IsSound edges done s r h) x))

  -- Between the visits of the order nothing is on the path.
  visit_if-Went :
      (k : Color) (f : ℕ) (r : Ref) (s s' : Search) (done : List Ref)
      → s.path ≡ []
      → IsSound edges done s
      → s.color r ≡ k
      → visit_if edges k f r s ≡ clear s'
      → Went edges done s s' (r ∷ [])
  visit_if-Went white f r s s' done p h e c = visit-Went f r s s' done h c
  visit_if-Went gray f r s s' done p h e c = elim (subst (λ l. IsIn r l) p (h.grays r e)) [ ]
  visit_if-Went black f r s s' done p h e c =
      subst (λ z. Went edges done s z (r ∷ [])) (cc) (skipped done s r h e)

  visit_all-Went :
      (f : ℕ) (rs : List Ref) (s s' : Search) (done : List Ref)
      → s.path ≡ []
      → IsSound edges done s
      → visit_all edges f rs s ≡ clear s'
      → Went edges done s s' rs
  unfolding visit_all
  visit_all-Went f [] s s' done p h c = nothing done s s' h cc
  visit_all-Went f (r ∷ rs) s s' done p h c =
      let (m, x, y) = and_on-clear (visit_if edges (s.color r) f r s) (visit_all edges f rs) s' c in
      let g = visit_if-Went (s.color r) f r s m done p h refl x in
      Went-cons edges done s m s' r rs g (λ k i. visit_all-Went f rs m s' k (g.same_path ∙ p) i y)

  -- A search that finds no cycle has put all nodes of the order in a topological one.
  pub index_of_cycle-IsTopological :
      (order : List Ref) (s : Search)
      → index_of_cycle edges order ≡ clear s
      → (done : List Ref) × IsTopological edges done × All (λ r. IsIn r done) order
  unfolding index_of_cycle
  index_of_cycle-IsTopological order s c =
      let g =
        visit_all-Went (length order) order (start edges) s [] refl
          (record { blacks = λ q e. cc; grays = λ q e. cc; topological = tt }) c in
      (g.done', g.sound.topological, g.visited)
