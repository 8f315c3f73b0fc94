-- ===== src/Parse/Cycle/Walks.antt =====
-- Walks along the edges of a graph of dependencies, and why a topological order excludes cycles.
use proxops.Base.{List, [], ◌∷◌, inl, inr, All, IsIn, All-IsIn, subst, sym}
use proxops.Schema.Kind.{Ref}

module _ (edges : Ref → List Ref) where
  -- The deps of each node stand behind it.
  abbrev pub IsTopological : List Ref → Type 0
  IsTopological [] = Unit
  IsTopological (r ∷ rs) = All (λ d. IsIn d rs) (edges r) × IsTopological rs

  -- A walk along at least one edge.
  pub data Walk : Ref → Ref → Type 0 where
    edge : {a b : Ref} → IsIn b (edges a) → Walk a b
    more : {a b c : Ref} → IsIn b (edges a) → Walk b c → Walk a c

  dep-stays :
      (done : List Ref) (a b : Ref)
      → IsTopological done
      → IsIn a done
      → IsIn b (edges a)
      → IsIn b done
  dep-stays [] a b t m e = elim m [ ]
  dep-stays (r ∷ rs) a b t (inl q) e =
      inr (All-IsIn (λ d. IsIn d rs) (edges r) t.0 (subst (λ x. IsIn b (edges x)) (sym q) e))
  dep-stays (r ∷ rs) a b t (inr m) e = inr (dep-stays rs a b t.1 m e)

  -- Where a walk starts in a topological order, it stays.
  Walk-stays :
      (done : List Ref) (a b : Ref) → IsTopological done → IsIn a done → Walk a b → IsIn b done
  Walk-stays done a b t m (edge e) = dep-stays done a b t m e
  Walk-stays done a b t m (more {b = c} e w) = Walk-stays done c b t (dep-stays done a c t m e) w

  behind :
      (r : Ref) (rs : List Ref) (a b : Ref)
      → IsTopological (r ∷ rs)
      → IsIn a (r ∷ rs)
      → Walk a b
      → IsIn b rs
  behind r rs a b t (inr m) w = Walk-stays rs a b t.1 m w
  behind r rs a b t (inl q) (edge e) =
      All-IsIn (λ d. IsIn d rs) (edges r) t.0 (subst (λ x. IsIn b (edges x)) (sym q) e)
  behind r rs a b t (inl q) (more {b = c} e w) =
      Walk-stays rs c b t.1
        (All-IsIn (λ d. IsIn d rs) (edges r) t.0 (subst (λ x. IsIn c (edges x)) (sym q) e)) w

  pub topological-no_cycle :
      (done : List Ref) (a : Ref) → IsTopological done → IsIn a done → ¬ Walk a a
  topological-no_cycle [] a t m w = m
  topological-no_cycle (r ∷ rs) a t m w = topological-no_cycle rs a t.1 (behind r rs a a t m w) w

  -- Each node has an edge to the next.
  abbrev pub IsPath : List Ref → Type 0
  IsPath [] = Unit
  IsPath (a ∷ []) = Unit
  IsPath (a ∷ b ∷ ps) = IsIn b (edges a) × IsPath (b ∷ ps)
