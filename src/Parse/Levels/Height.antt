-- ===== src/Parse/Levels/Height.antt =====
-- The levels of a graph without a memo, and that Levels computes them.
use proxops.Base.{
  ℕ, List, [], ◌∷◌, zero, suc, ◌≤◌, ◌<◌, arith, refl, inl, inr, All, IsIn, ◌≡◌, sym, subst, length,
  All-imp,
}
use proxops.Schema.Kind.{Ref}
use proxops.Parse.Levels.{raise}
use proxops.Parse.Cycle.Walks.{IsTopological}

-- One more than the highest level of the deps.
unfoldable pub above : (Ref → ℕ) → List Ref → ℕ → ℕ
above h [] lvl = lvl
above h (d ∷ ds) lvl = above h ds (raise (h d) lvl)

raise-le : (dl lvl : ℕ) → (lvl ≤ raise dl lvl) × (dl < raise dl lvl)
raise-le dl lvl = ground arith

above-le : (h : Ref → ℕ) (ds : List Ref) (lvl : ℕ) → lvl ≤ above h ds lvl
unfolding above
above-le h [] lvl = omega arith
above-le h (d ∷ ds) lvl =
    let one = (raise-le (h d) lvl).0 in let rest = above-le h ds (raise (h d) lvl) in omega arith

above-lt : (h : Ref → ℕ) (ds : List Ref) (lvl : ℕ) → All (λ d. h d < above h ds lvl) ds
unfolding above
above-lt h [] lvl = tt
above-lt h (d ∷ ds) lvl = (
  (let one = (raise-le (h d) lvl).1 in let rest = above-le h ds (raise (h d) lvl) in omega arith),
  above-lt h ds (raise (h d) lvl),
)

above-cong :
    (g h : Ref → ℕ) (ds : List Ref) (lvl : ℕ)
    → All (λ d. g d ≡ h d) ds
    → above g ds lvl ≡ above h ds lvl
unfolding above
above-cong g h [] lvl a = refl
above-cong g h (d ∷ ds) lvl a = rw a.0 (above-cong g h ds (raise (h d) lvl) a.1)

module _ (edges : Ref → List Ref) where
  -- The level, by recursion on the length of the walks.
  unfoldable pub height : ℕ → Ref → ℕ
  unfolding above
  height zero r = 0
  height (suc f) r = above (height f) (edges r) 0

  -- Behind the nodes of a topological order, longer walks change nothing.
  height-stable :
      (done : List Ref) (f g : ℕ) (r : Ref)
      → IsTopological edges done
      → IsIn r done
      → length done ≤ f
      → length done ≤ g
      → height f r ≡ height g r
  unfolding height
  height-stable [] f g r t m a b = elim m [ ]
  height-stable (x ∷ rs) f g r t (inr m) a b =
      height-stable rs f g r t.1 m (omega arith) (omega arith)
  height-stable (x ∷ rs) (suc f) (suc g) r t (inl q) a b =
      above-cong (height f) (height g) (edges r) 0 (
        All-imp (λ d. IsIn d rs) (λ d. height f d ≡ height g d)
          (λ d m. height-stable rs f g d t.1 m (omega arith) (omega arith)) (edges r)
          (subst (λ y. All (λ d. IsIn d rs) (edges y)) q t.0))
  height-stable (x ∷ rs) zero g r t (inl q) a b = let never : ⊥ = omega arith in elim never [ ]
  height-stable (x ∷ rs) (suc f) zero r t (inl q) a b =
      let never : ⊥ = omega arith in elim never [ ]

  -- The level of a node of a topological order.
  abbrev pub level : List Ref → Ref → ℕ
  level done = height (length done)

  module _ (done : List Ref) (topological : IsTopological edges done) where
    pub level_step : (r : Ref) → IsIn r done → level done r ≡ above (level done) (edges r) 0
    unfolding height
    level_step r m =
        height-stable done (length done) (suc (length done)) r topological m (omega arith)
          (omega arith)

    pub level-lt : (r : Ref) → IsIn r done → All (λ d. level done d < level done r) (edges r)
    level-lt r m =
        subst (λ l. All (λ d. level done d < l) (edges r)) (sym (level_step r m))
          (above-lt (level done) (edges r) 0)
