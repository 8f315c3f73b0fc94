-- ===== src/Parse/Levels/Enough.antt =====
-- More fuel changes no result of Levels.
use proxops.Base.{
  ℕ, List, [], ◌∷◌, Option, none, some, zero, suc, ◌+◌, ◌≡◌, refl, Bool, true, false, arith, subst,
}
use proxops.Schema.Kind.{Ref}
use proxops.Parse.Levels.{
  Memo, raise, deps_level, memoised, and_level, level_of, store_level, all_levels, levels,
  no_levels, and_levels,
}

-- What `v` answers, `w` answers.
abbrev Extends : (v w : Ref → Memo → Option (ℕ × Memo)) → Type 0
Extends v w = (r : Ref) (m : Memo) (x : ℕ × Memo) → v r m ≡ some x → w r m ≡ some x

and_level-some :
    (o : Option (ℕ × Memo)) (next : ℕ → Memo → Option (ℕ × Memo)) (x : ℕ × Memo)
    → and_level o next ≡ some x
    → (y : ℕ × Memo) × (o ≡ some y) × (next y.0 y.1 ≡ some x)
and_level-some none next x h = cc
and_level-some (some y) next x h = (y, refl, h)

deps_level-Extends :
    (v w : Ref → Memo → Option (ℕ × Memo))
    → Extends v w
    → (ds : List Ref) (lvl : ℕ) (m : Memo) (x : ℕ × Memo) → deps_level v ds lvl m ≡ some x
    → deps_level w ds lvl m ≡ some x
unfolding deps_level
deps_level-Extends v w e [] lvl m x h = h
deps_level-Extends v w e (d ∷ ds) lvl m x h =
    let (y, one, rest) = and_level-some (v d m) (λ dl k. deps_level v ds (raise dl lvl) k) x h in
    rw (e d m y one) (deps_level-Extends v w e ds (raise y.0 lvl) y.1 x rest)

memoised-more :
    (b : Bool) (o : Option ℕ) (m : Memo) (p q : Option (ℕ × Memo)) (x : ℕ × Memo)
    → (p ≡ some x → q ≡ some x)
    → memoised b o m p ≡ some x
    → memoised b o m q ≡ some x
memoised-more true (some l) m p q x f h = h
memoised-more true none m p q x f h = f h
memoised-more false o m p q x f h = f h

module _ (edges : Ref → List Ref) where
  level_of-more : (f : ℕ) → Extends (level_of edges f) (level_of edges (suc f))
  unfolding level_of
  level_of-more zero r m x h = cc
  level_of-more (suc f) r m x h =
      memoised-more (m.done r) (m.levels r) m
        (and_level (deps_level (level_of edges f) (edges r) 0 m)
          (λ lvl k. some (lvl, store_level r lvl k)))
        (and_level (deps_level (level_of edges (suc f)) (edges r) 0 m)
          (λ lvl k. some (lvl, store_level r lvl k)))
        x
        (λ g.
          let (y, one, rest) =
            and_level-some (deps_level (level_of edges f) (edges r) 0 m)
              (λ lvl k. some (lvl, store_level r lvl k)) x g in
          rw
            (deps_level-Extends (level_of edges f) (level_of edges (suc f)) (level_of-more f)
              (edges r) 0 m y one)
            rest)
        h

  and_levels-some :
      (o : Option (ℕ × Memo)) (next : Memo → Option Memo) (x : Memo)
      → and_levels edges o next ≡ some x
      → (y : ℕ × Memo) × (o ≡ some y) × (next y.1 ≡ some x)
  and_levels-some none next x h = cc
  and_levels-some (some y) next x h = (y, refl, h)

  all_levels-more :
      (f : ℕ) (rs : List Ref) (m x : Memo)
      → all_levels edges f rs m ≡ some x
      → all_levels edges (suc f) rs m ≡ some x
  unfolding all_levels
  all_levels-more f [] m x h = h
  all_levels-more f (r ∷ rs) m x h =
      let (y, one, rest) = and_levels-some (level_of edges f r m) (all_levels edges f rs) x h in
      rw (level_of-more f r m y one) (all_levels-more f rs y.1 x rest)

  levels-add :
      (k f : ℕ) (order : List Ref) (x : Memo)
      → levels edges f order ≡ some x
      → levels edges (k + f) order ≡ some x
  unfolding levels
  levels-add zero f order x h =
      let e : f ≡ 0 + f = omega arith in subst (λ n. levels edges n order ≡ some x) e h
  levels-add (suc k) f order x h =
      let e : suc (k + f) ≡ suc k + f = omega arith in
      subst (λ n. levels edges n order ≡ some x) e
        (all_levels-more (k + f) order no_levels x (levels-add k f order x h))

  -- Any two amounts of fuel that give a result give the same one.
  pub levels_unique :
      (f g : ℕ) (order : List Ref) (x y : Memo)
      → levels edges f order ≡ some x
      → levels edges g order ≡ some y
      → x ≡ y
  levels_unique f g order x y h k =
      let a = levels-add g f order x h in
      let b = levels-add f g order y k in let c : g + f ≡ f + g = omega arith in cc
