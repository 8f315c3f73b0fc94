-- ===== src/Parse/Levels/Memoised.antt =====
-- Levels computes the heights of the nodes, each node once.
use proxops.Base.{
  ℕ, Bool, List, [], ◌∷◌, Option, some, zero, suc, ◌≤◌, ◌<◌, arith, true, false, refl, inl, inr,
  All, IsIn, ◌≡◌, sym, subst, length, Bool-cases, All-IsIn, All-self, All-imp, All-both_imp,
}
use proxops.Schema.Kind.{Ref, ref_eq, ref_eq_iff}
use proxops.Parse.Levels.{
  Memo, raise, deps_level, memoised, and_level, level_of, store_level, all_levels, levels,
  no_levels,
}
use proxops.Parse.Cycle.Walks.{IsTopological}
use proxops.Parse.Cycle.Fuel.{IsClosed}
use proxops.Parse.Levels.Height.{level, above, level_step, level-lt}

module _ (edges : Ref → List Ref) where
  module _ (done : List Ref) (topological : IsTopological edges done) where
    -- What is stored is the level.
    abbrev pub IsRight : Memo → Type 0
    IsRight m = (q : Ref) → m.done q ≡ true → m.levels q ≡ some (level edges done q)

    -- A result with its level, and a memo that is right and has forgotten nothing.
    record Leveled (m : Memo) (lvl : ℕ) (o : Option (ℕ × Memo)) : Type 0 where
      pub after : Memo
      pub result : o ≡ some (lvl, after)
      pub right : IsRight after
      pub kept : (q : Ref) → m.done q ≡ true → after.done q ≡ true

    -- A node is done when it has its level.
    record Done (m : Memo) (r : Ref) (o : Option (ℕ × Memo)) : Type 0 where
      pub leveled : Leveled m (level edges done r) o
      pub marked : leveled.after.done r ≡ true

    abbrev LevelsNode : (Ref → Memo → Option (ℕ × Memo)) → Ref → Type 0
    LevelsNode v r = (m : Memo) → IsRight m → Done m r (v r m)

    deps_level-Leveled :
        (v : Ref → Memo → Option (ℕ × Memo)) (ds : List Ref) (lvl : ℕ) (m : Memo)
        → All (LevelsNode v) ds
        → IsRight m
        → Leveled m (above (level edges done) ds lvl) (deps_level v ds lvl m)
    unfolding deps_level above
    deps_level-Leveled v [] lvl m a h = record {
      after = m;
      result = refl;
      right = h;
      kept = λ q e. e;
    }
    deps_level-Leveled v (d ∷ ds) lvl m a h =
        let one = (a.0 m h).leveled in
        let rest =
          deps_level-Leveled v ds (raise (level edges done d) lvl) one.after a.1 one.right in
        record {
          after = rest.after;
          result = rw one.result rest.result;
          right = rest.right;
          kept = λ q e. rest.kept q (one.kept q e);
        }

    store_level-IsRight :
        (r : Ref) (lvl : ℕ) (m : Memo)
        → lvl ≡ level edges done r
        → IsRight m
        → IsRight (store_level r lvl m)
    store_level-IsRight r lvl m e h q d = elim (Bool-cases (ref_eq r q)) [
      | inl t ↦ let same = (ref_eq_iff r q).0 t in rw (t, e, same) refl
      | inr t ↦ rw t (h q (rw t at d))
    ]

    stored-kept :
        (r : Ref) (lvl : ℕ) (m : Memo) (q : Ref)
        → m.done q ≡ true
        → (store_level r lvl m).done q ≡ true
    stored-kept r lvl m q e = ground arith

    memoised-Done :
        (b : Bool) (r : Ref) (m : Memo) (next : Option (ℕ × Memo))
        → m.done r ≡ b
        → IsRight m
        → Done m r next
        → Done m r (memoised b (m.levels r) m next)
    memoised-Done true r m next e h k = rw (h r e) (record {
      leveled = record { after = m; result = refl; right = h; kept = λ q i. i };
      marked = e;
    })
    memoised-Done false r m next e h k = k

    computed :
        (r : Ref) (m : Memo) (o : Option (ℕ × Memo))
        → IsIn r done
        → Leveled m (above (level edges done) (edges r) 0) o
        → Done m r (and_level o (λ lvl k. some (lvl, store_level r lvl k)))
    computed r m o i g = record {
      leveled = record {
        after = store_level r (above (level edges done) (edges r) 0) g.after;
        result = rw (g.result, level_step edges done topological r i) refl;
        right =
            store_level-IsRight r (above (level edges done) (edges r) 0) g.after
              (sym (level_step edges done topological r i)) g.right;
        kept = λ q e. stored-kept r (above (level edges done) (edges r) 0) g.after q (g.kept q e);
      };
      marked = rw ((ref_eq_iff r r).1 refl) refl;
    }

    level_of-Done :
        (part : List Ref) (f : ℕ) (r : Ref)
        → IsTopological edges part
        → All (λ q. IsIn q done) part
        → IsIn r part
        → length part ≤ f
        → LevelsNode (level_of edges f) r
    unfolding level_of
    level_of-Done [] f r t a i w m h = elim i [ ]
    level_of-Done (x ∷ rs) f r t a (inr i) w m h = level_of-Done rs f r t.1 a.1 i (omega arith) m h
    level_of-Done (x ∷ rs) zero r t a (inl q) w m h = let never : ⊥ = omega arith in elim never [ ]
    level_of-Done (x ∷ rs) (suc f) r t a (inl q) w m h =
        memoised-Done (m.done r) r m
          (and_level (deps_level (level_of edges f) (edges r) 0 m)
            (λ lvl k. some (lvl, store_level r lvl k)))
          refl h
          (computed r m (deps_level (level_of edges f) (edges r) 0 m)
            (subst (λ y. IsIn y done) q a.0)
            (deps_level-Leveled (level_of edges f) (edges r) 0 m
              (All-imp (λ d. IsIn d rs) (LevelsNode (level_of edges f))
                (λ d n. level_of-Done rs f d t.1 a.1 n (omega arith)) (edges r)
                (subst (λ y. All (λ d. IsIn d rs) (edges y)) q t.0))
              h))

    -- The whole loop.
    record AllDone (rs : List Ref) (m : Memo) (o : Option Memo) : Type 0 where
      pub final : Memo
      pub result : o ≡ some final
      pub right : IsRight final
      pub kept : (q : Ref) → m.done q ≡ true → final.done q ≡ true
      pub marked : All (λ r. final.done r ≡ true) rs

    all_levels-AllDone :
        (f : ℕ) (rs : List Ref) (m : Memo)
        → length done ≤ f
        → All (λ r. IsIn r done) rs
        → IsRight m
        → AllDone rs m (all_levels edges f rs m)
    unfolding all_levels
    all_levels-AllDone f [] m w a h = record {
      final = m;
      result = refl;
      right = h;
      kept = λ q e. e;
      marked = tt;
    }
    all_levels-AllDone f (r ∷ rs) m w a h =
        let one = level_of-Done done f r topological (All-self done) a.0 w m h in
        let g = one.leveled in
        let rest = all_levels-AllDone f rs g.after w a.1 g.right in
        record {
          final = rest.final;
          result = rw g.result rest.result;
          right = rest.right;
          kept = λ q e. rest.kept q (g.kept q e);
          marked = (rest.kept r one.marked, rest.marked);
        }

-- A node has a level, above those of its deps.
abbrev pub IsLeveled : (Ref → List Ref) → Memo → Ref → Type 0
IsLeveled edges m r =
    (l : ℕ) × (m.levels r ≡ some l) × All (λ d. (k : ℕ) × (m.levels d ≡ some k) × (k < l)) (edges r)

IsLeveled-at :
    (edges : Ref → List Ref) (order done : List Ref) (topological : IsTopological edges done)
    (m : Memo) (r : Ref)
    → IsRight edges done topological m
    → All (λ x. m.done x ≡ true) order
    → IsIn r order
    → IsIn r done
    → All (λ d. IsIn d order) (edges r)
    → IsLeveled edges m r
IsLeveled-at edges order done topological m r right marked i k a = (
  level edges done r,
  right r (All-IsIn (λ x. m.done x ≡ true) order marked i),
  All-both_imp (λ d. IsIn d order) (λ d. level edges done d < level edges done r)
      (λ d. (k : ℕ) × (m.levels d ≡ some k) × (k < level edges done r))
      (λ d n l. (level edges done d, right d (All-IsIn (λ x. m.done x ≡ true) order marked n), l))
      (edges r) a (level-lt edges done topological r k),
)

-- With enough recursion every node of the order has its level.
pub levels-IsLeveled :
    (edges : Ref → List Ref) (order done : List Ref)
    → IsTopological edges done
    → All (λ r. IsIn r done) order
    → IsClosed edges order
    → (f : ℕ) × (m : Memo) × (levels edges f order ≡ some m) × All (IsLeveled edges m) order
unfolding levels
levels-IsLeveled edges order done topological inside closed =
    let g =
      all_levels-AllDone edges done topological (length done) order no_levels (omega arith) inside
        (λ q e. cc) in
    (
      length done,
      g.final,
      g.result,
      All-imp (λ r. IsIn r order) (IsLeveled edges g.final)
          (λ r m.
            IsLeveled-at edges order done topological g.final r g.right g.marked m
              (All-IsIn (λ x. IsIn x done) order inside m)
              (All-IsIn (λ x. All (λ d. IsIn d order) (edges x)) order closed m))
          order (All-self order),
    )
