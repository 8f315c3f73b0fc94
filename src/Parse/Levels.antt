-- ===== src/Parse/Levels.antt =====
-- Levels of internal/parse/parse.go: the memoised levels of the dependency graph.
pub mod Height
pub mod Memoised
pub mod Enough
use proxops.Base.{
  ℕ, Bool, List, [], ◌∷◌, Option, none, some, zero, suc, ◌+◌, if◌then◌else◌, ltb, true, false,
}
use proxops.Schema.Kind.{Ref, ref_eq}

-- `levels` and `done`.
pub record Memo : Type 0 where
  pub levels : Ref → Option ℕ
  pub done : Ref → Bool

abbrev pub no_levels : Memo
no_levels = record { levels = λ q. none; done = λ q. false }

-- levels[ref] = lvl; done[ref] = true
abbrev pub store_level : Ref → ℕ → Memo → Memo
store_level r lvl m = record {
  levels = λ q. if ref_eq r q then some lvl else m.levels q;
  done = λ q. if ref_eq r q then true else m.done q;
}

-- if dl+1 > lvl { lvl = dl + 1 }
abbrev pub raise : ℕ → ℕ → ℕ
raise dl lvl = if ltb lvl (dl + 1) then dl + 1 else lvl

abbrev pub and_level : Option (ℕ × Memo) → (ℕ → Memo → Option (ℕ × Memo)) → Option (ℕ × Memo)
and_level none next = none
and_level (some (l, m)) next = next l m

-- The loop over the deps.
unfoldable pub deps_level :
    (Ref → Memo → Option (ℕ × Memo)) → List Ref → ℕ → Memo → Option (ℕ × Memo)
deps_level v [] lvl m = some (lvl, m)
deps_level v (d ∷ ds) lvl m = and_level (v d m) (λ dl k. deps_level v ds (raise dl lvl) k)

-- A level that is done and stored is returned.
abbrev pub memoised : Bool → Option ℕ → Memo → Option (ℕ × Memo) → Option (ℕ × Memo)
memoised true (some l) m next = some (l, m)
memoised true none m next = next
memoised false l m next = next

module _ (edges : Ref → List Ref) where
  -- levelOf, with fuel for the recursion.
  unfoldable pub level_of : ℕ → Ref → Memo → Option (ℕ × Memo)
  unfolding deps_level
  level_of zero r m = none
  level_of (suc f) r m =
      memoised (m.done r) (m.levels r) m (
        and_level (deps_level (level_of f) (edges r) 0 m)
          (λ lvl k. some (lvl, store_level r lvl k)))

  abbrev pub and_levels : Option (ℕ × Memo) → (Memo → Option Memo) → Option Memo
  and_levels none next = none
  and_levels (some (l, m)) next = next m

  -- The loop over the order.
  unfoldable pub all_levels : ℕ → List Ref → Memo → Option Memo
  unfolding level_of
  all_levels f [] m = some m
  all_levels f (r ∷ rs) m = and_levels (level_of f r m) (all_levels f rs)

  -- Index.Levels
  unfoldable pub levels : ℕ → List Ref → Option Memo
  unfolding all_levels
  levels f order = all_levels f order no_levels
