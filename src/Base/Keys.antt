-- ===== src/Base/Keys.antt =====
-- Keys that join parts of a text with a separator are unique, and so are the digits of a number.
use Prim.Native.Nat.{ℕ, zero, suc, ◌+◌, ◌-◌, ◌*◌, ◌/◌, ◌%◌, ◌≤◌}
use mathlib.Core.Path.{◌≡◌, refl, sym, ap, ap₂, ◌∙◌}
use mathlib.Core.Logic.{◌≢◌, inl, inr}
use mathlib.Core.List.{[], ◌∷◌, ◌++◌}
use native.Mathlib.Omega.{arith}
use proxops.Base.Bytes.{Text, digits_of, digits_onto}
use proxops.Base.Tests.{Bool-cases, ◌==◌}

-- The byte does not occur.
abbrev pub IsFree : ℕ → Text → Type 0
IsFree c [] = Unit
IsFree c (x ∷ s) = (x ≢ c) × IsFree c s

-- The first separator ends the first part.
pub split_unique :
    (c : ℕ) (a b s t : Text) → IsFree c a → IsFree c b → a ++ c ∷ s ≡ b ++ c ∷ t → (a ≡ b) × (s ≡ t)
split_unique c [] [] s t h k e = (refl, cc)
split_unique c [] (y ∷ b) s t h k e = elim (k.0 (let p : y ≡ c = cc in p)) [ ]
split_unique c (x ∷ a) [] s t h k e = elim (h.0 (let p : x ≡ c = cc in p)) [ ]
split_unique c (x ∷ a) (y ∷ b) s t h k e =
    let same : x ≡ y = cc in
    let rest : a ++ c ∷ s ≡ b ++ c ∷ t = cc in
    let (p, q) = split_unique c a b s t h.1 k.1 rest in (ap₂ (λ z l. z ∷ l) same p, q)

-- The number that decimal digits spell behind `n`.
unfoldable pub number : ℕ → Text → ℕ
number n [] = n
number n (d ∷ ds) = number (n * 10 + (d - 48)) ds

digits_onto-number : (f n : ℕ) (out : Text) → n ≤ f → number 0 (digits_onto f n out) ≡ number n out
unfolding digits_onto number
digits_onto-number zero n out h = let e : n ≡ 0 = omega arith in rw e refl
digits_onto-number (suc f) n out h = elim (Bool-cases (n == 0)) [
  | inl e ↦ let z : n ≡ 0 = ground arith in rw (e, z) refl
  | inr e ↦
      let le : n / 10 ≤ f = ground arith in
      let whole : n / 10 * 10 + (48 + n % 10 - 48) ≡ n = omega arith in
      rw e (digits_onto-number f (n / 10) ((48 + n % 10) ∷ out) le ∙ ap (λ m. number m out) whole)
]

pub number-digits_of : (n : ℕ) → number 0 (digits_of n) ≡ n
unfolding digits_of number
number-digits_of n = elim (Bool-cases (n == 0)) [
  | inl e ↦ let z : n ≡ 0 = ground arith in rw (e, z) refl
  | inr e ↦ rw e (digits_onto-number n n [] (omega arith))
]

-- Numbers with the same digits are equal.
pub digits_of_unique : (m n : ℕ) → digits_of m ≡ digits_of n → m ≡ n
digits_of_unique m n e = sym (number-digits_of m) ∙ ap (number 0) e ∙ number-digits_of n
