-- ===== src/Schema/Human.antt =====
-- HumanFromBytes of internal/schema/adopt.go; ParseBytes, which reads its texts, is in Schema/Quantity.
use mathlib.Core.List.{reverse-reverse}
use mathlib.Core.Logic.{inl, inr}
use proxops.Base.{
  digits_onto, trim_left, All-append, All-reverse, ℕ, zero, suc, ◌+◌, ◌-◌, ◌*◌, ◌/◌, ◌%◌, ◌^◌, ◌<◌,
  ◌≤◌, true, false, [], ◌∷◌, ◌++◌, Option, none, some, Text, codes, digits_of, trim_space, reverse,
  is_space, ◌==◌, if◌then◌else◌, ◌≡◌, refl, sym, ap, ◌∙◌, subst, arith, All, Bool-cases, text_eq,
  to_upper,
}
use proxops.Base.Int.{ℤ, pos, negsuc}
use proxops.Base.Keys.{number, number-digits_of}
use proxops.Base.Result.{ok}
use proxops.Schema.CloneConfig.{is_digit}
use proxops.Schema.Quantity.{parse_bytes, number_from, unit_bytes}
use proxops.Schema.Amounts.{parse_bytes-exact, parse_int-digits}

-- The largest binary unit that divides the number.
unfoldable pub human_text : ℕ → Text
human_text b =
    if b % 2 ^ 40 == 0
    then digits_of (b / 2 ^ 40) ++ codes "TiB"
    else if b % 2 ^ 30 == 0
    then digits_of (b / 2 ^ 30) ++ codes "GiB"
    else if b % 2 ^ 20 == 0
    then digits_of (b / 2 ^ 20) ++ codes "MiB"
    else if b % 2 ^ 10 == 0
    then digits_of (b / 2 ^ 10) ++ codes "KiB"
    else digits_of b

-- HumanFromBytes
unfoldable pub human_from_bytes : ℤ → Option Text
unfolding human_text
human_from_bytes (negsuc n) = none
human_from_bytes (pos b) = if b == 0 then none else some (human_text b)

abbrev Digits : Text → Type 0
Digits s = All (λ c. is_digit c ≡ true) s

digits_onto-Digits : (f n : ℕ) (out : Text) → Digits out → Digits (digits_onto f n out)
unfolding digits_onto
digits_onto-Digits zero n out h = h
digits_onto-Digits (suc f) n out h = elim (Bool-cases (n == 0)) [
  | inl e ↦ rw e h
  | inr e ↦
      let d : is_digit (48 + n % 10) ≡ true = unfold is_digit in ground arith in
      rw e (digits_onto-Digits f (n / 10) ((48 + n % 10) ∷ out) (d, h))
]

digits_of-Digits : (n : ℕ) → Digits (digits_of n)
unfolding digits_of
digits_of-Digits n = elim (Bool-cases (n == 0)) [
  | inl e ↦ rw e (unfold is_digit in (refl, tt))
  | inr e ↦ rw e (digits_onto-Digits n n [] tt)
]

number_from-number : (n : ℕ) (s : Text) → number_from n s ≡ number n s
unfolding number_from number
number_from-number n [] = refl
number_from-number n (c ∷ s) = number_from-number (n * 10 + (c - b'0')) s

-- A byte that is no white space.
abbrev Dense : Text → Type 0
Dense s = All (λ c. is_space c ≡ false) s

trim_left-Dense : (s : Text) → Dense s → trim_left s ≡ s
unfolding trim_left
trim_left-Dense [] h = refl
trim_left-Dense (c ∷ s) h = rw h.0 refl

Digits-Dense : (s : Text) → Digits s → Dense s
Digits-Dense [] h = tt
Digits-Dense (c ∷ s) h =
    let d = h.0 in (unfold is_digit is_space in ground arith, Digits-Dense s h.1)

trim_space-Dense : (s : Text) → Dense s → trim_space s ≡ s
unfolding trim_space
trim_space-Dense s h =
    rw (trim_left-Dense s h, trim_left-Dense (reverse s) (All-reverse _ s h)) (reverse-reverse s)

parses_with_unit :
    (s : Text) (n f c : ℕ) (v : Text)
    → Digits s
    → number 0 s ≡ n
    → 0 < n
    → n < 2 ^ 63
    → n * f < 2 ^ 63
    → is_digit c ≡ false
    → Dense (c ∷ v)
    → unit_bytes (to_upper (c ∷ v)) ≡ some f
    → parse_bytes (s ++ c ∷ v) ≡ ok (pos (n * f))
parses_with_unit [] n f c v h e l b p d w u = absurd (unfold number in omega arith)
parses_with_unit (x ∷ s) n f c v h e l b p d w u =
    let same : number_from 0 (x ∷ s) ≡ n = number_from-number 0 (x ∷ s) ∙ e in
    let dense = All-append _ (x ∷ s) (c ∷ v) (Digits-Dense (x ∷ s) h) w in
    subst (λ m. parse_bytes (x ∷ s ++ c ∷ v) ≡ ok (pos (m * f))) same
      (parse_bytes-exact (x ∷ s ++ c ∷ v) x s c v f (trim_space-Dense (x ∷ s ++ c ∷ v) dense) h d
        (subst (λ m. m < 2 ^ 63) (sym same) b) u (subst (λ m. m * f < 2 ^ 63) (sym same) p))

-- The text with one unit, of a number that the unit divides.
human_unit :
    (b f c : ℕ) (v : Text)
    → 0 < b
    → b < 2 ^ 63
    → b / f * f ≡ b
    → 0 < b / f
    → b / f ≤ b
    → is_digit c ≡ false
    → Dense (c ∷ v)
    → unit_bytes (to_upper (c ∷ v)) ≡ some f
    → parse_bytes (digits_of (b / f) ++ c ∷ v) ≡ ok (pos b)
human_unit b f c v l m whole some_left less d w u =
    parses_with_unit (digits_of (b / f)) (b / f) f c v (digits_of-Digits (b / f))
      (number-digits_of (b / f)) some_left (omega arith) (subst (λ k. k < 2 ^ 63) (sym whole) m) d w
      u
    ∙ ap (λ k. ok (pos k)) whole

-- A text of digits is read as its number.
parses_plain :
    (s : Text) (n : ℕ) → Digits s → number 0 s ≡ n → 0 < n → n < 2 ^ 63 → parse_bytes s ≡ ok (pos n)
unfolding parse_bytes text_eq
parses_plain [] n h e l b = absurd (unfold number in omega arith)
parses_plain (x ∷ s) n h e l b =
    let same : number_from 0 (x ∷ s) ≡ n = number_from-number 0 (x ∷ s) ∙ e in
    rw
      (
        trim_space-Dense (x ∷ s) (Digits-Dense (x ∷ s) h),
        parse_int-digits x s h (subst (λ m. m < 2 ^ 63) (sym same) b),
        same,
      )
      refl

parse_bytes-human_text : (b : ℕ) → 0 < b → b < 2 ^ 63 → parse_bytes (human_text b) ≡ ok (pos b)
unfolding human_text
parse_bytes-human_text b l m = elim (Bool-cases (b % 2 ^ 40 == 0)) [
  | inl e ↦ rw e (
      human_unit b (2 ^ 40) b'T' (codes "iB") l m (ground arith) (ground arith) (ground arith)
        (unfold is_digit in refl) (unfold is_space in (refl, (refl, (refl, tt))))
        (unfold unit_bytes text_eq to_upper in refl))
  | inr e ↦ elim (Bool-cases (b % 2 ^ 30 == 0)) [
    | inl k ↦
        rw (e, k)
          (human_unit b (2 ^ 30) b'G' (codes "iB") l m (ground arith) (ground arith) (ground arith)
            (unfold is_digit in refl) (unfold is_space in (refl, (refl, (refl, tt))))
            (unfold unit_bytes text_eq to_upper in refl))
    | inr k ↦ elim (Bool-cases (b % 2 ^ 20 == 0)) [
      | inl j ↦
          rw (e, k, j)
            (human_unit b (2 ^ 20) b'M' (codes "iB") l m (ground arith) (ground arith)
              (ground arith) (unfold is_digit in refl)
              (unfold is_space in (refl, (refl, (refl, tt))))
              (unfold unit_bytes text_eq to_upper in refl))
      | inr j ↦ elim (Bool-cases (b % 2 ^ 10 == 0)) [
        | inl i ↦
            rw (e, k, j, i)
              (human_unit b (2 ^ 10) b'K' (codes "iB") l m (ground arith) (ground arith)
                (ground arith) (unfold is_digit in refl)
                (unfold is_space in (refl, (refl, (refl, tt))))
                (unfold unit_bytes text_eq to_upper in refl))
        | inr i ↦
            rw (e, k, j, i)
              (parses_plain (digits_of b) b (digits_of-Digits b) (number-digits_of b) l m)
      ]
    ]
  ]
]

-- HumanFromBytes prints a text for every positive int64, and ParseBytes reads that text back as the
-- same number.
pub human_from_bytes-parse_bytes :
    (b : ℕ)
    → 0 < b
    → b < 2 ^ 63
    → (human_from_bytes (pos b) ≡ some (human_text b)) × (parse_bytes (human_text b) ≡ ok (pos b))
unfolding human_from_bytes
human_from_bytes-parse_bytes b l m =
    let some_left : (b == 0) ≡ false = ground arith in
    (rw some_left refl, parse_bytes-human_text b l m)
