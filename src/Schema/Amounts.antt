-- ===== src/Schema/Amounts.antt =====
-- What a quantity with a unit is read as (Schema/Quantity).
use proxops.Base.{
  ◌++◌, ℕ, [], ◌∷◌, ◌≡◌, Text, false, ◌<◌, true, trim_space, All, refl, ◌==◌, ◌^◌, none, text_eq,
  some, arith, to_upper, ltb, ◌*◌, ◌∙◌, ap, ◌%◌,
}
use proxops.Base.Int.{pos}
use proxops.Base.Result.{ok}
use proxops.Schema.CloneConfig.{is_digit}
use proxops.Schema.Quantity.{
  split_digits, number_from, parse_unsigned, parse_int, parse_bytes, parse_with_unit, wrap_int64,
  unit_bytes,
}

abbrev pub AllDigits : Text → Type 0
AllDigits = All (λ c. is_digit c ≡ true)

split_digits-append :
    (ds : Text) (c : ℕ) (v : Text)
    → AllDigits ds
    → is_digit c ≡ false
    → split_digits (ds ++ c ∷ v) ≡ (ds, c ∷ v)
unfolding split_digits
split_digits-append [] c v h n = rw n refl
split_digits-append (d ∷ ds) c v h n = rw (h.0, split_digits-append ds c v h.1 n) refl

split_digits-all : (ds : Text) → AllDigits ds → split_digits ds ≡ (ds, [])
unfolding split_digits
split_digits-all [] h = refl
split_digits-all (d ∷ ds) h = rw (h.0, split_digits-all ds h.1) refl

-- A digit is no sign.
digit-no_minus : (d : ℕ) → is_digit d ≡ true → (d == b'-') ≡ false
unfolding is_digit
digit-no_minus d h = ground arith

digit-no_plus : (d : ℕ) → is_digit d ≡ true → (d == b'+') ≡ false
unfolding is_digit
digit-no_plus d h = ground arith

pub parse_int-digits :
    (d : ℕ) (ds : Text)
    → AllDigits (d ∷ ds)
    → number_from 0 (d ∷ ds) < 2 ^ 63
    → parse_int (d ∷ ds) ≡ some (pos (number_from 0 (d ∷ ds)))
unfolding parse_int parse_unsigned
parse_int-digits d ds h l =
    let small : ltb (number_from 0 (d ∷ ds)) (2 ^ 63) ≡ true = ground (arith, l) in
    rw (digit-no_minus d h.0, digit-no_plus d h.0, split_digits-all (d ∷ ds) h)
      (unfold text_eq in rw small refl)

parse_int-unit :
    (d : ℕ) (ds : Text) (c : ℕ) (v : Text)
    → AllDigits (d ∷ ds)
    → is_digit c ≡ false
    → parse_int (d ∷ ds ++ c ∷ v) ≡ none
unfolding parse_int parse_unsigned
parse_int-unit d ds c v h n =
    rw (digit-no_minus d h.0, digit-no_plus d h.0, split_digits-append (d ∷ ds) c v h n)
      (unfold text_eq in refl)

-- A number below 2^63 with a unit is read as the product of the two modulo 2^64, as an int64, with
-- no error for a product that an int64 does not hold.
pub parse_bytes-wraps :
    (q : Text) (d : ℕ) (ds : Text) (c : ℕ) (v : Text) (f : ℕ)
    → trim_space q ≡ d ∷ ds ++ c ∷ v
    → AllDigits (d ∷ ds)
    → is_digit c ≡ false
    → number_from 0 (d ∷ ds) < 2 ^ 63
    → unit_bytes (to_upper (c ∷ v)) ≡ some f
    → parse_bytes q ≡ ok (wrap_int64 (number_from 0 (d ∷ ds) * f))
unfolding parse_bytes parse_with_unit
parse_bytes-wraps q d ds c v f t h n l u =
    rw
      (
        t,
        parse_int-unit d ds c v h n,
        split_digits-append (d ∷ ds) c v h n,
        parse_int-digits d ds h l,
        u,
      )
      (unfold text_eq in refl)

wrap_int64-small : (n : ℕ) → n < 2 ^ 63 → wrap_int64 n ≡ pos n
unfolding wrap_int64
wrap_int64-small n l =
    let same : n % 2 ^ 64 ≡ n = omega arith in
    let small : ltb n (2 ^ 63) ≡ true = ground arith in rw (same, small) refl

-- A number with a unit whose product is below 2^63 is read as that product, exactly.
pub parse_bytes-exact :
    (q : Text) (d : ℕ) (ds : Text) (c : ℕ) (v : Text) (f : ℕ)
    → trim_space q ≡ d ∷ ds ++ c ∷ v
    → AllDigits (d ∷ ds)
    → is_digit c ≡ false
    → number_from 0 (d ∷ ds) < 2 ^ 63
    → unit_bytes (to_upper (c ∷ v)) ≡ some f
    → number_from 0 (d ∷ ds) * f < 2 ^ 63
    → parse_bytes q ≡ ok (pos (number_from 0 (d ∷ ds) * f))
parse_bytes-exact q d ds c v f t h n l u p =
    parse_bytes-wraps q d ds c v f t h n l u
    ∙ ap ok (wrap_int64-small (number_from 0 (d ∷ ds) * f) p)
