-- ===== src/Schema/Quantity.antt =====
-- Human quantities: ParseBytes, MemoryMiB and FormatDiskBytes of internal/schema/quantity.go. An
-- int64 is an integer; the products of ParseBytes wrap around.
use proxops.Base.{
  ℕ, [], ◌∷◌, zero, suc, ◌%◌, Text, Option, some, if◌then◌else◌, ◌*◌, none, trim_space, ◌^◌, ltb,
  ◌==◌, text_eq, ◌+◌, leb, ◌/◌, to_upper, ◌&&◌, codes, ◌-◌, ◌||◌, digits_of, ◌++◌,
}
use proxops.Base.Int.{ℤ, pos, negsuc}
use proxops.Base.Result.{Result, ok, err}
use proxops.Schema.CloneConfig.{is_digit}

-- The int64 that a product of int64s comes to.
unfoldable pub wrap_int64 : ℕ → ℤ
wrap_int64 n = let m = n % 2 ^ 64 in if ltb m (2 ^ 63) then pos m else negsuc (2 ^ 64 - m - 1)

-- The leading digits, and what follows them.
unfoldable pub split_digits : Text → Text × Text
split_digits [] = ([], [])
split_digits (c ∷ s) =
    let (ds, rest) = split_digits s in if is_digit c then (c ∷ ds, rest) else ([], c ∷ s)

-- The number that digits stand for, behind those read.
unfoldable pub number_from : ℕ → Text → ℕ
number_from n [] = n
number_from n (c ∷ s) = number_from (n * 10 + (c - b'0')) s

-- strconv.ParseInt(s, 10, 64) of a text of digits.
unfoldable pub parse_unsigned : Text → Option ℕ
unfolding split_digits number_from
parse_unsigned [] = none
parse_unsigned (c ∷ s) =
    if text_eq (split_digits (c ∷ s)).1 [] then some (number_from 0 (c ∷ s)) else none

abbrev in_range : ℕ → ℤ → Option ℕ → Option ℤ
in_range bound z none = none
in_range bound z (some n) = if ltb n bound then some z else none

abbrev value_of : Option ℕ → ℕ
value_of none = 0
value_of (some n) = n

abbrev minus : ℕ → ℤ
minus zero = pos 0
minus (suc n) = negsuc n

-- strconv.ParseInt(s, 10, 64)
unfoldable pub parse_int : Text → Option ℤ
unfolding parse_unsigned
parse_int [] = none
parse_int (c ∷ s) =
    if c == b'-'
    then in_range (2 ^ 63 + 1) (minus (value_of (parse_unsigned s))) (parse_unsigned s)
    else if c == b'+'
    then in_range (2 ^ 63) (pos (value_of (parse_unsigned s))) (parse_unsigned s)
    else in_range (2 ^ 63) (pos (value_of (parse_unsigned (c ∷ s)))) (parse_unsigned (c ∷ s))

-- The switch on the unit.
unfoldable pub unit_bytes : Text → Option ℕ
unit_bytes u =
    if text_eq u (codes "B") || text_eq u []
    then some 1
    else if text_eq u (codes "K") || text_eq u (codes "KB")
    then some 1000
    else if text_eq u (codes "KI") || text_eq u (codes "KIB")
    then some 1024
    else if text_eq u (codes "M") || text_eq u (codes "MB")
    then some (1000 ^ 2)
    else if text_eq u (codes "MI") || text_eq u (codes "MIB")
    then some (1024 ^ 2)
    else if text_eq u (codes "G") || text_eq u (codes "GB")
    then some (1000 ^ 3)
    else if text_eq u (codes "GI") || text_eq u (codes "GIB")
    then some (1024 ^ 3)
    else if text_eq u (codes "T") || text_eq u (codes "TB")
    then some (1000 ^ 4)
    else if text_eq u (codes "TI") || text_eq u (codes "TIB")
    then some (1024 ^ 4)
    else if text_eq u (codes "P") || text_eq u (codes "PB")
    then some (1000 ^ 5)
    else if text_eq u (codes "PI") || text_eq u (codes "PIB")
    then some (1024 ^ 5)
    else none

pub data QuantityError : Type 0 where
  empty_quantity : QuantityError
  no_digit : Text → QuantityError
  bad_number : Text → QuantityError
  unknown_unit : Text → QuantityError
  not_whole_mib : Text → QuantityError

abbrev scaled : Text → ℕ → Option ℕ → Result QuantityError ℤ
scaled unit n none = err (unknown_unit unit)
scaled unit n (some f) = ok (wrap_int64 (n * f))

abbrev counted : Text → Text → Option ℤ → Result QuantityError ℤ
counted q unit (some (pos n)) = scaled unit n (unit_bytes unit)
counted q unit _ = err (bad_number q)

-- ParseBytes, behind its first strconv.ParseInt
unfoldable pub parse_with_unit : Text → Text → Result QuantityError ℤ
unfolding split_digits parse_int unit_bytes wrap_int64
parse_with_unit q t =
    let (ds, rest) = split_digits t in
    if text_eq ds [] then err (no_digit q) else counted q (to_upper rest) (parse_int ds)

abbrev parsed : Text → Text → Option ℤ → Result QuantityError ℤ
parsed q t (some v) = ok v
parsed q t none = parse_with_unit q t

-- ParseBytes
unfoldable pub parse_bytes : Text → Result QuantityError ℤ
unfolding parse_with_unit parse_int
parse_bytes q =
    let t = trim_space q in if text_eq t [] then err empty_quantity else parsed q t (parse_int t)

abbrev mib_of : Text → Result QuantityError ℤ → Result QuantityError ℤ
mib_of q (err e) = err e
mib_of q (ok (pos b)) = if b % 2 ^ 20 == 0 then ok (pos (b / 2 ^ 20)) else err (not_whole_mib q)
mib_of q (ok (negsuc b)) =
    if suc b % 2 ^ 20 == 0 then ok (minus (suc b / 2 ^ 20)) else err (not_whole_mib q)

-- MemoryMiB
unfoldable pub memory_mib : Text → Result QuantityError ℤ
unfolding parse_bytes
memory_mib q = mib_of q (parse_bytes q)

-- FormatDiskBytes, of a number that is not negative
unfoldable pub format_disk_bytes : ℕ → Text
format_disk_bytes b =
    if leb (2 ^ 30) b && b % 2 ^ 30 == 0
    then digits_of (b / 2 ^ 30) ++ codes "G"
    else if leb (2 ^ 20) b && b % 2 ^ 20 == 0
    then digits_of (b / 2 ^ 20) ++ codes "M"
    else if leb (2 ^ 10) b && b % 2 ^ 10 == 0
    then digits_of (b / 2 ^ 10) ++ codes "K"
    else digits_of b
