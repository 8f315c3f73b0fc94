-- ===== src/Schema/Depends.antt =====
-- The depends-on annotation of internal/schema/types.go.
use proxops.Base.{
  ℕ, true, false, Bool, List, [], ◌∷◌, Option, none, some, Text, text_eq, trim_space, split_on, leb,
  ◌==◌, ◌&&◌, ◌||◌, if◌then◌else◌, ◌≡◌, refl, Bool-cases, false, inl, inr, ◌∙◌, sym,
}
use proxops.Base.Result.{Result, ok, err}
use proxops.Schema.Kind.{Ref, Kind, parse_kind}

pub record Dep : Type 0 where
  pub kind : Text
  pub name : Text

is_letter : ℕ → Bool
is_letter c = (leb b'A' c && leb c b'Z') || (leb b'a' c && leb c b'z')

is_digit : ℕ → Bool
is_digit c = leb b'0' c && leb c b'9'

is_name_byte : ℕ → Bool
unfolding is_letter is_digit
is_name_byte c = is_letter c || is_digit c || c == b'.' || c == b'-' || c == b'_'

-- A class of bytes, any number of times, and once or more.
filled_or_empty : (ℕ → Bool) → Text → Bool
filled_or_empty p [] = true
filled_or_empty p (c ∷ s) = p c && filled_or_empty p s

filled : (ℕ → Bool) → Text → Bool
unfolding filled_or_empty
filled p [] = false
filled p (c ∷ s) = p c && filled_or_empty p s

-- dependsRe.FindStringSubmatch: the name has no colon, so the part has exactly one.
match_parts : List Text → Option Dep
unfolding filled is_letter is_name_byte
match_parts [] = none
match_parts (k ∷ []) = none
match_parts (k ∷ n ∷ []) =
    if filled is_letter k && filled is_name_byte n
    then some (record { kind = k; name = n })
    else none
match_parts (k ∷ n ∷ o ∷ rest) = none

unfoldable pub match_depends : Text → Option Dep
unfolding match_parts split_on
match_depends part = match_parts (split_on b':' part)

-- The loop of DependsOnError over the parts; the first part that does not match is the error.
first_bad : List Text → Option Text
unfolding trim_space text_eq match_depends
first_bad [] = none
first_bad (raw ∷ parts) =
    let part = trim_space raw in
    let rest = first_bad parts in
    if text_eq part []
    then rest
    else (elim (match_depends part) [ none ↦ some part | some d ↦ rest ])

-- Metadata.DependsOnError of the annotation's value, where there is one.
unfoldable pub depends_on_error : Option Text → Option Text
unfolding first_bad split_on
depends_on_error none = none
depends_on_error (some raw) =
    if text_eq (trim_space raw) [] then none else first_bad (split_on b',' raw)

-- The loop of DependsOn.
push_dep : Dep → Result Text (List Dep) → Result Text (List Dep)
push_dep d (err e) = err e
push_dep d (ok ds) = ok (d ∷ ds)

parse_parts : List Text → Result Text (List Dep)
unfolding push_dep trim_space text_eq match_depends
parse_parts [] = ok []
parse_parts (raw ∷ parts) =
    let part = trim_space raw in
    let rest = parse_parts parts in
    if text_eq part []
    then rest
    else (elim (match_depends part) [ none ↦ err part | some d ↦ push_dep d rest ])

-- Metadata.DependsOn
unfoldable pub depends_on : Option Text → Result Text (List Dep)
unfolding parse_parts split_on
depends_on none = ok []
depends_on (some raw) =
    if text_eq (trim_space raw) [] then ok [] else parse_parts (split_on b',' raw)

-- Dep.Ref
ref_of : Text → Text → Option Kind → Ref
ref_of kind name (some k) = record { kind = k; name = name }
ref_of kind name none = record { kind = kind; name = name }

unfoldable pub dep_ref : Dep → Ref
unfolding ref_of parse_kind
dep_ref d = ref_of d.kind d.name (parse_kind d.kind)

-- The error of a result.
abbrev pub error_of : Result Text (List Dep) → Option Text
error_of (err e) = some e
error_of (ok ds) = none

error_of-push_dep : (d : Dep) (r : Result Text (List Dep)) → error_of (push_dep d r) ≡ error_of r
unfolding push_dep
error_of-push_dep d (err e) = refl
error_of-push_dep d (ok ds) = refl

first_bad-parse_parts : (parts : List Text) → first_bad parts ≡ error_of (parse_parts parts)
unfolding first_bad parse_parts
first_bad-parse_parts [] = refl
first_bad-parse_parts (raw ∷ parts) = elim (Bool-cases (text_eq (trim_space raw) [])) [
  | inl e ↦ rw e (first_bad-parse_parts parts)
  | inr e ↦ rw e (by_match (first_bad-parse_parts parts) (match_depends (trim_space raw)))
]
  where
    by_match :
        first_bad parts ≡ error_of (parse_parts parts)
        → (o : Option Dep)
        → (elim o [ none ↦ some (trim_space raw) | some d ↦ first_bad parts ])
          ≡ error_of
              (elim o [ none ↦ err (trim_space raw) | some d ↦ push_dep d (parse_parts parts) ])
    by_match e none = refl
    by_match e (some d) = e ∙ sym (error_of-push_dep d (parse_parts parts))

-- DependsOnError reports exactly the error that DependsOn returns, and none where it returns none.
pub depends_on_error-agrees : (raw : Option Text) → depends_on_error raw ≡ error_of (depends_on raw)
unfolding depends_on_error depends_on
depends_on_error-agrees none = refl
depends_on_error-agrees (some raw) = elim (Bool-cases (text_eq (trim_space raw) [])) [
  | inl e ↦ rw e refl
  | inr e ↦ rw e (first_bad-parse_parts (split_on b',' raw))
]
