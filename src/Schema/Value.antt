-- ===== src/Schema/Value.antt =====
-- PVE configuration maps as Go's encoding/json decodes them into map[string]any, the readings that
-- internal/plan/plan.go makes of them, and the ownership tag of internal/schema/vm.go.
use proxops.Base.{
  ℕ, ◌^◌, Bool, false, ◌||◌, Option, none, some, List, [], Text, codes, text_eq, split_on,
  trim_space, any,
}
use proxops.Base.Assoc
use proxops.Base.Int.{ℤ, pos, int_eq}

-- A value of type `any`. `float64 m e` is the decimal m / 10^e that the wire shows.
mutual
  pub data Value : Type 0 where
    null : Value
    bool : Bool → Value
    str : Text → Value
    int int64 : ℤ → Value
    float64 : ℤ → ℕ → Value
    array : Values → Value

  pub data Values : Type 0 where
    nil : Values
    cons : Value → Values → Values

-- map[string]any; the maps that a manifest builds for PVE.
abbrev pub Params : Type 0
Params = List (Text × Value)

-- A configuration that PVE returned: a map, or Go's nil map.
abbrev pub Config : Type 0
Config = Option Params

-- v, ok := cfg[k]
unfoldable pub get : Text → Config → Option Value
unfolding Assoc.lookup
get k none = none
get k (some m) = Assoc.lookup k m

abbrev pub pve_ownership_tag : Text
pve_ownership_tag = codes "proxops"

has_tag_values : Text → Values → Bool
has_tag_values t nil = false
has_tag_values t (cons (str s) vs) = text_eq s t || has_tag_values t vs
has_tag_values t (cons _ vs) = has_tag_values t vs

has_tag_value : Text → Option Value → Bool
unfolding has_tag_values
has_tag_value t (some (array vs)) = has_tag_values t vs
has_tag_value t (some (str s)) = any (λ part. text_eq (trim_space part) t) (split_on b',' s)
has_tag_value t _ = false

-- HasTag: whether the tags value, an array or a comma-separated text, contains `t`.
unfoldable pub has_tag : Config → Text → Bool
unfolding has_tag_value
has_tag cfg t = has_tag_value t (get (codes "tags") cfg)

template_value : Option Value → Bool
template_value (some (str s)) = text_eq s (codes "1") || text_eq s (codes "true")
template_value (some (int n)) = int_eq n (pos 1)
template_value (some (int64 n)) = int_eq n (pos 1)
template_value (some (float64 m e)) = int_eq m (pos (10 ^ e))
template_value _ = false

-- isPVETemplate: whether the configuration has template=1.
unfoldable pub is_pve_template : Config → Bool
unfolding template_value
is_pve_template cfg = template_value (get (codes "template") cfg)

-- s, _ := v.(string)
unfoldable pub string_or_empty : Option Value → Text
string_or_empty (some (str s)) = s
string_or_empty _ = []

-- name, _ := cfg["name"].(string)
unfoldable pub name_of : Config → Text
unfolding string_or_empty
name_of cfg = string_or_empty (get (codes "name") cfg)
