-- ===== src/Reconcile/Nodes.antt =====
-- checkNodeAllowlist of internal/reconcile/reconcile.go.
use proxops.Base.{
  Bool, true, false, List, [], ◌∷◌, Option, none, some, Text, text_eq, any, not, ◌&&◌,
  if◌then◌else◌, ◌≡◌, ◌⊎◌, refl, inl, inr, All, IsIn, Bool-cases, Any-imp, any→Any, text_eq_iff,
}
use proxops.Schema.Kind.{Ref}
use proxops.Schema.Resource.{Resource}

-- A manifest with a node outside the allowlist.
pub record Stray : Type 0 where
  pub ref : Ref
  pub node : Text

-- node != "" && !allowed[node]
unfoldable pub is_stray : List Text → Text → Bool
is_stray allowed node = not (text_eq node []) && not (any (λ n. text_eq n node) allowed)

-- The loop over a manifest's nodes.
unfoldable pub stray_node : List Text → List Text → Option Text
unfolding is_stray
stray_node allowed [] = none
stray_node allowed (n ∷ ns) =
    let later = stray_node allowed ns in if is_stray allowed n then some n else later

abbrev pub stray_of : Ref → Option Text → Option Stray → Option Stray
stray_of r (some n) later = some (record { ref = r; node = n })
stray_of r none later = later

unfoldable pub first_stray : List Text → List Resource → Option Stray
unfolding stray_node
first_stray allowed [] = none
first_stray allowed (r ∷ rs) = stray_of r.ref (stray_node allowed r.nodes) (first_stray allowed rs)

-- checkNodeAllowlist
unfoldable pub check_node_allowlist : List Text → List Resource → Option Stray
unfolding first_stray
check_node_allowlist [] rs = none
check_node_allowlist (a ∷ allowed) rs = first_stray (a ∷ allowed) rs

-- A node that the check accepts: none, or one of the list.
abbrev pub IsListed : List Text → Text → Type 0
IsListed allowed node = (node ≡ []) ⊎ IsIn node allowed

is_stray-false :
    (allowed : List Text) (node : Text) → is_stray allowed node ≡ false → IsListed allowed node
unfolding is_stray
is_stray-false allowed node h = elim (Bool-cases (text_eq node [])) [
  | inl e ↦ inl ((text_eq_iff node []).0 e)
  | inr e ↦ elim (Bool-cases (any (λ n. text_eq n node) allowed)) [
    | inl a ↦ inr (
        Any-imp (λ n. text_eq n node ≡ true) (λ n. n ≡ node) (λ n q. (text_eq_iff n node).0 q)
          allowed (any→Any (λ n. text_eq n node) allowed a))
    | inr a ↦ let c : true ≡ false = rw (e, a) at h in cc
  ]
]

stray_node-none :
    (allowed ns : List Text) → stray_node allowed ns ≡ none → All (IsListed allowed) ns
unfolding stray_node
stray_node-none allowed [] h = tt
stray_node-none allowed (n ∷ ns) h = elim (Bool-cases (is_stray allowed n)) [
  | inl e ↦ let c : some n ≡ none = rw e at h in cc
  | inr e ↦ (is_stray-false allowed n e, stray_node-none allowed ns (rw e at h))
]

stray_of-none :
    (r : Ref) (o : Option Text) (later : Option Stray)
    → stray_of r o later ≡ none
    → (o ≡ none) × (later ≡ none)
stray_of-none r none later h = (refl, h)
stray_of-none r (some n) later h = cc

pub first_stray-none :
    (allowed : List Text) (rs : List Resource)
    → first_stray allowed rs ≡ none
    → All (λ r. All (IsListed allowed) r.nodes) rs
unfolding first_stray
first_stray-none allowed [] h = tt
first_stray-none allowed (r ∷ rs) h =
    let (a, b) = stray_of-none r.ref (stray_node allowed r.nodes) (first_stray allowed rs) h in
    (stray_node-none allowed r.nodes a, first_stray-none allowed rs b)
