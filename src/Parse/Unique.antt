-- ===== src/Parse/Unique.antt =====
-- What a built index has no two of.
use proxops.Base.{
  sym, ◌∙◌, List, [], ◌∷◌, none, some, refl, ◌≡◌, Text, IsOrdered, inl, All, ◌⊎◌, false, inr, ◌++◌,
  ◌≢◌, arith, Bool-cases, ◌==◌, IsOrdered-append, All-imp, All-append, subst, text_eq, Option,
  text_eq_refl, true, All-both, ap, append-nil, append_assoc,
}
use proxops.Base.Assoc
use proxops.Base.Result.{Result, ok, err}
use proxops.Schema.Kind.{Ref, ref_eq}
use proxops.Schema.Resource.{Resource}
use proxops.Parse.Index.{
  Index, claim_by, with_ids, and_then, duplicate_resource, IndexError, add_resource, add_all,
  build_index, id_key, is_defined, claim_id,
}

-- Two resources with different kinds or names, that do not share a PVE id on a node.
abbrev pub IsApartFrom : Resource → Resource → Type 0
IsApartFrom r s = (ref_eq r.ref s.ref ≡ false) × ((r.id ≡ 0) ⊎ ((r.id ≢ s.id) ⊎ (r.node ≢ s.node)))

-- The id is one of those that are taken.
abbrev IsTaken : List (Text × Ref) → Resource → Type 0
IsTaken seen r = (r.id ≡ 0) ⊎ (Assoc.lookup (id_key r.node r.id) seen ≢ none)

abbrev IsSound : Index → Type 0
IsSound idx = IsOrdered IsApartFrom idx.resources × All (IsTaken idx.seen_id) idx.resources

not_defined :
    (r : Ref) (rs : List Resource) → is_defined r rs ≡ false → All (λ x. ref_eq x.ref r ≡ false) rs
unfolding is_defined
not_defined r [] h = tt
not_defined r (x ∷ rs) h = (ground (arith, h), not_defined r rs (ground (arith, h)))

taken_apart :
    (r x : Resource) (seen : List (Text × Ref))
    → Assoc.lookup (id_key r.node r.id) seen ≡ none
    → (ref_eq x.ref r.ref ≡ false) × IsTaken seen x
    → IsApartFrom x r
taken_apart r x seen l (f, inl z) = (f, inl z)
taken_apart r x seen l (f, inr t) = (
  f,
  inr (elim (Bool-cases (x.id == r.id)) [
    | inr n ↦ inl (λ e. ground (arith, n, e))
    | inl i ↦ inr (λ e.
        let same : x.id ≡ r.id = ground (arith, i) in
        let key : id_key x.node x.id ≡ id_key r.node r.id = cc in t (rw key l))
  ]),
)

free_apart : (r x : Resource) → r.id ≡ 0 → ref_eq x.ref r.ref ≡ false → IsApartFrom x r
free_apart r x z f = (
  f,
  elim (Bool-cases (x.id == 0)) [
    | inl e ↦ inl (ground (arith, e))
    | inr n ↦ inr (inl (λ e. ground (arith, n, z, e)))
  ],
)

-- A further claim leaves the ids that are taken.
kept :
    (k : Text) (v : Ref) (seen : List (Text × Ref)) (x : Resource)
    → IsTaken seen x
    → IsTaken ((k, v) ∷ seen) x
kept k v seen x (inl z) = inl z
kept k v seen x (inr t) = inr (λ e. elim (Bool-cases (text_eq k (id_key x.node x.id))) [
  | inl b ↦ let c : some v ≡ none = sym (at_front b) ∙ e in cc
  | inr b ↦ t (sym (behind b) ∙ e)
])
  where
    at_front :
        text_eq k (id_key x.node x.id) ≡ true
        → Assoc.lookup (id_key x.node x.id) ((k, v) ∷ seen) ≡ some v
    at_front b = Assoc.lookup-insert k (id_key x.node x.id) v seen ∙ rw b refl

    behind :
        text_eq k (id_key x.node x.id) ≡ false
        → Assoc.lookup (id_key x.node x.id) ((k, v) ∷ seen) ≡ Assoc.lookup (id_key x.node x.id) seen
    behind b = Assoc.lookup-insert k (id_key x.node x.id) v seen ∙ rw b refl

abbrev success : Index → Result IndexError Index
success x = ok x

made : (x y : Index) → success x ≡ success y → x ≡ y
made x y e = cc

added :
    (r : Resource) (idx : Index) (seen : List (Text × Ref))
    → IsOrdered IsApartFrom idx.resources
    → All (λ x. IsApartFrom x r) idx.resources
    → All (IsTaken seen) idx.resources
    → IsTaken seen r
    → IsSound (record { resources = idx.resources ++ r ∷ []; seen_id = seen })
added r idx seen o a t n = (
  IsOrdered-append IsApartFrom idx.resources (r ∷ []) o (tt, tt)
      (All-imp (λ x. IsApartFrom x r) (λ x. IsApartFrom x r × Unit) (λ x p. (p, tt)) idx.resources
        a),
  All-append (IsTaken seen) idx.resources (r ∷ []) t (n, tt),
)

module _ (r : Resource) (idx : Index) (h : IsSound idx) where
  claim_by-IsSound :
      (o : Option Ref)
      → Assoc.lookup (id_key r.node r.id) idx.seen_id ≡ o
      → All (λ x. ref_eq x.ref r.ref ≡ false) idx.resources
      → (next : Index) → with_ids r idx (claim_by r idx.seen_id o) ≡ ok next
      → IsSound next
  claim_by-IsSound (some owner) l f next e = cc
  claim_by-IsSound none l f next e =
      let seen = (id_key r.node r.id, r.ref) ∷ idx.seen_id in
      let new_key : Assoc.lookup (id_key r.node r.id) seen ≡ some r.ref =
        Assoc.lookup-insert (id_key r.node r.id) (id_key r.node r.id) r.ref idx.seen_id
        ∙ rw text_eq_refl refl in
      let sound =
        added r idx seen h.0
          (All-imp (λ x. (ref_eq x.ref r.ref ≡ false) × IsTaken idx.seen_id x)
            (λ x. IsApartFrom x r) (λ x p. taken_apart r x idx.seen_id l p) idx.resources
            (All-both (λ x. ref_eq x.ref r.ref ≡ false) (IsTaken idx.seen_id) idx.resources f h.1))
          (All-imp (IsTaken idx.seen_id) (IsTaken seen)
            (λ x p. kept (id_key r.node r.id) r.ref idx.seen_id x p) idx.resources h.1)
          (inr (λ q. let c : some r.ref ≡ none = sym new_key ∙ q in cc)) in
      subst IsSound (made (record { resources = idx.resources ++ r ∷ []; seen_id = seen }) next e)
        sound

  add_resource-IsSound : (next : Index) → add_resource r idx ≡ ok next → IsSound next
  unfolding add_resource claim_id
  add_resource-IsSound next e = elim (Bool-cases (is_defined r.ref idx.resources)) [
    | inl d ↦ let c : err (duplicate_resource r.ref) ≡ ok next = rw d at e in cc
    | inr d ↦
        let f = not_defined r.ref idx.resources d in
        elim (Bool-cases (r.id == 0)) [
          | inr z ↦
              claim_by-IsSound (Assoc.lookup (id_key r.node r.id) idx.seen_id) refl f next
                (rw (d, z) at e)
          | inl z ↦
              let zero_id : r.id ≡ 0 = ground (arith, z) in
              subst IsSound
                (made (record { resources = idx.resources ++ r ∷ []; seen_id = idx.seen_id }) next
                  (rw (d, z) at e))
                (added r idx idx.seen_id h.0
                  (All-imp (λ x. ref_eq x.ref r.ref ≡ false) (λ x. IsApartFrom x r)
                    (λ x p. free_apart r x zero_id p) idx.resources f)
                  h.1 (inl zero_id))
        ]
  ]

and_then-IsSound :
    (rs : List Resource) (next : Index) (x : Result IndexError Index)
    → ((n : Index) → x ≡ success n → IsSound n)
    → ((n : Index) → IsSound n → add_all rs n ≡ success next → IsSound next)
    → and_then x (λ n. add_all rs n) ≡ success next
    → IsSound next
and_then-IsSound rs next (err f) step more e = cc
and_then-IsSound rs next (ok n) step more e = more n (step n refl) e

add_all-IsSound :
    (rs : List Resource) (idx next : Index)
    → IsSound idx
    → add_all rs idx ≡ success next
    → IsSound next
unfolding add_all
add_all-IsSound [] idx next h e = subst IsSound (made idx next e) h
add_all-IsSound (r ∷ rs) idx next h e =
    and_then-IsSound rs next (add_resource r idx) (add_resource-IsSound r idx h)
      (λ n k q. add_all-IsSound rs n next k q) e

with_ids-resources :
    (r : Resource) (idx n : Index) (x : Result IndexError (List (Text × Ref)))
    → with_ids r idx x ≡ success n
    → n.resources ≡ idx.resources ++ r ∷ []
with_ids-resources r idx n (err f) e = cc
with_ids-resources r idx n (ok seen) e =
    ap (λ (y : Index). y.resources)
      (sym (made (record { resources = idx.resources ++ r ∷ []; seen_id = seen }) n e))

add_resource-resources :
    (r : Resource) (idx n : Index)
    → add_resource r idx ≡ success n
    → n.resources ≡ idx.resources ++ r ∷ []
unfolding add_resource
add_resource-resources r idx n e = elim (Bool-cases (is_defined r.ref idx.resources)) [
  | inl d ↦ let c : err (duplicate_resource r.ref) ≡ success n = rw d at e in cc
  | inr d ↦ with_ids-resources r idx n (claim_id r idx.seen_id) (rw d at e)
]

and_then-resources :
    (r : Resource) (rs : List Resource) (idx next : Index) (x : Result IndexError Index)
    → ((n : Index) → x ≡ success n → n.resources ≡ idx.resources ++ r ∷ [])
    → ((n : Index) → add_all rs n ≡ success next → next.resources ≡ n.resources ++ rs)
    → and_then x (λ n. add_all rs n) ≡ success next
    → next.resources ≡ idx.resources ++ r ∷ rs
and_then-resources r rs idx next (err f) step more e = cc
and_then-resources r rs idx next (ok n) step more e =
    more n e ∙ ap (λ l. l ++ rs) (step n refl) ∙ append_assoc idx.resources (r ∷ []) rs

add_all-resources :
    (rs : List Resource) (idx next : Index)
    → add_all rs idx ≡ success next
    → next.resources ≡ idx.resources ++ rs
unfolding add_all
add_all-resources [] idx next e =
    ap (λ (y : Index). y.resources) (sym (made idx next e)) ∙ sym (append-nil idx.resources)
add_all-resources (r ∷ rs) idx next e =
    and_then-resources r rs idx next (add_resource r idx) (add_resource-resources r idx)
      (λ n q. add_all-resources rs n next q) e

-- An index that is built has the resources of its files, in their order, of which no two have one
-- kind and name, and no two that have a PVE id have the same on one node.
pub build_index-IsApartFrom :
    (rs : List Resource) (idx : Index)
    → build_index rs ≡ ok idx
    → (idx.resources ≡ rs) × IsOrdered IsApartFrom rs
unfolding build_index
build_index-IsApartFrom rs idx e =
    let start : Index = record { resources = []; seen_id = [] } in
    let same : idx.resources ≡ rs = add_all-resources rs start idx e in
    (same, subst (IsOrdered IsApartFrom) same (add_all-IsSound rs start idx (tt, tt) e).0)
