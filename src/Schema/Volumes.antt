-- ===== src/Schema/Volumes.antt =====
-- The nodes and the volumes of artifacts.
use proxops.Base.{
  ℕ, Bool, true, false, List, [], ◌∷◌, ◌++◌, Option, none, some, Text, text_eq, any, not, ◌||◌, ◌≡◌,
  ◌≢◌, ◌⊎◌, inl, inr, refl, All, IsIn, IsOrdered, Bool-cases, text_eq_iff, arith, ap, All-imp,
  All-both_imp,
}
use proxops.Base.Keys.{IsFree, split_unique}
use proxops.Schema.Artifact.{
  ArtifactSpec, ArtifactError, validate, volid, nodes_of, new_nodes, is_storage_id, is_name_byte,
  first_failure, checks, unless, no_storage, bad_storage, no_filename, no_url,
}

-- What is wanted of the nodes of a list that is read behind others.
record IsKept (seen given kept : List Text) : Type 0 where
  pub filled : All (λ x. (x ≢ []) × (¬ IsIn x seen)) kept
  pub distinct : IsOrdered (λ x y. x ≢ y) kept
  pub given_in : All (λ x. IsIn x given) kept
  pub all_in : All (λ x. (x ≡ []) ⊎ (IsIn x seen ⊎ IsIn x kept)) given

any-IsIn : (n : Text) (seen : List Text) → any (λ x. text_eq x n) seen ≡ true → IsIn n seen
any-IsIn n [] h = cc
any-IsIn n (x ∷ xs) h = elim (Bool-cases (text_eq x n)) [
  | inl e ↦ inl ((text_eq_iff x n).0 e)
  | inr e ↦ inr (any-IsIn n xs (rw e at h))
]

IsIn-any : (n : Text) (seen : List Text) → IsIn n seen → any (λ x. text_eq x n) seen ≡ true
IsIn-any n [] m = elim m [ ]
IsIn-any n (x ∷ xs) (inl e) = rw ((text_eq_iff x n).1 e) refl
IsIn-any n (x ∷ xs) (inr m) = let h = IsIn-any n xs m in ground (arith, h)

new_nodes-IsKept : (seen ns : List Text) → IsKept seen ns (new_nodes seen ns)
unfolding new_nodes
new_nodes-IsKept seen [] = record { filled = tt; distinct = tt; given_in = tt; all_in = tt }
new_nodes-IsKept seen (n ∷ ns) = elim (Bool-cases (text_eq n [] || any (λ x. text_eq x n) seen)) [
  | inl e ↦ rw e (dropped e (new_nodes-IsKept seen ns))
  | inr e ↦ rw e (added e (new_nodes-IsKept (n ∷ seen) ns))
]
  where
    known : text_eq n [] || any (λ x. text_eq x n) seen ≡ true → (n ≡ []) ⊎ IsIn n seen
    known e = elim (Bool-cases (text_eq n [])) [
      | inl f ↦ inl ((text_eq_iff n []).0 f)
      | inr f ↦ inr (any-IsIn n seen (rw f at e))
    ]

    dropped :
        text_eq n [] || any (λ x. text_eq x n) seen ≡ true
        → IsKept seen ns (new_nodes seen ns)
        → IsKept seen (n ∷ ns) (new_nodes seen ns)
    dropped e k = record {
      filled = k.filled;
      distinct = k.distinct;
      given_in =
          All-imp (λ x. IsIn x ns) (λ x. IsIn x (n ∷ ns)) (λ x m. inr m) (new_nodes seen ns)
            k.given_in;
      all_in = (elim (known e) [ inl f ↦ inl f | inr m ↦ inr (inl m) ], k.all_in);
    }

    added :
        text_eq n [] || any (λ x. text_eq x n) seen ≡ false
        → IsKept (n ∷ seen) ns (new_nodes (n ∷ seen) ns)
        → IsKept seen (n ∷ ns) (n ∷ new_nodes (n ∷ seen) ns)
    added e k = record {
      filled = (
        (
          (λ f. let t = (text_eq_iff n []).1 f in let c : true ≡ false = rw t at e in cc),
          (λ m. let t = IsIn-any n seen m in ground arith),
        ),
        All-imp (λ x. (x ≢ []) × (¬ IsIn x (n ∷ seen))) (λ x. (x ≢ []) × (¬ IsIn x seen))
            (λ x p. (p.0, (λ m. p.1 (inr m)))) (new_nodes (n ∷ seen) ns) k.filled,
      );
      distinct = (
        All-imp (λ x. (x ≢ []) × (¬ IsIn x (n ∷ seen))) (λ x. n ≢ x) (λ x p f. p.1 (inl f))
            (new_nodes (n ∷ seen) ns) k.filled,
        k.distinct,
      );
      given_in = (
        inl refl,
        All-imp (λ x. IsIn x ns) (λ x. IsIn x (n ∷ ns)) (λ x m. inr m) (new_nodes (n ∷ seen) ns)
            k.given_in,
      );
      all_in = (
        inr (inr (inl refl)),
        All-imp (λ x. (x ≡ []) ⊎ (IsIn x (n ∷ seen) ⊎ IsIn x (new_nodes (n ∷ seen) ns)))
            (λ x. (x ≡ []) ⊎ (IsIn x seen ⊎ IsIn x (n ∷ new_nodes (n ∷ seen) ns))) moved ns
            k.all_in,
      );
    }
      where
        moved :
            (x : Text)
            → (x ≡ []) ⊎ (IsIn x (n ∷ seen) ⊎ IsIn x (new_nodes (n ∷ seen) ns))
            → (x ≡ []) ⊎ (IsIn x seen ⊎ IsIn x (n ∷ new_nodes (n ∷ seen) ns))
        moved x (inl f) = inl f
        moved x (inr (inl (inl f))) = inr (inr (inl f))
        moved x (inr (inl (inr m))) = inr (inl m)
        moved x (inr (inr m)) = inr (inr (inr m))

-- What a manifest gives: its nodes, or the one of the older field.
abbrev pub given_nodes : (legacy : Text) (declared : List Text) → List Text
given_nodes legacy [] = legacy ∷ []
given_nodes legacy (n ∷ ns) = n ∷ ns

all_kept :
    (ns : List Text)
    → IsKept [] ns (new_nodes [] ns)
    → IsOrdered (λ x y. x ≢ y) (new_nodes [] ns)
      × All (λ x. (x ≢ []) × IsIn x ns) (new_nodes [] ns)
      × All (λ x. (x ≡ []) ⊎ IsIn x (new_nodes [] ns)) ns
all_kept ns k = (
  k.distinct,
  All-both_imp (λ x. (x ≢ []) × (¬ IsIn x [])) (λ x. IsIn x ns) (λ x. (x ≢ []) × IsIn x ns)
      (λ x p m. (p.0, m)) (new_nodes [] ns) k.filled k.given_in,
  All-imp (λ x. (x ≡ []) ⊎ (⊥ ⊎ IsIn x (new_nodes [] ns)))
      (λ x. (x ≡ []) ⊎ IsIn x (new_nodes [] ns))
      (λ x p. elim p [ inl e ↦ inl e | inr q ↦ elim q [ inl b ↦ elim b [ ] | inr m ↦ inr m ] ]) ns
      k.all_in,
)

-- The nodes of an artifact are those that the manifest gives, each one once and none empty.
pub nodes_of-IsDistinct :
    (legacy : Text) (declared : List Text)
    → let nodes = nodes_of legacy declared in
      IsOrdered (λ x y. x ≢ y) nodes
      × All (λ x. (x ≢ []) × IsIn x (given_nodes legacy declared)) nodes
      × All (λ x. (x ≡ []) ⊎ IsIn x nodes) (given_nodes legacy declared)
unfolding nodes_of
nodes_of-IsDistinct legacy [] = elim (Bool-cases (text_eq legacy [])) [
  | inl e ↦ rw e (tt, tt, (inl ((text_eq_iff legacy []).0 e), tt))
  | inr e ↦
      let filled : legacy ≢ [] = λ f. let t = (text_eq_iff legacy []).1 f in cc in
      rw e ((tt, tt), ((filled, inl refl), tt), (inr (inl refl), tt))
]
nodes_of-IsDistinct legacy (n ∷ ns) = all_kept (n ∷ ns) (new_nodes-IsKept [] (n ∷ ns))

-- Where no check fails, each one passed.
first_failure-none :
    (cs : List (Option ArtifactError)) → first_failure cs ≡ none → All (λ c. c ≡ none) cs
unfolding first_failure
first_failure-none [] h = tt
first_failure-none (none ∷ cs) h = (refl, first_failure-none cs h)
first_failure-none (some e ∷ cs) h = cc

unless-none : (b : Bool) (e : ArtifactError) → unless b e ≡ none → b ≡ true
unless-none true e h = refl
unless-none false e h = cc

-- What a validated artifact has.
pub record IsValid (content : Text) (s : ArtifactSpec) : Type 0 where
  pub storage : text_eq s.storage [] ≡ false
  pub storage_id : is_storage_id s.storage ≡ true
  pub filename : text_eq s.filename [] ≡ false
  pub url : text_eq s.url [] ≡ false

not-true : (b : Bool) → not b ≡ true → b ≡ false
not-true b h = ground arith

pub validate-IsValid :
    (content : Text) (s : ArtifactSpec) → validate content s ≡ none → IsValid content s
unfolding validate
validate-IsValid content s h =
    let (nodes, (bad, (c, (d, (e, (f, (x, (u, rest)))))))) =
      first_failure-none (checks content s) h in
    record {
      storage =
          not-true (text_eq s.storage []) (unless-none (not (text_eq s.storage [])) no_storage c);
      storage_id = unless-none (is_storage_id s.storage) (bad_storage s.storage) d;
      filename =
          not-true (text_eq s.filename [])
            (unless-none (not (text_eq s.filename [])) no_filename e);
      url = not-true (text_eq s.url []) (unless-none (not (text_eq s.url [])) no_url u);
    }

name_bytes-IsFree :
    (c : ℕ) (s : Text)
    → is_name_byte c ≡ false
    → any (λ x. not (is_name_byte x)) s ≡ false
    → IsFree c s
name_bytes-IsFree c [] n h = tt
name_bytes-IsFree c (x ∷ s) n h = elim (Bool-cases (is_name_byte x)) [
  | inl e ↦ (
    (λ q. let f : is_name_byte x ≡ is_name_byte c = ap is_name_byte q in cc),
    name_bytes-IsFree c s n (rw e at h),
  )
  | inr e ↦ let c : true ≡ false = rw e at h in cc
]

storage-IsFree : (s : Text) → is_storage_id s ≡ true → IsFree b':' s
unfolding is_storage_id
storage-IsFree s h = name_bytes-IsFree b':' s (unfold is_name_byte in refl) (ground arith)

append_cancel : (c s t : Text) → c ++ s ≡ c ++ t → s ≡ t
append_cancel [] s t e = e
append_cancel (x ∷ c) s t e = append_cancel c s t (let f : c ++ s ≡ c ++ t = cc in f)

-- Two validated artifacts of one content type with the same volume id have the same storage and the
-- same filename.
pub volid_unique :
    (content : Text) (s t : ArtifactSpec)
    → validate content s ≡ none
    → validate content t ≡ none
    → volid content s ≡ volid content t
    → (s.storage ≡ t.storage) × (s.filename ≡ t.filename)
unfolding volid
volid_unique content s t hs ht e =
    let (a, rest) =
      split_unique b':' s.storage t.storage (content ++ b'/' ∷ s.filename)
        (content ++ b'/' ∷ t.filename)
        (storage-IsFree s.storage (validate-IsValid content s hs).storage_id)
        (storage-IsFree t.storage (validate-IsValid content t ht).storage_id) e in
    let tails = append_cancel content (b'/' ∷ s.filename) (b'/' ∷ t.filename) rest in (a, cc)
