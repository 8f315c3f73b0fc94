-- ===== src/Base/Sort.antt =====
-- Insertion sort, as the source writes it for its slices and as Go's `sort` package sorts a short
-- slice: each element in turn moves left over its predecessors while it is less than they.
use mathlib.Core.Bool.{Bool, true, false}
use mathlib.Core.Logic.{inl, inr, ◌⊎◌}
use mathlib.Core.List.{List, [], ◌∷◌, ◌++◌, reverse, Perm, reverse_perm, perm_middle, append-nil}
use mathlib.Core.List.Perm
use Prim.Native.Nat.{ℕ, ◌+◌}
use mathlib.Core.Path.{◌≡◌, refl}
use mathlib.Core.List.{reverse-cons}
use native.Mathlib.Omega.{arith}
use proxops.Base.Tests.{if◌then◌else◌, Bool-cases}
use proxops.Base.Lists.{
  length, filter, All, All-imp, All-reverse, IsOrdered, IsOrdered-reverse, Any, Any-append_right,
  Any-append_left, IsOrdered-imp, All-both, All-of_forall,
}

module _ {ℓ} {A : Type ℓ} (less : A → A → Bool) where
  -- The inner loop, over the sorted part from its right end.
  unfoldable pub sift : A → List A → List A
  sift x [] = x ∷ []
  sift x (y ∷ ys) = if less x y then y ∷ sift x ys else x ∷ y ∷ ys

  -- The outer loop: the sorted part backwards, and what is left.
  unfoldable pub sort_onto : List A → List A → List A
  sort_onto done [] = done
  sort_onto done (x ∷ xs) = sort_onto (sift x done) xs

  unfoldable pub insertion_sort : List A → List A
  unfolding sift sort_onto
  insertion_sort xs = reverse (sort_onto [] xs)

  sift-perm : (x : A) (ys : List A) → Perm (sift x ys) (x ∷ ys)
  unfolding sift
  sift-perm x [] = Perm.refl (x ∷ [])
  sift-perm x (y ∷ ys) = elim (Bool-cases (less x y)) [
    | inl h ↦ rw h (Perm.trans (Perm.cons y (sift-perm x ys)) (Perm.swap x y ys))
    | inr h ↦ rw h (Perm.refl (x ∷ y ∷ ys))
  ]

  sort_onto-perm : (done xs : List A) → Perm (sort_onto done xs) (xs ++ done)
  unfolding sort_onto
  sort_onto-perm done [] = Perm.refl done
  sort_onto-perm done (x ∷ xs) =
      Perm.trans (sort_onto-perm (sift x done) xs)
        (Perm.trans (Perm.append_left xs (sift-perm x done)) (perm_middle xs done))

  -- Sorting permutes.
  pub insertion_sort-perm : (xs : List A) → Perm (insertion_sort xs) xs
  unfolding insertion_sort
  insertion_sort-perm xs =
      Perm.trans (reverse_perm (sort_onto [] xs)) (rw append-nil at (sort_onto-perm [] xs))

module _ {ℓ κ} {A : Type ℓ} (less : A → A → Bool) (P : A → Type κ) where
  All-sift : (x : A) (ys : List A) → P x → All P ys → All P (sift less x ys)
  unfolding sift
  All-sift x [] p h = (p, tt)
  All-sift x (y ∷ ys) p h = elim (Bool-cases (less x y)) [
    | inl e ↦ rw e (h.0, All-sift x ys p h.1)
    | inr e ↦ rw e (p, h)
  ]

  All-sort_onto : (done xs : List A) → All P done → All P xs → All P (sort_onto less done xs)
  unfolding sort_onto
  All-sort_onto done [] d h = d
  All-sort_onto done (x ∷ xs) d h = All-sort_onto (sift less x done) xs (All-sift x done h.0 d) h.1

  -- What holds of every element still does.
  pub All-insertion_sort : (xs : List A) → All P xs → All P (insertion_sort less xs)
  unfolding insertion_sort
  All-insertion_sort xs h = All-reverse P (sort_onto less [] xs) (All-sort_onto [] xs tt h)

module _ {A : Type 0} (less : A → A → Bool) (P : A → Type 0) where
  Any-reverse : (xs : List A) → Any P xs → Any P (reverse xs)
  Any-reverse [] m = elim m [ ]
  Any-reverse (x ∷ xs) (inl e) = rw reverse-cons (Any-append_right P (reverse xs) (x ∷ []) (inl e))
  Any-reverse (x ∷ xs) (inr m) =
      rw reverse-cons (Any-append_left P (reverse xs) (x ∷ []) (Any-reverse xs m))

  Any-sift : (x : A) (ys : List A) → P x ⊎ Any P ys → Any P (sift less x ys)
  unfolding sift
  Any-sift x [] m = m
  Any-sift x (y ∷ ys) m = elim (Bool-cases (less x y)) [
    | inl e ↦ rw e (elim m [
      | inl h ↦ inr (Any-sift x ys (inl h))
      | inr (inl h) ↦ inl h
      | inr (inr h) ↦ inr (Any-sift x ys (inr h))
    ])
    | inr e ↦ rw e m
  ]

  Any-sort_onto : (done xs : List A) → Any P done ⊎ Any P xs → Any P (sort_onto less done xs)
  unfolding sort_onto
  Any-sort_onto done [] (inl m) = m
  Any-sort_onto done [] (inr m) = elim m [ ]
  Any-sort_onto done (x ∷ xs) (inl m) =
      Any-sort_onto (sift less x done) xs (inl (Any-sift x done (inr m)))
  Any-sort_onto done (x ∷ xs) (inr (inl h)) =
      Any-sort_onto (sift less x done) xs (inl (Any-sift x done (inl h)))
  Any-sort_onto done (x ∷ xs) (inr (inr m)) = Any-sort_onto (sift less x done) xs (inr m)

  -- What some element has, some element still has.
  pub Any-insertion_sort : (xs : List A) → Any P xs → Any P (insertion_sort less xs)
  unfolding insertion_sort
  Any-insertion_sort xs m = Any-reverse (sort_onto less [] xs) (Any-sort_onto [] xs (inr m))

-- What sorting by `less` puts in order: a transitive relation that `less` decides one way or the
-- other. It may be coarser than `less`.
pub record Decides {ℓ κ} {A : Type ℓ} (less : A → A → Bool) (R : A → A → Type κ)
    : Type (ℓ ⊔ κ) where
  pub of_less : (x y : A) → less x y ≡ true → R x y
  pub of_not_less : (x y : A) → less x y ≡ false → R y x
  pub r_trans : (x y z : A) → R x y → R y z → R x z

module _ {ℓ κ} {A : Type ℓ} (less : A → A → Bool) (R : A → A → Type κ) (d : Decides less R) where
  sift-IsOrdered :
      (x : A) (ys : List A)
      → IsOrdered (λ a b. R b a) ys
      → IsOrdered (λ a b. R b a) (sift less x ys)
  unfolding sift
  sift-IsOrdered x [] h = (tt, tt)
  sift-IsOrdered x (y ∷ ys) h = elim (Bool-cases (less x y)) [
    | inl e ↦ rw e (All-sift less (λ z. R z y) x ys (d.of_less x y e) h.0, sift-IsOrdered x ys h.1)
    | inr e ↦
        let r = d.of_not_less x y e in
        rw e ((r, All-imp (λ z. R z y) (λ z. R z x) (λ z q. d.r_trans z y x q r) ys h.0), h)
  ]

  sort_onto-IsOrdered :
      (done xs : List A)
      → IsOrdered (λ a b. R b a) done
      → IsOrdered (λ a b. R b a) (sort_onto less done xs)
  unfolding sort_onto
  sort_onto-IsOrdered done [] h = h
  sort_onto-IsOrdered done (x ∷ xs) h =
      sort_onto-IsOrdered (sift less x done) xs (sift-IsOrdered x done h)

  -- The sorted slice is in order.
  pub insertion_sort-IsOrdered : (xs : List A) → IsOrdered R (insertion_sort less xs)
  unfolding insertion_sort
  insertion_sort-IsOrdered xs =
      IsOrdered-reverse R (sort_onto less [] xs) (sort_onto-IsOrdered [] xs tt)

-- Sorting keeps how many elements pass a test.
module _ {ℓ} {A : Type ℓ} (less : A → A → Bool) (p : A → Bool) where
  abbrev pub passing : List A → ℕ
  passing xs = length (filter p xs)

  pub passing-append : (xs ys : List A) → passing (xs ++ ys) ≡ passing xs + passing ys
  passing-append [] ys = omega arith
  passing-append (x ∷ xs) ys = ground (arith, passing-append xs ys)

  passing-reverse : (xs : List A) → passing (reverse xs) ≡ passing xs
  passing-reverse [] = refl
  passing-reverse (x ∷ xs) =
      rw reverse-cons (ground (arith, passing-append (reverse xs) (x ∷ []), passing-reverse xs))

  passing-sift : (x : A) (ys : List A) → passing (sift less x ys) ≡ passing (x ∷ ys)
  unfolding sift
  passing-sift x [] = refl
  passing-sift x (y ∷ ys) = elim (Bool-cases (less x y)) [
    | inl e ↦ rw e (ground (arith, passing-sift x ys))
    | inr e ↦ rw e refl
  ]

  passing-sort_onto :
      (done xs : List A) → passing (sort_onto less done xs) ≡ passing done + passing xs
  unfolding sort_onto
  passing-sort_onto done [] = omega arith
  passing-sort_onto done (x ∷ xs) =
      ground (arith, passing-sort_onto (sift less x done) xs, passing-sift x done)

  pub passing-insertion_sort : (xs : List A) → passing (insertion_sort less xs) ≡ passing xs
  unfolding insertion_sort
  passing-insertion_sort xs =
      omega (arith, passing-reverse (sort_onto less [] xs), passing-sort_onto [] xs)

-- A symmetric relation between any two elements still is one after sorting.
module _ {A : Type 0} (less : A → A → Bool) (S : A → A → Type 0)
    (s : (x y : A) → S x y → S y x) where
  sift-IsOrdered_sym :
      (x : A) (ys : List A) → All (S x) ys → IsOrdered S ys → IsOrdered S (sift less x ys)
  unfolding sift
  sift-IsOrdered_sym x [] a h = (tt, tt)
  sift-IsOrdered_sym x (y ∷ ys) a h = elim (Bool-cases (less x y)) [
    | inl e ↦ rw e ((All-sift less (S y) x ys (s x y a.0) h.0, sift-IsOrdered_sym x ys a.1 h.1))
    | inr e ↦ rw e ((a, h))
  ]

  sort_onto-IsOrdered_sym :
      (done xs : List A)
      → IsOrdered S done
      → All (λ x. All (S x) done) xs
      → IsOrdered S xs
      → IsOrdered S (sort_onto less done xs)
  unfolding sort_onto
  sort_onto-IsOrdered_sym done [] d a h = d
  sort_onto-IsOrdered_sym done (x ∷ xs) d a h =
      sort_onto-IsOrdered_sym (sift less x done) xs (sift-IsOrdered_sym x done a.0 d)
        (All-imp (λ y. All (S y) done × S x y) (λ y. All (S y) (sift less x done))
          (λ y m. All-sift less (S y) x done (s x y m.1) m.0) xs
          (All-both (λ y. All (S y) done) (S x) xs a.1 h.0))
        h.1

  pub insertion_sort-IsOrdered_sym :
      (xs : List A) → IsOrdered S xs → IsOrdered S (insertion_sort less xs)
  unfolding insertion_sort
  insertion_sort-IsOrdered_sym xs h = IsOrdered-reverse S (sort_onto less [] xs) (
      IsOrdered-imp S (λ x y. S y x) s (sort_onto less [] xs)
        (sort_onto-IsOrdered_sym [] xs tt (All-of_forall (λ x. All (S x) []) (λ x. tt) xs) h))
