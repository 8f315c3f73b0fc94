-- ===== src/Base/Lists.antt =====
-- Lists measured by native numbers, and predicates on their members.
use Prim.Native.Nat.{ℕ, zero, suc, ◌+◌, ◌≤◌}
use mathlib.Core.Path.{◌≡◌, refl, ap, subst, sym}
use mathlib.Core.Bool.{Bool, true, false, ◌||◌}
use mathlib.Core.Logic.{◌⊎◌, inl, inr, ◌↔◌}
use mathlib.Core.List.{List, [], ◌∷◌, ◌++◌, reverse, reverse-cons}
use native.Mathlib.Omega.{arith}
use proxops.Base.Tests.{if◌then◌else◌, Bool-cases}

module _ {ℓ} {A : Type ℓ} where
  abbrev pub length : List A → ℕ
  length [] = 0
  length (x ∷ xs) = suc (length xs)

  abbrev pub take : ℕ → List A → List A
  take zero xs = []
  take (suc n) [] = []
  take (suc n) (x ∷ xs) = x ∷ take n xs

  abbrev pub drop : ℕ → List A → List A
  drop zero xs = xs
  drop (suc n) [] = []
  drop (suc n) (x ∷ xs) = drop n xs

  -- The elements that pass a test; a loop that appends to a fresh slice.
  abbrev pub filter : (A → Bool) → List A → List A
  filter p [] = []
  filter p (x ∷ xs) = let rest = filter p xs in if p x then x ∷ rest else rest

  -- A loop that returns true at the first element that passes.
  abbrev pub any : (A → Bool) → List A → Bool
  any p [] = false
  any p (x ∷ xs) = p x || any p xs

  pub length-append : (xs ys : List A) → length (xs ++ ys) ≡ length xs + length ys
  length-append [] ys = omega arith
  length-append (x ∷ xs) ys = omega (arith, length-append xs ys)

  pub any-append : (p : A → Bool) (xs ys : List A) → any p (xs ++ ys) ≡ (any p xs || any p ys)
  any-append p [] ys = refl
  any-append p (x ∷ xs) ys = ground (arith, any-append p xs ys)

  pub length-take_le : (n : ℕ) (xs : List A) → length (take n xs) ≤ n
  length-take_le zero xs = omega arith
  length-take_le (suc n) [] = omega arith
  length-take_le (suc n) (x ∷ xs) = omega (arith, length-take_le n xs)

  pub take-append-drop : (n : ℕ) (xs : List A) → take n xs ++ drop n xs ≡ xs
  take-append-drop zero xs = refl
  take-append-drop (suc n) [] = refl
  take-append-drop (suc n) (x ∷ xs) = ap (λ l. x ∷ l) (take-append-drop n xs)

  pub length-filter_le : (p : A → Bool) (xs : List A) → length (filter p xs) ≤ length xs
  length-filter_le p [] = omega arith
  length-filter_le p (x ∷ xs) = ground (arith, length-filter_le p xs)

module _ {ℓ κ} {A : Type ℓ} where
  -- Every member has the property; computes to a tuple.
  abbrev pub All : (A → Type κ) → List A → Type κ
  All Q [] = Unit
  All Q (a ∷ rest) = Q a × All Q rest

  -- Of any two members, the one in front is related to the other; computes to a tuple.
  abbrev pub IsOrdered : (A → A → Type κ) → List A → Type κ
  IsOrdered R [] = Unit
  IsOrdered R (x ∷ xs) = All (R x) xs × IsOrdered R xs

  pub All-append :
      (P : A → Type κ) (front back : List A) → All P front → All P back → All P (front ++ back)
  All-append P [] back f b = b
  All-append P (a ∷ front) back f b = (f.0, All-append P front back f.1 b)

  pub All-append_left : (P : A → Type κ) (xs ys : List A) → All P (xs ++ ys) → All P xs
  All-append_left P [] ys h = tt
  All-append_left P (x ∷ xs) ys h = (h.0, All-append_left P xs ys h.1)

  pub All-append_right : (P : A → Type κ) (xs ys : List A) → All P (xs ++ ys) → All P ys
  All-append_right P [] ys h = h
  All-append_right P (x ∷ xs) ys h = All-append_right P xs ys h.1

  pub All-reverse : (P : A → Type κ) (xs : List A) → All P xs → All P (reverse xs)
  All-reverse P [] h = tt
  All-reverse P (x ∷ xs) h =
      rw reverse-cons (All-append P (reverse xs) (x ∷ []) (All-reverse P xs h.1) (h.0, tt))

  pub All-take : (P : A → Type κ) (n : ℕ) (xs : List A) → All P xs → All P (take n xs)
  All-take P zero xs h = tt
  All-take P (suc n) [] h = tt
  All-take P (suc n) (x ∷ xs) h = (h.0, All-take P n xs h.1)

  pub All-drop : (P : A → Type κ) (n : ℕ) (xs : List A) → All P xs → All P (drop n xs)
  All-drop P zero xs h = h
  All-drop P (suc n) [] h = tt
  All-drop P (suc n) (x ∷ xs) h = All-drop P n xs h.1

  pub All-filter : (P : A → Type κ) (p : A → Bool) (xs : List A) → All P xs → All P (filter p xs)
  All-filter P p [] h = tt
  All-filter P p (x ∷ xs) h = elim (Bool-cases (p x)) [
    | inl e ↦ rw e (h.0, All-filter P p xs h.1)
    | inr e ↦ rw e (All-filter P p xs h.1)
  ]

  pub All-imp : (P Q : A → Type κ) (f : (x : A) → P x → Q x) (xs : List A) → All P xs → All Q xs
  All-imp P Q f [] h = tt
  All-imp P Q f (x ∷ xs) h = (f x h.0, All-imp P Q f xs h.1)

  pub All-of_forall : (P : A → Type κ) (f : (x : A) → P x) (xs : List A) → All P xs
  All-of_forall P f [] = tt
  All-of_forall P f (x ∷ xs) = (f x, All-of_forall P f xs)

  pub IsOrdered-append :
      (R : A → A → Type κ) (xs ys : List A)
      → IsOrdered R xs
      → IsOrdered R ys
      → All (λ x. All (R x) ys) xs
      → IsOrdered R (xs ++ ys)
  IsOrdered-append R [] ys hx hy c = hy
  IsOrdered-append R (x ∷ xs) ys hx hy c =
      (All-append (R x) xs ys hx.0 c.0, IsOrdered-append R xs ys hx.1 hy c.1)

  pub IsOrdered-reverse :
      (R : A → A → Type κ) (xs : List A) → IsOrdered (λ a b. R b a) xs → IsOrdered R (reverse xs)
  IsOrdered-reverse R [] h = tt
  IsOrdered-reverse R (x ∷ xs) h = rw reverse-cons (
      IsOrdered-append R (reverse xs) (x ∷ []) (IsOrdered-reverse R xs h.1) (tt, tt)
        (All-reverse (λ z. R z x × Unit) xs
          (All-imp (λ z. R z x) (λ z. R z x × Unit) (λ z r. (r, tt)) xs h.0)))

-- Some member has the property; computes to a sum.
abbrev pub Any : {A : Type 0} → (A → Type 0) → List A → Type 0
Any P [] = ⊥
Any P (x ∷ xs) = P x ⊎ Any P xs

-- `a` is an element of the list.
abbrev pub IsIn : {A : Type 0} → A → List A → Type 0
IsIn a = Any (λ b. b ≡ a)

pub All-IsIn : {A : Type 0} (P : A → Type 0) (xs : List A) {a : A} → All P xs → IsIn a xs → P a
All-IsIn P [] h m = elim m [ ]
All-IsIn P (x ∷ xs) h (inl e) = subst P e h.0
All-IsIn P (x ∷ xs) h (inr m) = All-IsIn P xs h.1 m

pub Any-of_IsIn : {A : Type 0} (P : A → Type 0) (xs : List A) {a : A} → IsIn a xs → P a → Any P xs
Any-of_IsIn P [] m p = elim m [ ]
Any-of_IsIn P (x ∷ xs) (inl e) p = inl (subst P (sym e) p)
Any-of_IsIn P (x ∷ xs) (inr m) p = inr (Any-of_IsIn P xs m p)

pub any→Any : {A : Type 0} (p : A → Bool) (xs : List A) → any p xs ≡ true → Any (λ x. p x ≡ true) xs
any→Any p [] h = cc
any→Any p (x ∷ xs) h = elim (Bool-cases (p x)) [
  | inl e ↦ inl e
  | inr e ↦ inr (any→Any p xs (rw e at h))
]

pub Any→any : {A : Type 0} (p : A → Bool) (xs : List A) → Any (λ x. p x ≡ true) xs → any p xs ≡ true
Any→any p [] m = elim m [ ]
Any→any p (x ∷ xs) (inl e) = rw e
Any→any p (x ∷ xs) (inr m) = ground (arith, Any→any p xs m)

pub Any-imp :
    {A : Type 0} (P Q : A → Type 0) (f : (x : A) → P x → Q x) (xs : List A) → Any P xs → Any Q xs
Any-imp P Q f [] m = elim m [ ]
Any-imp P Q f (x ∷ xs) (inl h) = inl (f x h)
Any-imp P Q f (x ∷ xs) (inr m) = inr (Any-imp P Q f xs m)

pub Any-append_left : {A : Type 0} (P : A → Type 0) (xs ys : List A) → Any P xs → Any P (xs ++ ys)
Any-append_left P [] ys m = elim m [ ]
Any-append_left P (x ∷ xs) ys (inl h) = inl h
Any-append_left P (x ∷ xs) ys (inr m) = inr (Any-append_left P xs ys m)

pub Any-append_right : {A : Type 0} (P : A → Type 0) (xs ys : List A) → Any P ys → Any P (xs ++ ys)
Any-append_right P [] ys m = m
Any-append_right P (x ∷ xs) ys m = inr (Any-append_right P xs ys m)

pub All-self : {A : Type 0} (xs : List A) → All (λ x. IsIn x xs) xs
All-self [] = tt
All-self (x ∷ xs) =
    (inl refl, All-imp (λ y. IsIn y xs) (λ y. IsIn y (x ∷ xs)) (λ y m. inr m) xs (All-self xs))

pub All-filter_self :
    {A : Type 0} (p : A → Bool) (xs : List A) → All (λ x. p x ≡ true) (filter p xs)
All-filter_self p [] = tt
All-filter_self p (x ∷ xs) = elim (Bool-cases (p x)) [
  | inl e ↦ rw e (e, All-filter_self p xs)
  | inr e ↦ rw e (All-filter_self p xs)
]

filter→both :
    {A : Type 0} (p : A → Bool) (xs : List A) {a : A}
    → IsIn a (filter p xs)
    → IsIn a xs × (p a ≡ true)
filter→both p [] m = elim m [ ]
filter→both p (x ∷ xs) m = elim (Bool-cases (p x)) [
  | inl e ↦ elim (rw e at m) [
    | inl h ↦ (inl h, subst (λ b. p b ≡ true) h e)
    | inr n ↦ let (i, q) = filter→both p xs n in (inr i, q)
  ]
  | inr e ↦ let (i, q) = filter→both p xs (rw e at m) in (inr i, q)
]

both→filter :
    {A : Type 0} (p : A → Bool) (xs : List A) {a : A}
    → IsIn a xs
    → p a ≡ true
    → IsIn a (filter p xs)
both→filter p [] m h = elim m [ ]
both→filter p (x ∷ xs) (inl e) h = rw (subst (λ b. p b ≡ true) (sym e) h) (inl e)
both→filter p (x ∷ xs) (inr m) h = elim (Bool-cases (p x)) [
  | inl e ↦ rw e (inr (both→filter p xs m h))
  | inr e ↦ rw e (both→filter p xs m h)
]

-- A filter keeps the elements that pass, and only these.
pub IsIn-filter :
    {A : Type 0} (p : A → Bool) (xs : List A) (a : A)
    → IsIn a (filter p xs) ↔ (IsIn a xs × (p a ≡ true))
IsIn-filter p xs a = (filter→both p xs, λ m. both→filter p xs m.0 m.1)

-- What some element of a list has, some element of a list that contains it has.
pub Any-subset :
    {A : Type 0} (P : A → Type 0) (xs ys : List A) (f : (x : A) → IsIn x xs → IsIn x ys)
    → Any P xs
    → Any P ys
Any-subset P [] ys f m = elim m [ ]
Any-subset P (x ∷ xs) ys f (inl h) = Any-of_IsIn P ys (f x (inl refl)) h
Any-subset P (x ∷ xs) ys f (inr m) = Any-subset P xs ys (λ y n. f y (inr n)) m

pub All-both :
    {A : Type 0} (P Q : A → Type 0) (xs : List A) → All P xs → All Q xs → All (λ x. P x × Q x) xs
All-both P Q [] h k = tt
All-both P Q (x ∷ xs) h k = ((h.0, k.0), All-both P Q xs h.1 k.1)

pub All-both_imp :
    {A : Type 0} (P Q R : A → Type 0)
    → ((x : A) → P x → Q x → R x)
    → (xs : List A) → All P xs
    → All Q xs
    → All R xs
All-both_imp P Q R f [] h k = tt
All-both_imp P Q R f (x ∷ xs) h k = (f x h.0 k.0, All-both_imp P Q R f xs h.1 k.1)

pub IsOrdered-imp :
    {A : Type 0} (R Q : A → A → Type 0) (f : (x y : A) → R x y → Q x y) (xs : List A)
    → IsOrdered R xs
    → IsOrdered Q xs
IsOrdered-imp R Q f [] h = tt
IsOrdered-imp R Q f (x ∷ xs) h = (All-imp (R x) (Q x) (f x) xs h.0, IsOrdered-imp R Q f xs h.1)

pub IsOrdered-both :
    {A : Type 0} (R Q : A → A → Type 0) (xs : List A)
    → IsOrdered R xs
    → IsOrdered Q xs
    → IsOrdered (λ x y. R x y × Q x y) xs
IsOrdered-both R Q [] h k = tt
IsOrdered-both R Q (x ∷ xs) h k = (All-both (R x) (Q x) xs h.0 k.0, IsOrdered-both R Q xs h.1 k.1)

pub All-IsOrdered :
    {A : Type 0} (P : A → Type 0) (xs : List A) → All P xs → IsOrdered (λ x y. P x × P y) xs
All-IsOrdered P [] h = tt
All-IsOrdered P (x ∷ xs) h =
    (All-imp P (λ y. P x × P y) (λ y k. (h.0, k)) xs h.1, All-IsOrdered P xs h.1)

pub IsOrdered-filter :
    {A : Type 0} (R : A → A → Type 0) (p : A → Bool) (xs : List A)
    → IsOrdered R xs
    → IsOrdered R (filter p xs)
IsOrdered-filter R p [] h = tt
IsOrdered-filter R p (x ∷ xs) h = elim (Bool-cases (p x)) [
  | inl e ↦ rw e (All-filter (R x) p xs h.0, IsOrdered-filter R p xs h.1)
  | inr e ↦ rw e (IsOrdered-filter R p xs h.1)
]
