-- ===== src/Status/Listing.antt =====
-- The store as a map, and the order of its listing.
use proxops.Base.{
  refl, [], ◌∷◌, List, text_lt, arith, text_lt_trans, ◌≡◌, true, ◌⊎◌, inl, inr, ◌≢◌, ◌↔◌, sym, ap,
  subst, text_eq_iff, text_lt_total, false, IsOrdered, IsOrdered-imp, if◌then◌else◌, some,
  IsOrdered-both, filter, not, All-imp, ◌∷◌, All-filter_self, IsOrdered-filter, and-eq-true,
  text_eq, ◌&&◌, text_eq_refl,
}
use proxops.Base.Sort.{
  insertion_sort-IsOrdered_sym, insertion_sort-IsOrdered, Decides, insertion_sort,
  insertion_sort-IsOrdered_sym,
}
use proxops.Status.Store.{
  Object, Store, key_eq, less_object, key_of, objects, set_object, Key, sort_objects, find_object,
}

-- The key of `a` comes before that of `b`: by cluster, then kind, then name.
abbrev pub IsBefore : Object → Object → Type 0
IsBefore a b =
    (text_lt a.cluster b.cluster ≡ true)
    ⊎ ((a.cluster ≡ b.cluster)
        × ((text_lt a.kind b.kind ≡ true) ⊎ ((a.kind ≡ b.kind) × (text_lt a.name b.name ≡ true))))

IsBefore-trans : (a b c : Object) → IsBefore a b → IsBefore b c → IsBefore a c
IsBefore-trans a b c h k = ground (
  arith,
  text_lt_trans a.cluster b.cluster c.cluster,
  text_lt_trans a.kind b.kind c.kind,
  text_lt_trans a.name b.name c.name,
)

-- The two have different keys.
abbrev pub IsDistinct : Object → Object → Type 0
IsDistinct a b = key_eq (key_of a) (key_of b) ≡ false

less_object-Decides : Decides less_object (λ a b. IsDistinct a b → IsBefore a b)
less_object-Decides = record {
  of_less = λ a b h d.
      unfold less_object in
      ground (arith, text_eq_iff a.cluster b.cluster, text_eq_iff a.kind b.kind);
  of_not_less = λ a b h d.
      unfold less_object key_eq in
      ground (
        arith,
        text_eq_iff a.cluster b.cluster,
        text_eq_iff a.kind b.kind,
        text_eq_iff a.name b.name,
        text_lt_total a.cluster b.cluster,
        text_lt_total a.kind b.kind,
        text_lt_total a.name b.name,
      );
  r_trans = λ a b c h k d.
      unfold key_eq in
      ground (
        arith,
        h,
        k,
        d,
        IsBefore-trans a b c,
        text_eq_iff a.cluster b.cluster,
        text_eq_iff a.kind b.kind,
        text_eq_iff a.name b.name,
        text_eq_iff b.cluster c.cluster,
        text_eq_iff b.kind c.kind,
        text_eq_iff b.name c.name,
        text_eq_iff a.cluster c.cluster,
        text_eq_iff a.kind c.kind,
        text_eq_iff a.name c.name,
      );
}

IsDistinct-sym : (a b : Object) → IsDistinct a b → IsDistinct b a
unfolding key_eq
IsDistinct-sym a b h = ground (
  arith,
  text_eq_iff a.cluster b.cluster,
  text_eq_iff a.kind b.kind,
  text_eq_iff a.name b.name,
  text_eq_iff b.cluster a.cluster,
  text_eq_iff b.kind a.kind,
  text_eq_iff b.name a.name,
)

-- One key is the same as another's of an equal one.
key_eq-left : (j o k : Key) → key_eq j o ≡ true → key_eq j k ≡ key_eq o k
unfolding key_eq
key_eq-left j o k h =
    let (c, r) =
      and-eq-true (text_eq j.cluster o.cluster) (text_eq j.kind o.kind && text_eq j.name o.name)
        h in
    let (d, n) = and-eq-true (text_eq j.kind o.kind) (text_eq j.name o.name) r in
    let p = (text_eq_iff j.cluster o.cluster).0 c in
    let q = (text_eq_iff j.kind o.kind).0 d in
    let t = (text_eq_iff j.name o.name).0 n in
    λ i. text_eq (p i) k.cluster && (text_eq (q i) k.kind && text_eq (t i) k.name)

find-others :
    (o k : Key) (os : List Object)
    → key_eq o k ≡ false
    → find_object k (filter (λ p. not (key_eq (key_of p) o)) os) ≡ find_object k os
unfolding find_object
find-others o k [] h = refl
find-others o k (p ∷ ps) h = ground (arith, find-others o k ps h, key_eq-left (key_of p) o k)

-- A map: no two records have one key.
abbrev pub IsKeyed : Store → Type 0
IsKeyed s = IsOrdered IsDistinct s.objects

pub find-set_object :
    (o : Object) (s : Store) (k : Key)
    → find_object k (set_object o s).objects
      ≡ (if key_eq (key_of o) k then some o else find_object k s.objects)
unfolding set_object find_object
find-set_object o s k = ground (arith, find-others (key_of o) k s.objects)

pub key_eq_refl : (k : Key) → key_eq k k ≡ true
unfolding key_eq
key_eq_refl k = ground (arith, text_eq_refl k.cluster, text_eq_refl k.kind, text_eq_refl k.name)

-- The test on keys is equality of the cluster, the kind and the name.
pub key_eq_iff : (j k : Key) → (key_eq j k ≡ true) ↔ (j ≡ k)
key_eq_iff j k = (
  (λ h.
      let (c, r) =
        and-eq-true (text_eq j.cluster k.cluster) (text_eq j.kind k.kind && text_eq j.name k.name)
          (unfold key_eq in h) in
      let (d, n) = and-eq-true (text_eq j.kind k.kind) (text_eq j.name k.name) r in
      let p = (text_eq_iff j.cluster k.cluster).0 c in
      let q = (text_eq_iff j.kind k.kind).0 d in
      let t = (text_eq_iff j.name k.name).0 n in
      λ i. record { cluster = p i; kind = q i; name = t i }),
  (λ e. subst (λ x. key_eq j x ≡ true) e (key_eq_refl j)),
)

pub key_eq-ne : (j k : Key) → j ≢ k → key_eq j k ≡ false
key_eq-ne j k n = ground (arith, key_eq_iff j k, n)

-- No two records of a store have the same cluster, kind and name.
abbrev pub IsMap : Store → Type 0
IsMap s = IsOrdered (λ a b. key_of a ≢ key_of b) s.objects

-- A record that is set is found under its cluster, kind and name; what is found under another
-- cluster, another kind or another name is as before; and still no two records share all three.
pub set_object-find :
    (o : Object) (s : Store)
    → IsMap s
    → IsMap (set_object o s)
      × (find_object (key_of o) (set_object o s).objects ≡ some o)
      × ((k : Key)
          → (k.cluster ≢ o.cluster) ⊎ (k.kind ≢ o.kind) ⊎ (k.name ≢ o.name)
          → find_object k (set_object o s).objects ≡ find_object k s.objects)
set_object-find o s h =
    let others = filter (λ p. not (key_eq (key_of p) (key_of o))) s.objects in
    (
      unfold set_object in
          (
            All-imp (λ p. not (key_eq (key_of p) (key_of o)) ≡ true) (λ p. key_of o ≢ key_of p)
                (λ p n e.
                  let same = (key_eq_iff (key_of p) (key_of o)).1 (sym e) in ground (arith, n))
                others (All-filter_self (λ p. not (key_eq (key_of p) (key_of o))) s.objects),
            IsOrdered-filter (λ a b. key_of a ≢ key_of b) (λ p. not (key_eq (key_of p) (key_of o)))
                s.objects h,
          ),
      ground (arith, find-set_object o s (key_of o), key_eq_refl (key_of o)),
      (λ k d.
          let other : key_eq (key_of o) k ≡ false = key_eq-ne (key_of o) k (λ e. elim d [
            | inl n ↦ n (sym (ap (λ (x : Key). x.cluster) e))
            | inr m ↦ elim m [
              | inl n ↦ n (sym (ap (λ (x : Key). x.kind) e))
              | inr n ↦ n (sym (ap (λ (x : Key). x.name) e))
            ]
          ]) in
          ground (arith, find-set_object o s k, other)),
    )

-- The listing of a store is in strict order of cluster, kind and name.
pub objects-IsOrdered : (s : Store) → IsKeyed s → IsOrdered IsBefore (objects s)
unfolding objects sort_objects
objects-IsOrdered s h =
    IsOrdered-imp (λ a b. (IsDistinct a b → IsBefore a b) × IsDistinct a b) IsBefore
      (λ a b m. m.0 m.1) (insertion_sort less_object s.objects)
      (IsOrdered-both (λ a b. IsDistinct a b → IsBefore a b) IsDistinct
        (insertion_sort less_object s.objects)
        (insertion_sort-IsOrdered less_object (λ a b. IsDistinct a b → IsBefore a b)
          less_object-Decides s.objects)
        (insertion_sort-IsOrdered_sym less_object IsDistinct IsDistinct-sym s.objects h))
