-- ===== src/Parse/Cycle/Finished.antt =====
-- The nodes that a search has finished, and what entering and leaving a node does to them.
use proxops.Base.{
  List, [], ◌∷◌, none, some, refl, inl, inr, All, ◌≡◌, IsIn, ◌⊎◌, ◌++◌, ◌≢◌, Option, Bool-cases,
  ◌∙◌, ap, Any-append_right, subst, Any-append_left, sym,
}
use proxops.Schema.Kind.{Ref, ref_eq_iff}
use proxops.Parse.Cycle.{
  Color, gray, black, Search, Found, clear, cycle, out_of_fuel, paint, leave, path_from, enter,
  drop_last, finish, and_on, ref_eq, back_edge,
}
use proxops.Parse.Cycle.Walks.{IsTopological}

module _ (edges : Ref → List Ref) where
  -- The state of a search, with the nodes that are finished: they are in topological order, and
  -- contain the black ones; the gray ones are on the path.
  pub record IsSound (done : List Ref) (s : Search) : Type 0 where
    pub blacks : (q : Ref) → s.color q ≡ black → IsIn q done
    pub grays : (q : Ref) → s.color q ≡ gray → IsIn q s.path
    pub topological : IsTopological edges done

  -- What a search over some nodes that goes on leaves: more is finished, these nodes too, and the
  -- path is as it was.
  pub record Went (done : List Ref) (s s' : Search) (ds : List Ref) : Type 0 where
    pub done' : List Ref
    pub sound : IsSound done' s'
    pub grown : (q : Ref) → IsIn q done → IsIn q done'
    pub same_path : s'.path ≡ s.path
    pub visited : All (λ d. IsIn d done') ds

pub path_from-none : (d : Ref) (ps : List Ref) → path_from d ps ≡ none → ¬ IsIn d ps
unfolding path_from
path_from-none d [] h m = m
path_from-none d (p ∷ ps) h m = elim (Bool-cases (ref_eq p d)) [
  | inl e ↦ let c : some (p ∷ ps) ≡ none = rw e at h in cc
  | inr e ↦ elim m [
    | inl q ↦ let t = (ref_eq_iff p d).1 q in cc
    | inr n ↦ path_from-none d ps (rw e at h) n
  ]
]

pub drop_last-append : (ps : List Ref) (r : Ref) → drop_last (ps ++ r ∷ []) ≡ ps
unfolding drop_last
drop_last-append [] r = refl
drop_last-append (p ∷ []) r = refl
drop_last-append (p ∷ q ∷ ps) r = ap (λ l. p ∷ l) (drop_last-append (q ∷ ps) r)

pub and_on-clear :
    (x : Found) (next : Search → Found) (s' : Search)
    → and_on x next ≡ clear s'
    → (m : Search) × (x ≡ clear m) × (next m ≡ clear s')
and_on-clear (clear m) next s' h = (m, refl, h)
and_on-clear (cycle c) next s' h = cc
and_on-clear out_of_fuel next s' h = cc

pub finish-clear :
    (r : Ref) (x : Found) (s' : Search)
    → finish r x ≡ clear s'
    → (m : Search) × (x ≡ clear m) × (leave r m ≡ s')
finish-clear r (clear m) s' h = (m, refl, cc)
finish-clear r (cycle c) s' h = cc
finish-clear r out_of_fuel s' h = cc

pub back_edge-clear :
    (d : Ref) (o : Option (List Ref)) (next : Found) (s' : Search)
    → back_edge d o next ≡ clear s'
    → o ≡ none
back_edge-clear d none next s' h = refl
back_edge-clear d (some ps) next s' h = cc

-- Painting a node changes its color only.
pub painted :
    (r : Ref) (c k : Color) (color : Ref → Color) (q : Ref)
    → paint r c color q ≡ k
    → ((r ≡ q) × (c ≡ k)) ⊎ ((r ≢ q) × (color q ≡ k))
painted r c k color q h = elim (Bool-cases (ref_eq r q)) [
  | inl e ↦ inl ((ref_eq_iff r q).0 e, rw e at h)
  | inr e ↦ inr ((λ p. let t = (ref_eq_iff r q).1 p in cc), rw e at h)
]

not_last : (r q : Ref) (ps : List Ref) → r ≢ q → IsIn q (ps ++ r ∷ []) → IsIn q ps
not_last r q [] n (inl e) = elim (n e) [ ]
not_last r q [] n (inr m) = elim m [ ]
not_last r q (p ∷ ps) n (inl e) = inl e
not_last r q (p ∷ ps) n (inr m) = inr (not_last r q ps n m)

module _ (edges : Ref → List Ref) where
  pub enter-IsSound :
      (done : List Ref) (s : Search) (r : Ref)
      → IsSound edges done s
      → IsSound edges done (enter r s)
  enter-IsSound done s r h = record {
    blacks = λ q e. elim (painted r gray black s.color q e) [
      | inl m ↦ let c : gray ≡ black = m.1 in cc
      | inr m ↦ h.blacks q m.1
    ];
    grays = λ q e. elim (painted r gray gray s.color q e) [
      | inl m ↦ Any-append_right (λ p. p ≡ q) s.path (r ∷ []) (inl m.0)
      | inr m ↦ Any-append_left (λ p. p ≡ q) s.path (r ∷ []) (h.grays q m.1)
    ];
    topological = h.topological;
  }

  -- A node whose deps are finished is finished.
  pub leave-IsSound :
      (done : List Ref) (s m : Search) (r : Ref)
      → IsSound edges done m
      → m.path ≡ s.path ++ r ∷ []
      → All (λ d. IsIn d done) (edges r)
      → IsSound edges (r ∷ done) (leave r m)
  leave-IsSound done s m r h p a = record {
    blacks = λ q e. elim (painted r black black m.color q e) [
      | inl n ↦ inl n.0
      | inr n ↦ inr (h.blacks q n.1)
    ];
    grays = λ q e. elim (painted r black gray m.color q e) [
      | inl n ↦ let c : black ≡ gray = n.1 in cc
      | inr n ↦
          subst (λ l. IsIn q l) (sym (ap drop_last p ∙ drop_last-append s.path r))
            (not_last r q s.path n.0 (subst (λ l. IsIn q l) p (h.grays q n.1)))
    ];
    topological = (a, h.topological);
  }

  -- A node that was finished, or is now, in front of the rest.
  pub Went-cons :
      (done : List Ref) (s s' s'' : Search) (d : Ref) (ds : List Ref)
      → Went edges done s s' (d ∷ [])
      → ((k : List Ref) → IsSound edges k s' → Went edges k s' s'' ds)
      → Went edges done s s'' (d ∷ ds)
  Went-cons done s s' s'' d ds g next =
      let k = next g.done' g.sound in
      record {
        done' = k.done';
        sound = k.sound;
        grown = λ q m. k.grown q (g.grown q m);
        same_path = k.same_path ∙ g.same_path;
        visited = (k.grown d g.visited.0, k.visited);
      }
