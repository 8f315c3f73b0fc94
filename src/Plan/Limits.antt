-- ===== src/Plan/Limits.antt =====
-- The limits on deletions: the budget, the empty-desired guard, and that nothing gets lost.
use mathlib.Core.List.{Perm, perm_middle, perm_append_comm, append-nil}
use mathlib.Core.List.Perm
use proxops.Base.{
  ℕ, ◌<◌, ◌≤◌, Bool, true, not, List, [], ◌∷◌, ◌++◌, ◌≡◌, ◌≢◌, ◌⊎◌, refl, sym, ap, inl, inr, arith,
  All, All-append, All-imp, IsIn, subst, Bool-cases, length, filter, length-take_le, text_eq_iff,
  take-append-drop, append_assoc, length-filter_le, ltb, ◌&&◌, ◌∙◌, All-filter_self, All-IsIn,
}
use proxops.Base.Sort.{
  insertion_sort, insertion_sort-perm, passing-insertion_sort, passing-append, All-insertion_sort,
}
use mathlib.Core.Bool.{false≢true}
use proxops.Base.Result.{ok}
use proxops.Schema.Kind.{Kind, kind_vm, kind_lxc}
use proxops.Schema.Resource.{Resource}
use proxops.Plan.Types.{Action, delete, Plan, PlanOptions, LiveInventory}
use proxops.Plan.Desired.{Emitted, plan_desired}
use proxops.Plan.Guard.{
  unsuppressed, suppressed, held_back, is_suppressed, apply_budget, prune_less, desired_by_kind,
  of_kind, Split,
}
use proxops.Plan.Order.{sort_actions, action_less}
use proxops.Plan.Actions.{plan_actions, assemble, candidates, prunes}
use proxops.Plan.Emission.{is_delete, IsUpkeep, Emits, plan_desired-IsUpkeep}
use proxops.Plan.Safety.{plan_actions_inv, apply_budget-All}

-- Splitting a list by a test keeps its elements.
filter-perm :
    {A : Type 0} (p : A → Bool) (xs : List A) → Perm (filter p xs ++ filter (λ x. not (p x)) xs) xs
filter-perm p [] = Perm.refl []
filter-perm p (x ∷ xs) = elim (Bool-cases (p x)) [
  | inl e ↦ rw e (Perm.cons x (filter-perm p xs))
  | inr e ↦ rw e (
      Perm.trans (perm_middle (filter p xs) (filter (λ y. not (p y)) xs))
        (Perm.cons x (filter-perm p xs)))
]

-- The deletions of the cycle and those left over are the candidates.
apply_budget-perm :
    (budget : ℕ) (xs : List Action)
    → Perm ((apply_budget budget xs).now ++ (apply_budget budget xs).later) xs
unfolding apply_budget
apply_budget-perm budget xs = elim (Bool-cases (ltb 0 budget && ltb budget (length xs))) [
  | inl e ↦ rw e (
      rw (take-append-drop budget (insertion_sort prune_less xs))
        (insertion_sort-perm prune_less xs))
  | inr e ↦ rw e (rw append-nil (Perm.refl xs))
]

apply_budget-le :
    (budget : ℕ) (xs : List Action) → 0 < budget → length (apply_budget budget xs).now ≤ budget
unfolding apply_budget
apply_budget-le budget xs h = ground (arith, length-take_le budget (insertion_sort prune_less xs))

-- The deletions among some actions.
abbrev pub deletions : List Action → ℕ
deletions xs = length (filter (λ a. is_delete a.what) xs)

deletions-upkeep : (xs : List Action) → All IsUpkeep xs → deletions xs ≡ 0
deletions-upkeep [] h = refl
deletions-upkeep (x ∷ xs) h = rw (h.0.kept) (deletions-upkeep xs h.1)

-- A plan deletes no more objects than the budget of the cycle, where there is one.
pub plan_actions-le_budget :
    (opts : PlanOptions) (live : LiveInventory) (desired : List Resource) (p : Plan)
    → plan_actions opts live desired ≡ ok p
    → 0 < opts.prune_budget
    → deletions p.actions ≤ opts.prune_budget
unfolding assemble sort_actions
plan_actions-le_budget opts live desired p h pos =
    let (e, emitted, made) = plan_actions_inv opts live desired h in
    let of_e : All IsUpkeep e.actions =
      subst (Emits IsUpkeep) emitted (plan_desired-IsUpkeep opts live desired) in
    let now = (prunes opts live desired).now in
    subst (λ q. deletions q.actions ≤ opts.prune_budget) made
      (omega (
        arith,
        passing-insertion_sort action_less (λ a. is_delete a.what) (e.actions ++ now),
        passing-append action_less (λ a. is_delete a.what) e.actions now,
        deletions-upkeep e.actions of_e,
        length-filter_le (λ a. is_delete a.what) now,
        apply_budget-le opts.prune_budget
            (unsuppressed opts.prune_budget desired (candidates opts live desired)) pos,
      ))

shuffled : (xs ys zs : List Action) → Perm (xs ++ (ys ++ zs)) (ys ++ (xs ++ zs))
shuffled xs ys zs =
    rw (← append_assoc xs ys zs, ← append_assoc ys xs zs)
      (Perm.append_right zs (perm_append_comm xs ys))

-- Sorted actions and deferred ones, put together from their parts.
rearranged :
    (emitted held free listed : List Action) (split : Split)
    → Perm (held ++ free) listed
    → Perm (split.now ++ split.later) free
    → Perm (sort_actions (emitted ++ split.now) ++ (held ++ split.later)) (emitted ++ listed)
unfolding sort_actions
rearranged emitted held free listed split parts budgeted =
    Perm.trans
      (Perm.append_right (held ++ split.later)
        (insertion_sort-perm action_less (emitted ++ split.now)))
      (rw append_assoc (
        Perm.append_left emitted (
          Perm.trans (shuffled split.now held split.later)
            (Perm.trans (Perm.append_left held budgeted) parts))))

-- The plan is a rearrangement: its actions and its deferred deletions are what pass A emitted and
-- the prune candidates, each as often as there.
pub plan_actions-perm :
    (opts : PlanOptions) (live : LiveInventory) (desired : List Resource) (p : Plan) (e : Emitted)
    → plan_actions opts live desired ≡ ok p
    → plan_desired opts live desired ≡ ok e
    → Perm (p.actions ++ p.deferred) (e.actions ++ candidates opts live desired)
unfolding assemble plan_actions suppressed unsuppressed
plan_actions-perm opts live desired p e h he =
    let (f, emitted, made) = plan_actions_inv opts live desired h in
    let same : f ≡ e = cc in
    let listed = candidates opts live desired in
    let budget = opts.prune_budget in
    subst (λ q. Perm (q.actions ++ q.deferred) (e.actions ++ listed)) made
      (subst
        (λ (g : Emitted).
          Perm ((assemble opts live desired g).actions ++ (assemble opts live desired g).deferred)
            (e.actions ++ listed))
        (sym same)
        (rearranged e.actions (suppressed budget desired listed)
          (unsuppressed budget desired listed) listed (prunes opts live desired)
          (filter-perm (held_back budget desired listed) listed)
          (apply_budget-perm budget (unsuppressed budget desired listed))))

-- A candidate of a suppressed kind is held back.
held_back_of_kind :
    (budget : ℕ) (desired : List Resource) (listed : List Action) (b : Action) (kind : Kind)
    → (kind ≡ kind_vm) ⊎ (kind ≡ kind_lxc)
    → b.kind ≡ kind
    → is_suppressed budget desired listed kind ≡ true
    → held_back budget desired listed b ≡ true
unfolding held_back
held_back_of_kind budget desired listed b kind (inl k) same shut = ground (
  arith,
  text_eq_iff b.kind kind_vm,
  same ∙ k,
  subst (λ j. is_suppressed budget desired listed j ≡ true) k shut,
)
held_back_of_kind budget desired listed b kind (inr k) same shut = ground (
  arith,
  text_eq_iff b.kind kind_lxc,
  same ∙ k,
  subst (λ j. is_suppressed budget desired listed j ≡ true) k shut,
)

-- The guard keeps no candidate of a suppressed kind.
unsuppressed-kind :
    (budget : ℕ) (desired : List Resource) (listed : List Action) (kind : Kind)
    → (kind ≡ kind_vm) ⊎ (kind ≡ kind_lxc)
    → desired_by_kind desired kind ≡ 0
    → budget < length (of_kind kind listed)
    → All (λ b. b.kind ≢ kind) (unsuppressed budget desired listed)
unfolding unsuppressed
unsuppressed-kind budget desired listed kind managed empty many =
    let p = λ (b : Action). not (held_back budget desired listed b) in
    All-imp (λ b. p b ≡ true) (λ b. b.kind ≢ kind)
      (λ b free same. absurd (false≢true (sym (ap not (held b same)) ∙ free))) (filter p listed)
      (All-filter_self p listed)
  where
    shut : is_suppressed budget desired listed kind ≡ true
    shut = unfold is_suppressed in ground arith

    held : (b : Action) → b.kind ≡ kind → held_back budget desired listed b ≡ true
    held b same = held_back_of_kind budget desired listed b kind managed same shut

-- When nothing of a kind is desired and more of its objects than the budget would go, the guard
-- holds: no action of the plan deletes an object of that kind.
pub plan_actions-guard :
    (opts : PlanOptions) (live : LiveInventory) (desired : List Resource) (p : Plan) (a : Action)
    (kind : Kind)
    → plan_actions opts live desired ≡ ok p
    → (kind ≡ kind_vm) ⊎ (kind ≡ kind_lxc)
    → desired_by_kind desired kind ≡ 0
    → opts.prune_budget < length (of_kind kind (candidates opts live desired))
    → IsIn a p.actions
    → a.what ≡ delete
    → a.kind ≢ kind
unfolding assemble sort_actions
plan_actions-guard opts live desired p a kind h managed empty many m d =
    let (e, emitted, made) = plan_actions_inv opts live desired h in
    let of_e : All IsUpkeep e.actions =
      subst (Emits IsUpkeep) emitted (plan_desired-IsUpkeep opts live desired) in
    let now = (prunes opts live desired).now in
    let P : Action → Type 0 = λ b. b.what ≡ delete → b.kind ≢ kind in
    let free = unsuppressed opts.prune_budget desired (candidates opts live desired) in
    let kept =
      All-imp (λ b. b.kind ≢ kind) P (λ b n _. n) free
        (unsuppressed-kind opts.prune_budget desired (candidates opts live desired) kind managed
          empty many) in
    let all : All P p.actions =
      subst (λ q. All P q.actions) made
        (All-insertion_sort action_less P (e.actions ++ now) (
          All-append P e.actions now
            (All-imp IsUpkeep P (λ b u w. absurd (false≢true (sym u.kept ∙ ap is_delete w)))
              e.actions of_e)
            (apply_budget-All P opts.prune_budget free kept).0)) in
    All-IsIn P p.actions all m d
