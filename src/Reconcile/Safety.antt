-- ===== src/Reconcile/Safety.antt =====
-- What a cycle may say to PVE, and in which order it plans.
use proxops.Base.{
  ℕ, ◌<◌, true, false, List, [], ◌∷◌, Option, none, some, Text, text_eq, ◌≡◌, ◌⊎◌, inl, inr, refl,
  All, Any, IsIn, subst, All-imp, sym, ◌∙◌, IsOrdered, Any-imp, map,
}
use proxops.Base.Keys.{IsFree}
use proxops.Base.Result.{Result, ok}
use proxops.Schema.Kind.{Ref, Kind, kind_vm, kind_lxc}
use proxops.Schema.Value.{Config, has_tag, pve_ownership_tag}
use proxops.Plan.Types.{Action, Plan, ClusterResource, Reason}
use proxops.Plan.Load.{Reads, ReadError}
use proxops.Plan.Reading.{answer_for, load_live-is_read, load_live-listing}
use proxops.Plan.Candidates.{IsOwnedOrphan, Accepts, Lists}
use proxops.Plan.Targets.{plan_actions-IsAfterDeps}
use proxops.Exec.Session.{
  Event, Guest, qemu, lxc, called, delete_guest, create_guest, update_guest, start_guest,
  stop_guest, mark_guest, clone_guest, download, read_config, waited,
}
use proxops.Exec.Whole.{run-deletes_orphans, IsBacked, Deletes}
use proxops.Exec.Operations.{guest_of}
use proxops.Exec.Run.{run}
use proxops.Parse.Index.{Index, build_index}
use proxops.Parse.Deps.{edges_for, order_of, check_deps}
use proxops.Parse.Levels.{Memo}
use proxops.Parse.Levels.Memoised.{IsLeveled}
use proxops.Parse.Levels.Enough.{levels_unique}
use proxops.Parse.Checked.{check_deps-IsLeveled}
use proxops.Reconcile.Cycle.{
  AbortReason, Settings, Inputs, Reconciler, run_one_cycle, make_plan, open_index, plan_options,
  or_zero, deps_failed, parse_failed, index_failed, secrets_failed, and_next, lift, require, Cycled,
}
use proxops.Reconcile.Way.{
  Way, stopped, ran, Prepared, make_plan-Prepared, run_one_cycle-Way, and_next-ok, require-ok,
}

-- What PVE answers in a cycle's reads to the handle of a guest.
abbrev pub answer_by : Reads → Guest → Text → ℕ → Result ReadError Config
answer_by reads qemu node id = reads.vm_config node id
answer_by reads lxc node id = reads.lxc_config node id

-- The object of a deletion carries the ownership tag on PVE, on an accepted node.
abbrev pub IsTagged : Reads → List Text → Guest → Text → ℕ → Type 0
IsTagged reads allowed g n id =
    Accepts allowed n
    × ((cfg : Config) × (answer_by reads g n id ≡ ok cfg) × (has_tag cfg pve_ownership_tag ≡ true))

abbrev pub DeletesTagged : Reads → List Text → Event → Type 0
DeletesTagged reads allowed (called (delete_guest g n id) r) = IsTagged reads allowed g n id
DeletesTagged reads allowed (called (create_guest g n f s) r) = Unit
DeletesTagged reads allowed (called (update_guest g n i f) r) = Unit
DeletesTagged reads allowed (called (start_guest g n i) r) = Unit
DeletesTagged reads allowed (called (stop_guest g n i) r) = Unit
DeletesTagged reads allowed (called (mark_guest g n i) r) = Unit
DeletesTagged reads allowed (called (clone_guest n i j x) r) = Unit
DeletesTagged reads allowed (called (download n x u f c) r) = Unit
DeletesTagged reads allowed (read_config n i r) = Unit
DeletesTagged reads allowed (waited n u r) = Unit

answer_by-guest_of :
    (reads : Reads) (kind : Kind) (node : Text) (id : ℕ)
    → (kind ≡ kind_vm) ⊎ (kind ≡ kind_lxc)
    → answer_by reads (guest_of kind) node id ≡ answer_for reads kind node id
unfolding guest_of text_eq
answer_by-guest_of reads kind node id (inl e) = rw e refl
answer_by-guest_of reads kind node id (inr e) = rw e refl

module _ (c : Settings) (i : Inputs) (listing : List ClusterResource) where
  orphan-IsTagged :
      (idx : Index) (p : Plan) (k : Prepared c i idx p) (a : Action)
      → i.reads.cluster_resources ≡ ok listing
      → All (λ e. IsFree b'|' e.node) listing
      → IsOwnedOrphan (plan_options c i idx k.memo) k.live a
      → IsTagged i.reads c.node_allowlist (guest_of a.kind) a.node a.id
  orphan-IsTagged idx p k a h free o =
      let same =
        load_live-listing i.reads c.node_allowlist idx.resources listing k.live h k.was_loaded in
      let listed : Any (λ e. Lists e a) listing =
        subst (λ l. Any (λ e. Lists e a) l) same o.listed in
      let here = Any-imp (λ e. Lists e a) (λ e. e.node ≡ a.node) (λ e m. m.0) listing listed in
      let read =
        load_live-is_read i.reads c.node_allowlist idx.resources listing k.live a.node a.kind a.id
          (some o.config) h k.was_loaded free here o.managed o.readable o.tagged in
      (
        o.accepted,
        (some o.config, answer_by-guest_of i.reads a.kind a.node a.id o.managed ∙ read, o.tagged),
      )

  backed-IsTagged :
      (idx : Index) (p : Plan) (k : Prepared c i idx p) (e : Event) (actions : List Action)
      → i.reads.cluster_resources ≡ ok listing
      → All (λ e. IsFree b'|' e.node) listing
      → IsBacked (IsOwnedOrphan (plan_options c i idx k.memo) k.live) actions e
      → DeletesTagged i.reads c.node_allowlist e
  backed-IsTagged idx p k (called (delete_guest g n id) r) actions h free b = deleted actions b
    where
      deleted :
          (xs : List Action)
          → Any (λ a. Deletes g n id a × IsOwnedOrphan (plan_options c i idx k.memo) k.live a) xs
          → IsTagged i.reads c.node_allowlist g n id
      deleted [] m = elim m [ ]
      deleted (x ∷ xs) (inr m) = deleted xs m
      deleted (x ∷ xs) (inl (d, o)) = rw (d.1, d.2, d.3) (orphan-IsTagged idx p k x h free o)
  backed-IsTagged idx p k (called (create_guest g n f s) r) actions h free b = tt
  backed-IsTagged idx p k (called (update_guest g n j f) r) actions h free b = tt
  backed-IsTagged idx p k (called (start_guest g n j) r) actions h free b = tt
  backed-IsTagged idx p k (called (stop_guest g n j) r) actions h free b = tt
  backed-IsTagged idx p k (called (mark_guest g n j) r) actions h free b = tt
  backed-IsTagged idx p k (called (clone_guest n j l x) r) actions h free b = tt
  backed-IsTagged idx p k (called (download n x u f y) r) actions h free b = tt
  backed-IsTagged idx p k (read_config n j r) actions h free b = tt
  backed-IsTagged idx p k (waited n u r) actions h free b = tt

-- In one cycle, whatever the manifests say and PVE answers, PVE is asked only for deletions of
-- objects on accepted nodes whose configuration it answered in this cycle with the ownership tag,
-- where PVE's listing can be read and names no node with a bar.
pub run_one_cycle-DeletesTagged :
    (spell : Reason → Text) (spell_abort : AbortReason → Text) (c : Settings) (i : Inputs)
    (r : Reconciler) (listing : List ClusterResource)
    → i.reads.cluster_resources ≡ ok listing
    → All (λ e. IsFree b'|' e.node) listing
    → All (DeletesTagged i.reads c.node_allowlist) (run_one_cycle spell spell_abort c i r).trace
run_one_cycle-DeletesTagged spell spell_abort c i r listing h free =
    by_way (run_one_cycle-Way spell spell_abort c i r)
  where
    by_way : {x : Cycled} → Way c i x → All (DeletesTagged i.reads c.node_allowlist) x.trace
    by_way (stopped quiet) = subst (All (DeletesTagged i.reads c.node_allowlist)) (sym quiet) tt
    by_way (ran idx p s o m live fine said) =
        let k = make_plan-Prepared c i idx p m in
        subst (All (DeletesTagged i.reads c.node_allowlist)) (sym said) (
          All-imp (IsBacked (IsOwnedOrphan (plan_options c i idx k.memo) k.live) p.actions)
            (DeletesTagged i.reads c.node_allowlist)
            (λ e b. backed-IsTagged c i listing idx p k e p.actions h free b)
            (run c.cluster i.world p s []).2
            (run-deletes_orphans (plan_options c i idx k.memo) k.live idx.resources p c.cluster
              i.world s k.was_planned))

-- A cycle that is aborted, and one of a reconciler without an executor, ask PVE for no change.
pub run_one_cycle-quiet :
    (spell : Reason → Text) (spell_abort : AbortReason → Text) (c : Settings) (i : Inputs)
    (r : Reconciler)
    → (c.live_mode ≡ false)
      ⊎ ((why : AbortReason) × ((run_one_cycle spell spell_abort c i r).report.abort_reason
            ≡ some why))
    → (run_one_cycle spell spell_abort c i r).trace ≡ []
run_one_cycle-quiet spell spell_abort c i r h = by_way (run_one_cycle-Way spell spell_abort c i r) h
  where
    by_way :
        {x : Cycled}
        → Way c i x
        → (c.live_mode ≡ false) ⊎ ((why : AbortReason) × (x.report.abort_reason ≡ some why))
        → x.trace ≡ []
    by_way (stopped quiet) k = quiet
    by_way (ran idx p s o m live fine said) (inl dry) = cc
    by_way (ran idx p s o m live fine said) (inr (why, e)) = cc

require-same : {E F A : Type 0} (f : E → F) (o : Option E) (a b : A) → require f o a ≡ ok b → a ≡ b
require-same f none a b h = cc
require-same f (some e) a b h = cc

open_index-checked :
    (i : Inputs) (idx : Index) → open_index i ≡ ok idx → check_deps i.annotation idx ≡ none
unfolding open_index
open_index-checked i idx h =
    let (rs, a, rest) =
      and_next-ok (lift parse_failed i.decoded)
        (λ rs. and_next (lift index_failed (build_index rs)) (λ x.
          and_next (require deps_failed (check_deps i.annotation x) x)
            (λ _. require secrets_failed i.secrets_error x)))
        idx h in
    let (x, b, more) =
      and_next-ok (lift index_failed (build_index rs))
        (λ x.
          and_next (require deps_failed (check_deps i.annotation x) x)
            (λ _. require secrets_failed i.secrets_error x))
        idx rest in
    let (y, d, last) =
      and_next-ok (require deps_failed (check_deps i.annotation x) x)
        (λ _. require secrets_failed i.secrets_error x) idx more in
    let same : x ≡ idx = require-same secrets_failed i.secrets_error x idx last in
    subst (λ z. check_deps i.annotation z ≡ none) same
      (require-ok deps_failed (check_deps i.annotation x) x y d)

leveled-lt :
    (edges : Ref → List Ref) (m : Memo) (r : Ref)
    → IsLeveled edges m r
    → All (λ d. or_zero (m.levels d) < or_zero (m.levels r)) (edges r)
leveled-lt edges m r (l, e, below) = rw e (
    All-imp (λ d. (k : ℕ) × (m.levels d ≡ some k) × (k < l)) (λ d. or_zero (m.levels d) < l)
      (λ d q. rw q.1 q.2) (edges r) below)

All-of_map :
    {A B : Type 0} (P : B → Type 0) (f : A → B) (xs : List A)
    → All P (map f xs)
    → All (λ x. P (f x)) xs
All-of_map P f [] h = tt
All-of_map P f (x ∷ xs) h = (h.0, All-of_map P f xs h.1)

-- In the plan that a cycle makes for its manifests, no action for a manifest stands before an action
-- for something that this manifest depends on: prerequisites are worked on first.
pub make_plan-IsAfterDeps :
    (c : Settings) (i : Inputs) (idx : Index) (p : Plan)
    → open_index i ≡ ok idx
    → make_plan c i idx ≡ ok p
    → IsOrdered
        (λ a b. ¬ ((a.tier ≡ 0) × (b.tier ≡ 0) × IsIn b.ref (edges_for i.annotation idx a.ref)))
        p.actions
make_plan-IsAfterDeps c i idx p o m =
    let k = make_plan-Prepared c i idx p m in
    let (f, memo, ends, leveled) =
      check_deps-IsLeveled i.annotation idx (open_index-checked i idx o) in
    let same : memo ≡ k.memo =
      levels_unique (edges_for i.annotation idx) f i.fuel (order_of idx) memo k.memo ends
        k.leveled in
    let all =
      subst (λ x. All (IsLeveled (edges_for i.annotation idx) x) (order_of idx)) same leveled in
    plan_actions-IsAfterDeps (plan_options c i idx k.memo) k.live idx.resources p k.was_planned (
      All-imp (λ r. IsLeveled (edges_for i.annotation idx) k.memo r.ref)
        (λ r.
          All (λ d. or_zero (k.memo.levels d) < or_zero (k.memo.levels r.ref))
            (edges_for i.annotation idx r.ref))
        (λ r q. leveled-lt (edges_for i.annotation idx) k.memo r.ref q) idx.resources
        (All-of_map (IsLeveled (edges_for i.annotation idx) k.memo) (λ r. r.ref) idx.resources all))
