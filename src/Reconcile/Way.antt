-- ===== src/Reconcile/Way.antt =====
-- The ways a cycle takes: what its plan comes from, and when something is said to PVE.
use proxops.Base.{Bool, true, false, [], Option, none, some, Text, ◌≡◌, refl, ap, not}
use proxops.Base.Result.{Result, ok, err}
use proxops.Plan.Types.{Plan, LiveInventory, Reason}
use proxops.Plan.Load.{load_live}
use proxops.Plan.Actions.{plan_actions}
use proxops.Parse.Index.{Index}
use proxops.Exec.Run.{run}
use proxops.Parse.Deps.{edges_for, order_of}
use proxops.Parse.Levels.{Memo, levels}
use proxops.Status.Store.{Store, begin_cycle}
use proxops.Reconcile.Nodes.{check_node_allowlist}
use proxops.Reconcile.Cycle.{
  unknown_node, inventory_failed, plan_failed, show_plan, AbortReason, Settings, Inputs, Reconciler,
  Cycled, run_one_cycle, execute_in, after_fetch, execute_plan, make_plan, open_index, opened,
  planned, on_fetch, plan_options, and_next, lift, require, present, unknown_node,
}

-- From a chain of results that succeeded.
pub and_next-ok :
    {E A B : Type 0} (r : Result E A) (f : A → Result E B) (b : B)
    → and_next r f ≡ ok b
    → (a : A) × (r ≡ ok a) × (f a ≡ ok b)
and_next-ok (err e) f b h = cc
and_next-ok (ok a) f b h = (a, refl, h)

pub lift-ok : {E F A : Type 0} (f : E → F) (r : Result E A) (a : A) → lift f r ≡ ok a → r ≡ ok a
lift-ok f (err e) a h = cc
lift-ok f (ok b) a h = ap ok (let e : b ≡ a = cc in e)

pub require-ok :
    {E F A : Type 0} (f : E → F) (o : Option E) (a b : A) → require f o a ≡ ok b → o ≡ none
require-ok f none a b h = refl
require-ok f (some e) a b h = cc

present-ok : {A : Type 0} (o : Option A) (a : A) → present o ≡ ok a → o ≡ some a
present-ok none a h = cc
present-ok (some b) a h = ap some (let e : b ≡ a = cc in e)

-- What a plan of a cycle comes from.
pub record Prepared (c : Settings) (i : Inputs) (idx : Index) (p : Plan) : Type 0 where
  pub live : LiveInventory
  pub memo : Memo
  pub in_nodes : check_node_allowlist c.node_allowlist idx.resources ≡ none
  pub was_loaded : load_live i.reads c.node_allowlist idx.resources ≡ ok live
  pub leveled : levels (edges_for i.annotation idx) i.fuel (order_of idx) ≡ some memo
  pub was_planned : plan_actions (plan_options c i idx memo) live idx.resources ≡ ok p

pub make_plan-Prepared :
    (c : Settings) (i : Inputs) (idx : Index) (p : Plan)
    → make_plan c i idx ≡ ok p
    → Prepared c i idx p
unfolding make_plan
make_plan-Prepared c i idx p h =
    let (j, a, rest) =
      and_next-ok (require unknown_node (check_node_allowlist c.node_allowlist idx.resources) idx)
        (λ _.
          and_next (lift inventory_failed (load_live i.reads c.node_allowlist idx.resources))
            (λ live.
              and_next (present (levels (edges_for i.annotation idx) i.fuel (order_of idx)))
                (λ m. lift plan_failed (plan_actions (plan_options c i idx m) live idx.resources))))
        p h in
    let (live, b, more) =
      and_next-ok (lift inventory_failed (load_live i.reads c.node_allowlist idx.resources))
        (λ live.
          and_next (present (levels (edges_for i.annotation idx) i.fuel (order_of idx)))
            (λ m. lift plan_failed (plan_actions (plan_options c i idx m) live idx.resources)))
        p rest in
    let (m, d, last) =
      and_next-ok (present (levels (edges_for i.annotation idx) i.fuel (order_of idx)))
        (λ m. lift plan_failed (plan_actions (plan_options c i idx m) live idx.resources)) p more in
    record {
      live = live;
      memo = m;
      in_nodes =
          require-ok unknown_node (check_node_allowlist c.node_allowlist idx.resources) idx j a;
      was_loaded =
          lift-ok inventory_failed (load_live i.reads c.node_allowlist idx.resources) live b;
      leveled = present-ok (levels (edges_for i.annotation idx) i.fuel (order_of idx)) m d;
      was_planned =
          lift-ok plan_failed (plan_actions (plan_options c i idx m) live idx.resources) p last;
    }

-- A cycle's way: it is aborted, and nothing was said to PVE; or a plan was made, and shown or run.
pub data Way (c : Settings) (i : Inputs) : Cycled → Type 0 where
  stopped : {x : Cycled} → x.trace ≡ [] → Way c i x
  ran :
      {x : Cycled}
      → (idx : Index) (p : Plan) (s : Store) → open_index i ≡ ok idx
      → make_plan c i idx ≡ ok p
      → c.live_mode ≡ true
      → x.report.abort_reason ≡ none
      → x.trace ≡ (run c.cluster i.world p s []).2
      → Way c i x

module _ (spell : Reason → Text) (spell_abort : AbortReason → Text) (c : Settings)
    (i : Inputs) where
  execute_in-Way :
      (live : Bool) (commit : Text) (stale : Bool) (idx : Index) (p : Plan) (s : Store)
      → c.live_mode ≡ live
      → open_index i ≡ ok idx
      → make_plan c i idx ≡ ok p
      → Way c i (execute_in spell spell_abort c live i commit stale idx p s)
  unfolding execute_in
  execute_in-Way true commit stale idx p s e o m = ran idx p s o m e refl refl
  execute_in-Way false commit stale idx p s e o m = stopped refl

  execute_plan-Way :
      (commit : Text) (stale : Bool) (idx : Index) (p : Plan) (s : Store)
      → open_index i ≡ ok idx
      → make_plan c i idx ≡ ok p
      → Way c i (execute_plan spell spell_abort c i commit stale idx p s)
  unfolding execute_plan
  execute_plan-Way commit stale idx p s o m =
      execute_in-Way c.live_mode commit stale idx p
        (show_plan spell spell_abort c idx.resources p s) refl o m

  planned-Way :
      (commit : Text) (stale : Bool) (idx : Index) (r : Reconciler) (x : Result AbortReason Plan)
      → open_index i ≡ ok idx
      → make_plan c i idx ≡ x
      → Way c i (planned spell spell_abort c i commit stale idx r x)
  planned-Way commit stale idx r (err why) o m = stopped refl
  planned-Way commit stale idx r (ok p) o m = execute_plan-Way commit stale idx p r.store o m

  opened-Way :
      (commit : Text) (stale : Bool) (r : Reconciler) (x : Result AbortReason Index)
      → open_index i ≡ x
      → Way c i (opened spell spell_abort c i commit stale r x)
  opened-Way commit stale r (err why) o = stopped refl
  opened-Way commit stale r (ok idx) o =
      planned-Way commit stale idx (record r { last_good = some idx; last_commit = commit })
        (make_plan c i idx) o refl

  after_fetch-Way :
      (stale : Bool) (r : Reconciler) → Way c i (after_fetch spell spell_abort c i stale r)
  unfolding after_fetch
  after_fetch-Way stale r =
      opened-Way i.revision stale
        (record r {
          store = begin_cycle i.revision stale (not c.live_mode) r.store;
          desired_stale = stale;
        })
        (open_index i) refl

  on_fetch-Way :
      (r : Reconciler) (e : Option Text) (good : Option Index)
      → Way c i (on_fetch spell spell_abort c i r e good)
  on_fetch-Way r none good = after_fetch-Way false r
  on_fetch-Way r (some e) (some idx) = after_fetch-Way true r
  on_fetch-Way r (some e) none = stopped refl

  pub run_one_cycle-Way : (r : Reconciler) → Way c i (run_one_cycle spell spell_abort c i r)
  unfolding run_one_cycle
  run_one_cycle-Way r = on_fetch-Way r i.fetch_error r.last_good
