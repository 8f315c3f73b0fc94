-- ===== src/Reconcile/Finish.antt =====
-- A finished cycle's report, and the status that then shows it.
use proxops.Base.{
  inl, if◌then◌else◌, arith, ◌+◌, ◌≤◌, Bool, true, false, [], Option, none, some, Text, ◌≡◌, refl,
  length, not, ◌∙◌,
}
use proxops.Base.Result.{Result, ok, err}
use proxops.Plan.Types.{Plan, Reason}
use proxops.Status.Store.{Store, Cycle, finish_cycle, begin_cycle}
use proxops.Parse.Index.{Index}
use proxops.Exec.Run.{run, run_actions, Session}
use proxops.Reconcile.Expected.{IsOf, Holds, IsCurrent}
use proxops.Reconcile.Reports.{
  after_outcomes, counts, run_actions-length, bump_skips-IsCurrent, run_actions-IsCurrent,
  record_deferred-IsCurrent, set_anomalies-IsCurrent, set_desired-IsCurrent,
}
use proxops.Reconcile.Cycle.{
  AbortReason, Report, Settings, Inputs, Reconciler, Cycled, execute_in, execute_plan, show_plan,
  abort, planned, opened, open_index, make_plan, after_fetch, on_fetch, run_one_cycle, not_ready,
  plan_report, aborted_report, count_ok, count_err, count_pruned,
}

-- A cycle that has ended: its record says what is expected, and counts the objects on record.
abbrev pub Finished : Cycle → Store → Type 0
Finished e s =
    (y : Cycle) × (s.last ≡ some y)
    × IsOf e y
    × (y.aborted ≡ e.aborted)
    × (y.abort_reason ≡ e.abort_reason)
    × (y.objects ≡ length s.objects)

finish_cycle-Finished :
    (b e : Cycle) (s : Store)
    → ((y : Cycle) → IsOf b y → IsOf e y)
    → IsCurrent b s
    → Finished e (finish_cycle e.aborted e.abort_reason s)
finish_cycle-Finished b e s k h = by_last s.last refl h
  where
    by_last :
        (o : Option Cycle)
        → s.last ≡ o
        → Holds b o
        → Finished e (finish_cycle e.aborted e.abort_reason s)
    by_last none q m = elim m [ ]
    by_last (some y) q m = rw q (_, refl, k y m, refl, refl, refl)

abbrev pub is_abort : Option AbortReason → Bool
is_abort none = false
is_abort (some why) = true

module _ (spell : Reason → Text) (spell_abort : AbortReason → Text) (c : Settings)
    (i : Inputs) where
  abbrev pub reason_text : Option AbortReason → Text
  reason_text none = []
  reason_text (some why) = spell_abort why

  -- What the status is to say after a cycle with a report. The deferred prunes of a dry run are not
  -- counted.
  abbrev pub expected : Report → Cycle
  expected r = record {
    commit = r.commit;
    objects = 0;
    actions_ok = r.actions_ok;
    actions_error = r.actions_err;
    pruned = r.pruned;
    prune_deferred = (if c.live_mode then r.prune_deferred else 0);
    skipped = r.skipped;
    anomalies = r.anomalies;
    desired_stale = r.desired_stale;
    read_only = not c.live_mode;
    aborted = is_abort r.abort_reason;
    abort_reason = reason_text r.abort_reason;
  }

  abbrev pub ShowsReport : Cycled → Type 0
  ShowsReport x = Finished (expected x.report) x.after.store

  abbrev fresh : Text → Bool → Cycle
  fresh commit stale = record {
    commit = commit;
    objects = 0;
    actions_ok = 0;
    actions_error = 0;
    pruned = 0;
    prune_deferred = 0;
    skipped = 0;
    anomalies = 0;
    desired_stale = stale;
    read_only = not c.live_mode;
    aborted = false;
    abort_reason = [];
  }

  execute_in-ShowsReport :
      (live : Bool) (commit : Text) (stale : Bool) (idx : Index) (p : Plan) (s : Store)
      → c.live_mode ≡ live
      → IsCurrent (record (fresh commit stale) { anomalies = 0 + length p.anomalies }) s
      → ShowsReport (execute_in spell spell_abort c live i commit stale idx p s)
  unfolding execute_in run count_ok count_err count_pruned
  execute_in-ShowsReport true commit stale idx p s e h =
      let begun = record (fresh commit stale) { anomalies = 0 + length p.anomalies } in
      let start : Session = record { failures = []; store = s; trace = [] } in
      let (os, z) = run_actions c.cluster i.world start p.actions in
      let ran = after_outcomes begun os in
      let deferred = record ran { prune_deferred = ran.prune_deferred + length p.deferred } in
      finish_cycle-Finished (record deferred { skipped = deferred.skipped + length p.skipped })
        (expected (plan_report spell spell_abort c commit stale p os)) _
        (λ y m. ground (arith, m, e))
        (bump_skips-IsCurrent deferred p.skipped _ (
          record_deferred-IsCurrent ran c.cluster p.deferred z.store
            (run_actions-IsCurrent begun c.cluster i.world start p.actions (inl refl) h)))
  execute_in-ShowsReport false commit stale idx p s e h =
      let begun = record (fresh commit stale) { anomalies = 0 + length p.anomalies } in
      finish_cycle-Finished (record begun { skipped = 0 + length p.skipped })
        (expected (plan_report spell spell_abort c commit stale p [])) _
        (λ y m. ground (arith, m, e)) (bump_skips-IsCurrent begun p.skipped s h)

  execute_plan-ShowsReport :
      (commit : Text) (stale : Bool) (idx : Index) (p : Plan) (s : Store)
      → IsCurrent (fresh commit stale) s
      → ShowsReport (execute_plan spell spell_abort c i commit stale idx p s)
  unfolding execute_plan
  execute_plan-ShowsReport commit stale idx p s h =
      execute_in-ShowsReport c.live_mode commit stale idx p
        (show_plan spell spell_abort c idx.resources p s) refl
        (set_anomalies-IsCurrent (fresh commit stale) c.cluster spell p.anomalies _
          (set_desired-IsCurrent (fresh commit stale) c.cluster p.actions idx.resources s h))

  abort-ShowsReport :
      (why : AbortReason) (commit : Text) (stale : Bool) (r : Reconciler)
      → IsCurrent (fresh commit stale) r.store
      → ShowsReport (abort spell spell_abort c why commit stale r)
  abort-ShowsReport why commit stale r h =
      finish_cycle-Finished (fresh commit stale) (expected (aborted_report commit stale why))
        r.store (λ y m. ground (arith, m)) h

  planned-ShowsReport :
      (commit : Text) (stale : Bool) (idx : Index) (r : Reconciler) (x : Result AbortReason Plan)
      → IsCurrent (fresh commit stale) r.store
      → ShowsReport (planned spell spell_abort c i commit stale idx r x)
  planned-ShowsReport commit stale idx r (err why) b = abort-ShowsReport why commit stale r b
  planned-ShowsReport commit stale idx r (ok p) b =
      execute_plan-ShowsReport commit stale idx p r.store b

  opened-ShowsReport :
      (commit : Text) (stale : Bool) (r : Reconciler) (x : Result AbortReason Index)
      → IsCurrent (fresh commit stale) r.store
      → ShowsReport (opened spell spell_abort c i commit stale r x)
  opened-ShowsReport commit stale r (err why) b = abort-ShowsReport why commit stale r b
  opened-ShowsReport commit stale r (ok idx) b =
      planned-ShowsReport commit stale idx (record r { last_good = some idx; last_commit = commit })
        (make_plan c i idx) b

  begun-IsCurrent :
      (commit : Text) (stale : Bool) (s : Store)
      → IsCurrent (fresh commit stale) (begin_cycle commit stale (not c.live_mode) s)
  begun-IsCurrent commit stale s =
      (refl, refl, refl, refl, omega arith, inl refl, refl, refl, refl, refl)

  after_fetch-ShowsReport :
      (stale : Bool) (r : Reconciler) → ShowsReport (after_fetch spell spell_abort c i stale r)
  unfolding after_fetch
  after_fetch-ShowsReport stale r =
      let begun : Reconciler = record r {
        store = begin_cycle i.revision stale (not c.live_mode) r.store;
        desired_stale = stale;
      } in
      opened-ShowsReport i.revision stale begun (open_index i)
        (begun-IsCurrent i.revision stale r.store)

  on_fetch-ShowsReport :
      (r : Reconciler) (e : Option Text) (good : Option Index)
      → ShowsReport (on_fetch spell spell_abort c i r e good)
  on_fetch-ShowsReport r none good = after_fetch-ShowsReport false r
  on_fetch-ShowsReport r (some e) (some idx) = after_fetch-ShowsReport true r
  on_fetch-ShowsReport r (some e) none =
      abort-ShowsReport not_ready r.last_commit false
        (record r { store = begin_cycle r.last_commit false (not c.live_mode) r.store })
        (begun-IsCurrent r.last_commit false r.store)

-- After any cycle, however it ended, the status has a record of it with the report's commit and
-- staleness, the mode, whether it was aborted and the text of the report's reason (none where there
-- was none), the report's numbers of actions that succeeded, of prunes, skips and anomalies, in live
-- mode that of deferred prunes and in a dry run none, no more errors than the report, but some
-- where the report has some, and the number of the objects on record.
pub run_one_cycle-ShowsReport :
    (spell : Reason → Text) (spell_abort : AbortReason → Text) (c : Settings) (i : Inputs)
    (r : Reconciler)
    → ShowsReport spell spell_abort c i (run_one_cycle spell spell_abort c i r)
unfolding run_one_cycle
run_one_cycle-ShowsReport spell spell_abort c i r =
    on_fetch-ShowsReport spell spell_abort c i r i.fetch_error r.last_good

-- Where a plan is executed, the report counts each of its actions once, as one that succeeded or as
-- one that did not, and no more prunes than successes.
pub execute_plan-counts :
    (spell : Reason → Text) (spell_abort : AbortReason → Text) (c : Settings) (i : Inputs)
    (commit : Text) (stale : Bool) (idx : Index) (p : Plan) (s : Store)
    → c.live_mode ≡ true
    → let x = (execute_plan spell spell_abort c i commit stale idx p s).report in
      (x.actions_ok + x.actions_err ≡ x.actions) × (x.pruned ≤ x.actions_ok)
unfolding execute_plan execute_in run
execute_plan-counts spell spell_abort c i commit stale idx p s h = rw h (
    let (a, b) =
      counts
        (run_actions c.cluster i.world
          (record {
            failures = [];
            store = show_plan spell spell_abort c idx.resources p s;
            trace = [];
          })
          p.actions).0 in
    (a ∙ run_actions-length c.cluster i.world _ p.actions, b))
