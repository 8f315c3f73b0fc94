-- ===== src/Exec/Run.antt =====
-- A plan on PVE: execute, Run, deferByDependency and recordDeferred of internal/exec/exec.go. The
-- executor has a status store, as the composition root gives it one.
use proxops.Base.{
  [], ◌∷◌, Bool, List, Option, true, Text, none, [], if◌then◌else◌, false, some, codes, ◌++◌, any,
  ◌&&◌, not, text_eq,
}
use proxops.Base.Result.{Result, ok, err}
use proxops.Exec.Session.{World, Trace}
use proxops.Exec.Apply.{Fault, apply, what_text}
use proxops.Schema.Kind.{Ref, ref_text, ref_eq}
use proxops.Plan.Types.{delete, Action, Plan, ActionKind}
use proxops.Status.Store.{
  Store, Object, State, failed, set_object, skipped, bump_actions_ok, bump_pruned, given, pruned,
  in_progress, bump_actions_error, converged, deferred, bump_prune_deferred,
}

-- Result
pub record Outcome : Type 0 where
  pub action : Action
  pub is_ok : Bool
  pub error : Option Text
  pub did_stop : Bool

abbrev is_delete : ActionKind → Bool
is_delete delete = true
is_delete _ = false

-- stateFor
unfoldable pub state_for : Action → Bool → State
state_for a false = failed
state_for a true = if is_delete a.what then pruned else converged

-- errMsg
abbrev pub error_text : Option Text → Text
error_text none = []
error_text (some e) = e

abbrev pub outcome_of : Action → Result Fault Bool → Outcome
outcome_of a (ok did) = record { action = a; is_ok = true; error = none; did_stop = did }
outcome_of a (err f) = record {
  action = a;
  is_ok = false;
  error = some f.message;
  did_stop = f.did_stop;
}

-- The kind, name and node of an action that failed.
pub record Failed : Type 0 where
  pub ref : Ref
  pub node : Text

-- Where a run is: what failed, the store and what was said to PVE.
pub record Session : Type 0 where
  pub failures : List Failed
  pub store : Store
  pub trace : Trace

-- A dep that does not say a kind and a name is passed over.
unfoldable pub is_named : Ref → Bool
is_named r = not (text_eq r.kind []) && not (text_eq r.name [])

-- failed[key{kind: dep.Kind, name: dep.Name, node: a.Node}]
unfoldable pub has_failed : List Failed → Text → Ref → Bool
has_failed fs node r = any (λ f. ref_eq f.ref r && text_eq f.node node) fs

-- The loop over a.Deps: the first of them that failed on the node.
unfoldable pub blocker : List Failed → Text → List Ref → Option Ref
unfolding is_named has_failed
blocker fs node [] = none
blocker fs node (d ∷ ds) =
    let later = blocker fs node ds in if is_named d && has_failed fs node d then some d else later

module _ (cluster : Text) where
  -- The record before the work.
  abbrev pub in_progress_object : Action → Object
  in_progress_object a = record {
    kind = a.kind;
    name = a.name;
    cluster = [];
    node = a.node;
    id = a.id;
    state = in_progress;
    last_action = what_text a.what;
    last_error = [];
    prune_reason = given a.reason;
  }

  -- The record after it.
  abbrev pub outcome_object : Action → Outcome → Object
  outcome_object a r = record {
    kind = a.kind;
    name = a.name;
    cluster = cluster;
    node = a.node;
    id = a.id;
    state = state_for a r.is_ok;
    last_action = what_text a.what;
    last_error = error_text r.error;
    prune_reason = given a.reason;
  }

  -- deferByDependency's record.
  abbrev pub blocked_object : Action → Text → Object
  blocked_object a dep = record {
    kind = a.kind;
    name = a.name;
    cluster = cluster;
    node = a.node;
    id = a.id;
    state = skipped;
    last_action = what_text a.what;
    last_error = codes "deferred: prerequisite " ++ dep ++ codes " failed this cycle";
    prune_reason = given a.reason;
  }

  -- The counters that an outcome moves.
  unfoldable pub count : Action → Bool → Store → Store
  count a true s = bump_actions_ok (if a.prune then bump_pruned s else s)
  count a false s = bump_actions_error s

  -- execute
  unfoldable pub execute : World → Action → Store → Trace → Outcome × Store × Trace
  unfolding count set_object apply
  execute w a s t =
      let (r, t') = apply w a t in
      let o = outcome_of a r in
      (
        o,
        count a o.is_ok (set_object (outcome_object a o) (set_object (in_progress_object a) s)),
        t',
      )

  -- "%s on node %s"
  abbrev pub dep_text : Ref → Text → Text
  dep_text d node = ref_text d ++ codes " on node " ++ node

  -- The body of Run's loop for an action that a failed dep blocks.
  abbrev pub block : Ref → Session → Action → Outcome × Session
  block d s a = (
    record {
      action = a;
      is_ok = false;
      error = some (
          codes "deferred: prerequisite "
          ++ dep_text d a.node
          ++ codes " failed earlier this cycle");
      did_stop = false;
    },
    record s { store = set_object (blocked_object a (dep_text d a.node)) s.store },
  )

  -- The failures after an outcome.
  abbrev pub note_failure : Outcome → Action → List Failed → List Failed
  note_failure o a fs =
      if not o.is_ok && is_named a.ref then record { ref = a.ref; node = a.node } ∷ fs else fs

  -- The body of Run's loop for an action that nothing blocks.
  abbrev pub attempt : World → Session → Action → Outcome × Session
  attempt w s a =
      let (o, store, trace) = execute w a s.store s.trace in
      (o, record { failures = note_failure o a s.failures; store = store; trace = trace })

  abbrev pub step_on : World → Option Ref → Session → Action → Outcome × Session
  step_on w (some d) s a = block d s a
  step_on w none s a = attempt w s a

  -- The body of Run's loop.
  unfoldable pub step : World → Session → Action → Outcome × Session
  unfolding blocker execute set_object
  step w s a = step_on w (blocker s.failures a.node a.deps) s a

  -- Run's loop.
  unfoldable pub run_actions : World → Session → List Action → List Outcome × Session
  unfolding step
  run_actions w s [] = ([], s)
  run_actions w s (a ∷ rest) =
      let (o, s') = step w s a in let (os, s'') = run_actions w s' rest in (o ∷ os, s'')

  -- recordDeferred's record.
  abbrev pub deferred_object : Action → Object
  deferred_object a = record {
    kind = a.kind;
    name = a.name;
    cluster = [];
    node = a.node;
    id = a.id;
    state = skipped;
    last_action = what_text delete;
    last_error = [];
    prune_reason = deferred a.reason;
  }

  -- recordDeferred
  unfoldable pub record_deferred : List Action → Store → Store
  unfolding set_object
  record_deferred [] s = s
  record_deferred (a ∷ rest) s =
      record_deferred rest (bump_prune_deferred (set_object (deferred_object a) s))

  -- Run
  unfoldable pub run : World → Plan → Store → Trace → List Outcome × Store × Trace
  unfolding run_actions record_deferred
  run w p store t =
      let (os, s) = run_actions w (record { failures = []; store = store; trace = t }) p.actions in
      (os, record_deferred p.deferred s.store, s.trace)
