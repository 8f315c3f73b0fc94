-- ===== src/Exec/Apply.antt =====
-- One action on PVE: update and apply of internal/exec/exec.go.
use proxops.Base.{Bool, Text, false, codes, ◌&&◌, ◌++◌, true, text_eq}
use proxops.Exec.Session.{World, Io, ◌>>=◌, ◌>>◌, pure, raise, wait_task, with_error}
use proxops.Exec.Operations.{
  stop_and_wait, start_op, update_config, delete_op, create_op, mark_template_op,
}
use proxops.Plan.Types.{
  create, update, start, stop, delete, status_only, anomaly, mark_template, Action, ActionKind,
}

-- string(a.What)
unfoldable pub what_text : ActionKind → Text
what_text create = codes "create"
what_text update = codes "update"
what_text start = codes "start"
what_text stop = codes "stop"
what_text delete = codes "delete"
what_text status_only = codes "verify"
what_text anomaly = codes "anomaly"
what_text mark_template = codes "mark-template"

-- The results (didStop, err) where err is not nil.
pub record Fault : Type 0 where
  pub did_stop : Bool
  pub message : Text

-- An error that is returned with a didStop, as it is or behind a note.
abbrev pub failing : {A : Type 0} → Bool → (Text → Text) → Io Text A → Io Fault A
failing did note = with_error (λ e. record { did_stop = did; message = note e })

abbrev as_is : Text → Text
as_is e = e

abbrev pub started : Text
started = codes "started"

abbrev pub running : Text
running = codes "running"

module _ (w : World) where
  -- The stop that precedes an update or a deletion where one is asked for: didStop.
  unfoldable pub stop_if : Bool → Text → Action → Io Fault Bool
  unfolding stop_and_wait
  stop_if false note a = pure false
  stop_if true note a = do failing false (λ e. note ++ e) (stop_and_wait w a); pure true

  -- The restart after an update that stopped the object.
  unfoldable pub restart_if : Bool → Action → Io Fault Unit
  unfolding start_op wait_task
  restart_if false a = pure tt
  restart_if true a = do
    upid ←
        failing true
          (λ e.
            codes "restart after stop-required update: "
            ++ e
            ++ codes " (object left stopped; next cycle re-diffs power)")
          (start_op w a)
    failing true (λ e. codes "restart wait: " ++ e) (wait_task w a.node upid)

  -- update
  unfoldable pub update_action : Action → Io Fault Bool
  unfolding stop_if update_config wait_task restart_if
  update_action a = do
    did ← stop_if (a.stop_first && text_eq a.live_power running) (codes "stop-first: ") a
    upid ← failing did as_is (update_config w a)
    failing did as_is (wait_task w a.node upid)
    restart_if (did && text_eq a.desired_power started) a
    pure did

  -- apply, case plan.Delete
  unfoldable pub delete_action : Action → Io Fault Bool
  unfolding stop_if delete_op wait_task
  delete_action a = do
    did ← stop_if (text_eq a.live_power running) (codes "pre-delete stop: ") a
    upid ← failing did as_is (delete_op w a)
    failing did as_is (wait_task w a.node upid)
    pure did

  -- apply, an operation and the wait for its task
  unfoldable pub awaited : Io Text Text → Action → Io Fault Bool
  unfolding wait_task
  awaited op a = do
    upid ← failing false as_is op
    failing false as_is (wait_task w a.node upid)
    pure false

  -- apply
  unfoldable pub apply_by : ActionKind → Action → Io Fault Bool
  unfolding delete_action update_action awaited create_op mark_template_op start_op stop_and_wait
      what_text
  apply_by delete a = delete_action a
  apply_by update a = update_action a
  apply_by create a = awaited (create_op w a) a
  apply_by mark_template a = awaited (mark_template_op w a) a
  apply_by start a = awaited (start_op w a) a
  apply_by stop a = do failing false as_is (stop_and_wait w a); pure true
  apply_by status_only a = pure false
  apply_by anomaly a = raise (record {
    did_stop = false;
    message = codes "unknown action kind \"" ++ what_text a.what ++ codes "\"";
  })

  unfoldable pub apply : Action → Io Fault Bool
  unfolding apply_by
  apply a = apply_by a.what a
