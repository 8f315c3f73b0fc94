-- ===== src/Exec/Carefulness.antt =====
-- Every call of an applied action is careful.
use proxops.Base.{◌≡◌, refl, Text}
use proxops.Exec.Session.{Event, World, Trace, Io, mark_guest, start_guest}
use proxops.Exec.Care.{
  AllCareful, Ends, Ends-continue, Ends-recast, Ends-imp, send-Ends, wait-Ends, EndsAt,
}
use proxops.Exec.Careful.{update_action-Ends, delete_action-Ends, stop_and_wait-Ends}
use proxops.Exec.Creation.{create_op-Ends}
use proxops.Exec.Operations.{create_op, start_op, mark_template_op, guest_of, mark_guest_of}
use proxops.Exec.Apply.{apply, apply_by, awaited}
use proxops.Base.Result.{Result, ok, err}
use proxops.Plan.Types.{
  Action, ActionKind, create, update, start, stop, delete, status_only, anomaly, mark_template,
}

module _ (B : Event → Type 0) (w : World) (a : Action) where
  awaited-Ends :
      (op : Io Text Text) (t : Trace)
      → Ends (λ _ z. AllCareful B a z) (AllCareful B a) (op t)
      → Ends (λ _ z. AllCareful B a z) (AllCareful B a) (awaited w op a t)
  unfolding awaited
  awaited-Ends op t h = Ends-continue _ (Ends-recast _ h) (λ u z m.
      Ends-continue _ (Ends-recast _ (wait-Ends B w a a.node u z m)) (λ _ y n. record { at = n.1 }))

  start_op-Ends :
      (t : Trace)
      → a.what ≡ start
      → AllCareful B a t
      → Ends (λ _ z. AllCareful B a z) (AllCareful B a) (start_op w a t)
  unfolding start_op
  start_op-Ends t h k =
      Ends-imp
        (send-Ends B w a (start_guest (guest_of a.kind) a.node a.id) t (refl, refl, λ q. cc) k)
        (λ u z m. m.1)

  mark_template_op-Ends :
      (t : Trace)
      → AllCareful B a t
      → Ends (λ _ z. AllCareful B a z) (AllCareful B a) (mark_template_op w a t)
  unfolding mark_template_op
  mark_template_op-Ends t k = Ends-recast _ (
      Ends-imp (send-Ends B w a (mark_guest (mark_guest_of a.kind) a.node a.id) t (refl, refl) k)
        (λ u z m. m.1))

  apply_by-Ends :
      (k : ActionKind) (t : Trace)
      → a.what ≡ k
      → AllCareful B a t
      → Ends (λ _ z. AllCareful B a z) (AllCareful B a) (apply_by w k a t)
  unfolding apply_by
  apply_by-Ends create t h s = awaited-Ends (create_op w a) t (create_op-Ends B w a t h s)
  apply_by-Ends update t h s = update_action-Ends B w a t h s
  apply_by-Ends start t h s = awaited-Ends (start_op w a) t (start_op-Ends t h s)
  apply_by-Ends stop t h s =
      Ends-continue _ (Ends-recast _ (stop_and_wait-Ends B w a t s)) (λ _ z m. record { at = m.1 })
  apply_by-Ends delete t h s = delete_action-Ends B w a t h s
  apply_by-Ends status_only t h s = record { at = s }
  apply_by-Ends anomaly t h s = record { at = s }
  apply_by-Ends mark_template t h s =
      awaited-Ends (mark_template_op w a) t (mark_template_op-Ends t s)

trace-of :
    {E A : Type 0} (P : Trace → Type 0) (x : Result E A × Trace) → EndsAt (λ _ z. P z) P x → P x.1
trace-of P (ok v, t) h = h
trace-of P (err e, t) h = h

pub apply-AllCareful :
    (B : Event → Type 0) (w : World) (a : Action) (t : Trace)
    → AllCareful B a t
    → AllCareful B a (apply w a t).1
unfolding apply
apply-AllCareful B w a t h =
    trace-of (AllCareful B a) (apply_by w a.what a t) (apply_by-Ends B w a a.what t refl h).at
