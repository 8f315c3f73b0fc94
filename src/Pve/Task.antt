-- ===== src/Pve/Task.antt =====
-- The wait for a PVE task: IsOK and Wait of internal/pveclient/task.go. The polls are what
-- statusNow brings until the deadline, the first one at once.
use proxops.Base.{
  Bool, List, [], ◌∷◌, ◌≡◌, All, Text, if◌then◌else◌, text_eq, codes, true, false, trim_space, ◌++◌,
  not, ◌⊎◌, to_lower, Bool-cases, ◌||◌, refl, inr, has_prefix, inl, to_upper, subst,
}

pub record TaskStatus : Type 0 where
  pub status : Text
  pub exit_status : Text

-- IsStopped
unfoldable pub is_stopped : TaskStatus → Bool
is_stopped s = text_eq s.status (codes "stopped")

-- IsOK
unfoldable pub is_task_ok : TaskStatus → Bool
is_task_ok s =
    if not (text_eq s.status (codes "stopped"))
    then false
    else text_eq (to_lower s.exit_status) (to_lower (codes "OK"))
      || has_prefix (to_upper s.exit_status) (codes "WARNINGS:")

-- What one statusNow brings.
pub data Poll : Type 0 where
  status : TaskStatus → Poll
  not_found : Poll
  transient : (error : Text) → Poll

pub data Waited : Type 0 where
  done : TaskStatus → Waited
  task_failed : (message : Text) → Waited
  task_not_found : Waited
  timed_out : (last_status : Text) → Waited

-- The message of a TaskFailedError.
unfoldable pub failure_message : Text → Text
failure_message exit_status =
    let msg = trim_space exit_status in
    if text_eq msg [] || text_eq msg (codes "OK")
    then codes "task stopped with a non-OK exit status"
    else msg

-- The end of a stopped task.
unfoldable pub ended : TaskStatus → Waited
unfolding is_task_ok failure_message
ended s = if is_task_ok s then done s else task_failed (failure_message s.exit_status)

-- Wait's loop, with the last status read.
unfoldable pub wait_from : TaskStatus → List Poll → Waited
unfolding is_stopped ended
wait_from last [] = timed_out last.status
wait_from last (not_found ∷ polls) = task_not_found
wait_from last (status s ∷ polls) =
    let rest = wait_from s polls in if is_stopped s then ended s else rest
wait_from last (transient e ∷ polls) =
    let rest = wait_from last polls in if is_stopped last then ended last else rest

abbrev no_status : TaskStatus
no_status = record { status = []; exit_status = [] }

-- Wait
unfoldable pub wait : List Poll → Waited
unfolding wait_from
wait = wait_from no_status

-- A poll after which the task may still be running: an error on the way, or a status that is not
-- stopped.
abbrev pub IsPending : Poll → Type 0
IsPending (status s) = is_stopped s ≡ false
IsPending not_found = ⊥
IsPending (transient e) = Unit

-- What a poll that is not pending decides.
abbrev pub Decides : Poll → Waited → Type 0
Decides (status s) w =
    (is_stopped s ≡ true)
    × (((is_task_ok s ≡ true) × (w ≡ done s))
        ⊎ ((is_task_ok s ≡ false) × (w ≡ task_failed (failure_message s.exit_status))))
Decides not_found w = w ≡ task_not_found
Decides (transient e) w = ⊥

ended-Decides : (s : TaskStatus) → is_stopped s ≡ true → Decides (status s) (ended s)
unfolding ended
ended-Decides s e = elim (Bool-cases (is_task_ok s)) [
  | inl k ↦ (e, inl (k, rw k refl))
  | inr k ↦ (e, inr (k, rw k refl))
]

wait_from-pending :
    (last : TaskStatus) (front : List Poll) (p : Poll) (rest : List Poll)
    → is_stopped last ≡ false
    → All IsPending front
    → ¬ IsPending p
    → Decides p (wait_from last (front ++ p ∷ rest))
unfolding wait_from
wait_from-pending last [] (status s) rest l h n = elim (Bool-cases (is_stopped s)) [
  | inr e ↦ elim (n e) [ ]
  | inl e ↦ subst (Decides (status s)) (rw e refl) (ended-Decides s e)
]
wait_from-pending last [] not_found rest l h n = refl
wait_from-pending last [] (transient e) rest l h n = elim (n tt) [ ]
wait_from-pending last (status s ∷ front) p rest l h n =
    rw h.0 (wait_from-pending s front p rest h.0 h.1 n)
wait_from-pending last (not_found ∷ front) p rest l h n = elim h.0 [ ]
wait_from-pending last (transient e ∷ front) p rest l h n =
    rw l (wait_from-pending last front p rest l h.1 n)

-- After polls that are pending, a wait returns what the first other poll decides, whatever comes
-- later: the task's status where it stopped well, its failure where it did not, and that it was not
-- found where it is gone.
pub wait-Decides :
    (front : List Poll) (p : Poll) (rest : List Poll)
    → All IsPending front
    → ¬ IsPending p
    → Decides p (wait (front ++ p ∷ rest))
unfolding wait
wait-Decides front p rest h n =
    let idle : is_stopped no_status ≡ false = unfold is_stopped text_eq in refl in
    wait_from-pending no_status front p rest idle h n
