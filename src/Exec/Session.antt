-- ===== src/Exec/Session.antt =====
-- What the executor says to PVE: the calls of the client's handles (internal/pveclient/vm.go,
-- lxc.go and storage.go) and the awaited tasks, as a trace, latest event first. PVE's answers are
-- those of a `World`: they may depend on all that was said before.
use proxops.Base.{none, some, ℕ, Bool, List, Option, Text, if◌then◌else◌, ◌∷◌, some, text_eq, []}
use proxops.Base.Result.{Result, ok, err}
use proxops.Schema.Value.{Value, Params}

-- The two handles, client.VM() and client.LXC().
pub data Guest : Type 0 where
  qemu lxc : Guest

-- A form value; fmt.Sprint's text is not spelled out.
pub data FormValue : Type 0 where
  sprint : Value → FormValue
  text : Text → FormValue

-- url.Values
abbrev pub Form : Type 0
Form = List (Text × FormValue)

pub data Call : Type 0 where
  create_guest : Guest → (node : Text) → Form → (start : Bool) → Call
  update_guest : Guest → (node : Text) → (id : ℕ) → Form → Call
  start_guest stop_guest delete_guest mark_guest : Guest → (node : Text) → (id : ℕ) → Call
  clone_guest : (node : Text) → (source target : ℕ) → (name : Text) → Call
  download : (node storage url filename content : Text) → Call

-- A call with its answer, a task's id or an error; a read of a VM's configuration; and the wait
-- for a task with its error, if it has one.
pub data Event : Type 0 where
  called : Call → Result Text Text → Event
  read_config : (node : Text) → (id : ℕ) → Result Text Params → Event
  waited : (node upid : Text) → Option Text → Event

abbrev pub Trace : Type 0
Trace = List Event

pub record World : Type 0 where
  pub answer : Trace → Call → Result Text Text
  pub config : Trace → (node : Text) → (id : ℕ) → Result Text Params
  pub settle : Trace → (node upid : Text) → Option Text

-- A Go function that talks to PVE and returns a value or an error.
abbrev pub Io : Type 0 → Type 0 → Type 0
Io E A = Trace → Result E A × Trace

module _ {E A : Type 0} where
  abbrev pub pure : A → Io E A
  pure a t = (ok a, t)

  abbrev pub raise : E → Io E A
  raise e t = (err e, t)

abbrev pub continue : {E A B : Type 0} → Result E A × Trace → (A → Io E B) → Result E B × Trace
continue (ok a, t) f = f a t
continue (err e, t) f = (err e, t)

infixl 5 ◌>>=◌
abbrev pub ◌>>=◌ : {E A B : Type 0} → Io E A → (A → Io E B) → Io E B
(m >>= f) t = continue (m t) f

infixl 5 ◌>>◌
abbrev pub ◌>>◌ : {E A B : Type 0} → Io E A → Io E B → Io E B
m >> n = m >>= (λ _. n)

abbrev pub recast : {E F A : Type 0} → (E → F) → Result E A × Trace → Result F A × Trace
recast f (ok a, t) = (ok a, t)
recast f (err e, t) = (err (f e), t)

-- An error that is handed on in another form.
abbrev pub with_error : {E F A : Type 0} → (E → F) → Io E A → Io F A
with_error f m t = recast f (m t)

abbrev pub settle_result : Option Text → Trace → Result Text Unit × Trace
settle_result none t = (ok tt, t)
settle_result (some e) t = (err e, t)

module _ (w : World) where
  -- A call of the client.
  unfoldable pub send : Call → Io Text Text
  send c t = let r = w.answer t c in (r, called c r ∷ t)

  -- client.VM().Get
  unfoldable pub get_config : Text → ℕ → Io Text Params
  get_config node id t = let r = w.config t node id in (r, read_config node id r ∷ t)

  -- waitTask: there is no task to wait for where PVE acted at once.
  unfoldable pub wait_task : Text → Text → Io Text Unit
  wait_task node upid t =
      if text_eq upid []
      then (ok tt, t)
      else let r = w.settle t node upid in settle_result r (waited node upid r ∷ t)
