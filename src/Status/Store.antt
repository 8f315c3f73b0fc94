-- ===== src/Status/Store.antt =====
-- The status store of internal/statusx/statusx.go. Time stamps and the lock are left out: the
-- operations are the critical sections.
use proxops.Base.{
  ℕ, Bool, List, length, [], if◌then◌else◌, ◌∷◌, text_eq, Text, ◌+◌, Option, none, not, ◌&&◌,
  filter, some, text_lt, false,
}
use proxops.Base.Sort.{insertion_sort}
use proxops.Schema.Kind.{Kind}
use proxops.Plan.Types.{Reason}

-- type State string
pub data State : Type 0 where
  desired drift converged orphan pruned skipped anomalous in_progress failed : State

-- Object.PruneReason: an action's reason, as it is or behind the executor's note on deferral.
pub data PruneReason : Type 0 where
  given deferred : Reason → PruneReason

pub record Object : Type 0 where
  pub kind : Kind
  pub name : Text
  pub cluster : Text
  pub node : Text
  pub id : ℕ
  pub state : State
  pub last_action : Text
  pub last_error : Text
  pub prune_reason : PruneReason

pub record Key : Type 0 where
  pub cluster : Text
  pub kind : Kind
  pub name : Text

pub record Cycle : Type 0 where
  pub commit : Text
  pub objects : ℕ
  pub actions_ok : ℕ
  pub actions_error : ℕ
  pub pruned : ℕ
  pub prune_deferred : ℕ
  pub skipped : ℕ
  pub anomalies : ℕ
  pub desired_stale : Bool
  pub read_only : Bool
  pub aborted : Bool
  pub abort_reason : Text

-- `objects` has at most one record of a key; `last` is nil before the first cycle.
pub record Store : Type 0 where
  pub objects : List Object
  pub last : Option Cycle

abbrev pub key_of : Object → Key
key_of o = record { cluster = o.cluster; kind = o.kind; name = o.name }

unfoldable pub key_eq : Key → Key → Bool
key_eq j k = text_eq j.cluster k.cluster && (text_eq j.kind k.kind && text_eq j.name k.name)

-- New
abbrev pub new : Store
new = record { objects = []; last = none }

-- BeginCycle
abbrev pub begin_cycle : (commit : Text) (desired_stale read_only : Bool) → Store → Store
begin_cycle commit stale ro s = record s {
  last = some (record {
    commit = commit;
    objects = 0;
    actions_ok = 0;
    actions_error = 0;
    pruned = 0;
    prune_deferred = 0;
    skipped = 0;
    anomalies = 0;
    desired_stale = stale;
    read_only = ro;
    aborted = false;
    abort_reason = [];
  });
}

-- SetObject
unfoldable pub set_object : Object → Store → Store
unfolding key_eq
set_object o s = record s {
  objects = o ∷ filter (λ p. not (key_eq (key_of p) (key_of o))) s.objects;
}

-- s.objects[key]
unfoldable pub find_object : Key → List Object → Option Object
find_object k [] = none
find_object k (o ∷ os) = if key_eq (key_of o) k then some o else find_object k os

-- A counter's critical section: nothing without a cycle.
abbrev pub bump : (Cycle → Cycle) → Store → Store
bump f s = record s { last = elim s.last [ none ↦ none | some c ↦ some (f c) ] }

-- BumpActionsOK
abbrev pub bump_actions_ok : Store → Store
bump_actions_ok = bump (λ c. record c { actions_ok = c.actions_ok + 1 })

-- BumpActionsError
abbrev pub bump_actions_error : Store → Store
bump_actions_error = bump (λ c. record c { actions_error = c.actions_error + 1 })

-- BumpPruned
abbrev pub bump_pruned : Store → Store
bump_pruned = bump (λ c. record c { pruned = c.pruned + 1 })

-- BumpPruneDeferred
abbrev pub bump_prune_deferred : Store → Store
bump_prune_deferred = bump (λ c. record c { prune_deferred = c.prune_deferred + 1 })

-- BumpAnomaly
abbrev pub bump_anomaly : Store → Store
bump_anomaly = bump (λ c. record c { anomalies = c.anomalies + 1 })

-- BumpSkipped
abbrev pub bump_skipped : Store → Store
bump_skipped = bump (λ c. record c { skipped = c.skipped + 1 })

-- FinishCycle
abbrev pub finish_cycle : (aborted : Bool) (reason : Text) → Store → Store
finish_cycle aborted reason s =
    bump (λ c. record c { aborted = aborted; abort_reason = reason; objects = length s.objects }) s

-- ObjectCount
abbrev pub object_count : Store → ℕ
object_count s = length s.objects

-- lessObject
unfoldable pub less_object : Object → Object → Bool
less_object a b =
    if not (text_eq a.cluster b.cluster)
    then text_lt a.cluster b.cluster
    else if not (text_eq a.kind b.kind)
    then text_lt a.kind b.kind
    else text_lt a.name b.name

-- sortObjects
unfoldable pub sort_objects : List Object → List Object
sort_objects = insertion_sort less_object

-- Objects
unfoldable pub objects : Store → List Object
unfolding sort_objects
objects s = sort_objects s.objects
