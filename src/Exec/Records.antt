-- ===== src/Exec/Records.antt =====
-- The status records and counters that the executor leaves.
use proxops.Base.{◌⊎◌, true, false, refl, [], Text, Bool, ◌≡◌, ◌≢◌, arith, some, false, text_eq_iff}
use proxops.Exec.Session.{World, Trace}
use proxops.Exec.Run.{execute, outcome_object, in_progress_object, count}
use proxops.Status.Store.{
  Object, pruned, converged, failed, Store, Key, find_object, key_eq, set_object,
}
use proxops.Status.Listing.{find-set_object, key_eq_refl}
use proxops.Plan.Types.{Action, delete}
use proxops.Base.Result.{Result, ok, err}
use proxops.Exec.Apply.{Fault}

-- Counting leaves the records.
count-objects :
    (cluster : Text) (a : Action) (b : Bool) (s : Store) → (count cluster a b s).objects ≡ s.objects
unfolding count
count-objects cluster a true s = ground arith
count-objects cluster a false s = refl

abbrev pub key_at : Text → Action → Key
key_at cluster a = record { cluster = cluster; kind = a.kind; name = a.name }

-- What a record says after PVE's answers to an action.
abbrev pub TellsAnswer : Action → Result Fault Bool → Object → Type 0
TellsAnswer a (ok did) x =
    (x.last_error ≡ [])
    × (((a.what ≡ delete) × (x.state ≡ pruned)) ⊎ ((a.what ≢ delete) × (x.state ≡ converged)))
TellsAnswer a (err f) x = (x.last_error ≡ f.message) × (x.state ≡ failed)

-- With a cluster of its own, an executed action also leaves its in-progress record behind, under
-- the empty cluster: the record before the work does not say the cluster.
pub execute-leaves_stale :
    (cluster : Text) (w : World) (a : Action) (s : Store) (t : Trace)
    → cluster ≢ []
    → let (_, s', _) = execute cluster w a s t in
      find_object (key_at [] a) s'.objects ≡ some (in_progress_object cluster a)
unfolding execute
execute-leaves_stale cluster w a s t h =
    let (o, _, _) = execute cluster w a s t in
    let before = set_object (in_progress_object cluster a) s in
    let other : key_eq (key_at cluster a) (key_at [] a) ≡ false =
      unfold key_eq in ground (arith, h, text_eq_iff cluster []) in
    rw count-objects (
      ground (
        arith,
        find-set_object (outcome_object cluster a o) before (key_at [] a),
        find-set_object (in_progress_object cluster a) s (key_at [] a),
        other,
        key_eq_refl (key_at [] a),
      ))
