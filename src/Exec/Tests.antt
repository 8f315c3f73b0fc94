-- ===== src/Exec/Tests.antt =====
-- Two actions on a PVE that refuses every create and accepts the rest at once.
use proxops.Base.{
  Bool, ◌≢◌, inl, text_eq_iff, ap, [], ◌∷◌, ◌≡◌, Text, text_eq, none, codes, map, some, true, false,
  length, refl,
}
use proxops.Base.Result.{ok, err, Result}
use proxops.Schema.Kind.{ref_eq, kind_vm, Ref}
use proxops.Plan.Types.{Action, action_of, create, delete}
use proxops.Status.Store.{new, find_object}
use proxops.Exec.Session.{World, Call, create_guest, called, delete_guest, qemu, stop_guest}
use proxops.Exec.Apply.{apply, running, Fault}
use proxops.Exec.Run.{run_actions, execute, Session, in_progress_object, Outcome, is_named}
use proxops.Exec.Deferral.{run_actions-Runs, Runs}
use proxops.Exec.Chain.{run_actions-third_attempted}
use proxops.Exec.Records.{execute-leaves_stale, key_at}

abbrev apply_fault : Result Fault Bool → Fault
apply_fault (ok did) = record { message = []; did_stop = did }
apply_fault (err f) = f

abbrev respond : Call → Result Text Text
respond (create_guest g n f s) = err (codes "no space")
respond _ = ok []

abbrev full_node : World
full_node = record { answer = λ t c. respond c; config = λ t n i. ok []; settle = λ t n u. none }

abbrev db_ref : Ref
db_ref = record { kind = kind_vm; name = codes "db" }

abbrev create_db : Action
create_db = record (action_of create) {
  kind = kind_vm;
  name = codes "db";
  node = codes "n1";
  id = 101;
  ref = db_ref;
}

-- It needs the first one.
abbrev create_web : Action
create_web = record create_db {
  name = codes "web";
  id = 102;
  deps = db_ref ∷ [];
  ref = record { kind = kind_vm; name = codes "web" };
}

abbrev delete_db : Action
delete_db = record create_db { what = delete; live_power = running }

abbrev fresh : Session
fresh = record { failures = []; store = new; trace = [] }

abbrev prod : Text
prod = codes "prod"

delete_test : apply full_node delete_db [] ≡ (
  ok true,
  called (delete_guest qemu (codes "n1") 101) (ok [])
      ∷ called (stop_guest qemu (codes "n1") 101) (ok [])
      ∷ [],
)
unfolding apply text_eq
delete_test = refl

defer_test :
    let (os, s) = run_actions prod full_node fresh (create_db ∷ create_web ∷ []) in
    (map (λ o. o.is_ok) os ≡ false ∷ false ∷ []) × (length s.trace ≡ 1)
unfolding run_actions text_eq ref_eq
defer_test = (refl, refl)

run_actions-Runs_example :
    let (os, s) = run_actions prod full_node fresh (create_db ∷ create_web ∷ []) in
    Runs full_node [] [] (create_db ∷ create_web ∷ []) os s.trace
run_actions-Runs_example = run_actions-Runs prod full_node fresh (create_db ∷ create_web ∷ [])

-- It needs the second one.
abbrev create_app : Action
create_app = record create_web {
  name = codes "app";
  id = 103;
  deps = create_web.ref ∷ [];
  ref = record { kind = kind_vm; name = codes "app" };
}

chain_test :
    let (os, s) = run_actions prod full_node fresh (create_db ∷ create_web ∷ create_app ∷ []) in
    (map (λ o. o.is_ok) os ≡ false ∷ false ∷ false ∷ []) × (length s.trace ≡ 2)
unfolding run_actions text_eq ref_eq
chain_test = (refl, refl)

refused_test :
    apply full_node create_db []
    ≡ (err (apply_fault (apply full_node create_db []).0), (apply full_node create_db []).1)
unfolding apply text_eq
refused_test = refl

web_not_db : create_web.ref ≢ db_ref
web_not_db e =
    let d : text_eq (codes "web") (codes "db") ≡ true =
      (text_eq_iff (codes "web") (codes "db")).1 (ap (λ (r : Ref). r.name) e) in
    let f : text_eq (codes "web") (codes "db") ≡ false = unfold text_eq in refl in cc

run_actions-third_attempted_example :
    let (os, s) = run_actions prod full_node fresh (create_db ∷ create_web ∷ create_app ∷ []) in
    (s.trace ≡ (apply full_node create_app (apply full_node create_db []).1).1)
    × ((oa : Outcome) × (ob : Outcome) × (oc : Outcome) × (os ≡ oa ∷ ob ∷ oc ∷ [])
        × (oa.is_ok ≡ false)
        × (ob.is_ok ≡ false))
run_actions-third_attempted_example =
    run_actions-third_attempted prod full_node new [] (apply full_node create_db []).1 create_db
      create_web create_app (apply_fault (apply full_node create_db []).0) refused_test
      (unfold is_named text_eq in refl) refl (inl refl) web_not_db refl

execute-leaves_stale_example :
    let (_, s, _) = execute prod full_node delete_db new [] in
    find_object (key_at [] delete_db) s.objects ≡ some (in_progress_object prod delete_db)
execute-leaves_stale_example = execute-leaves_stale prod full_node delete_db new [] (λ e. cc)
