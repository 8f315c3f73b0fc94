-- ===== src/Parse/Tests.antt =====
-- Two resources of one cluster, and a third that takes the PVE id of the first.
use proxops.Base.{ℕ, [], ◌∷◌, refl, ◌≡◌, text_eq, Text, codes, false, digits_of, IsOrdered}
use proxops.Base.Result.{ok, err}
use proxops.Schema.Kind.{kind_vm, kind_lxc, Kind, ref_eq}
use proxops.Schema.Resource.{Resource, other}
use proxops.Base.{List, inl, inr, none, some, if◌then◌else◌, All}
use proxops.Schema.Kind.{Ref}
use proxops.Parse.Cycle.{index_of_cycle, cycle}
use proxops.Parse.Cycle.Answer.{IsAnswer, index_of_cycle-IsAnswer}
use proxops.Parse.Deps.{check_deps, edges_for, order_of}
use proxops.Parse.Levels.{Memo, levels}
use proxops.Parse.Levels.Memoised.{IsLeveled}
use proxops.Parse.Checked.{IsReport, check_deps-IsReport, check_deps-IsLeveled}
use proxops.Parse.Index.{Index, build_index, id_key, id_claimed, is_defined}
use proxops.Parse.Unique.{build_index-IsApartFrom, IsApartFrom}

abbrev guest : Kind → Text → ℕ → Resource
guest k n id = record {
  ref = record { kind = k; name = n };
  node = codes "n1";
  nodes = codes "n1" ∷ [];
  id = id;
  desired_state = codes "started";
  to_create_params = ok [];
  drift = λ cfg. record { update_params = []; stop_required = false; changed = false };
  drift_anomalies = λ cfg. [];
  deps = [];
  concrete = other;
}

abbrev web : Resource
web = guest kind_vm (codes "web") 101

abbrev db : Resource
db = guest kind_lxc (codes "db") 102

abbrev clash : Resource
clash = guest kind_lxc (codes "cache") 101

clash_test :
    build_index (web ∷ db ∷ clash ∷ []) ≡ err (id_claimed 101 (codes "n1") web.ref clash.ref)
unfolding build_index text_eq digits_of ref_eq
clash_test = refl

build_index-IsApartFrom_example :
    ((web ∷ db ∷ []) ≡ web ∷ db ∷ []) × IsOrdered IsApartFrom (web ∷ db ∷ [])
build_index-IsApartFrom_example =
    unfold build_index text_eq digits_of ref_eq is_defined in
    build_index-IsApartFrom (web ∷ db ∷ [])
      (record {
        resources = web ∷ db ∷ [];
        seen_id = (id_key (codes "n1") 102, db.ref) ∷ (id_key (codes "n1") 101, web.ref) ∷ [];
      })
      refl

-- The first needs the second.
abbrev needs_db : Ref → List Ref
needs_db r = if ref_eq r web.ref then db.ref ∷ [] else []

index_of_cycle-IsAnswer_example :
    IsAnswer needs_db (web.ref ∷ db.ref ∷ []) (index_of_cycle needs_db (web.ref ∷ db.ref ∷ []))
index_of_cycle-IsAnswer_example =
    index_of_cycle-IsAnswer needs_db (web.ref ∷ db.ref ∷ [])
      (unfold ref_eq text_eq in ((inr (inl refl), tt), (tt, tt)))

-- Each needs the other.
cycle_test :
    index_of_cycle
      (λ r. if ref_eq r web.ref then db.ref ∷ [] else web.ref ∷ [])
      (web.ref ∷ db.ref ∷ [])
    ≡ cycle (web.ref ∷ db.ref ∷ web.ref ∷ [])
unfolding index_of_cycle ref_eq text_eq
cycle_test = refl

abbrev linked : Index
linked = record { resources = record web { deps = db.ref ∷ [] } ∷ db ∷ []; seen_id = [] }

check_deps-IsReport_example : IsReport (λ r. none) linked (check_deps (λ r. none) linked)
check_deps-IsReport_example = check_deps-IsReport (λ r. none) linked

check_deps-IsLeveled_example :
    (f : ℕ) × (m : Memo) × (levels (edges_for (λ r. none) linked) f (order_of linked) ≡ some m)
    × All (IsLeveled (edges_for (λ r. none) linked) m) (order_of linked)
check_deps-IsLeveled_example =
    check_deps-IsLeveled (λ r. none) linked (unfold check_deps ref_eq text_eq in refl)
