-- ===== src/Status/Tests.antt =====
-- A store with two records of one name, on two clusters.
use proxops.Base.{
  ◌≢◌, ◌⊎◌, text_eq_iff, ap, true, false, [], ◌∷◌, Text, text_eq, codes, IsOrdered, refl, ◌≡◌, some,
}
use proxops.Schema.Kind.{kind_vm}
use proxops.Plan.Types.{no_reason}
use proxops.Status.Store.{
  Store, Object, State, set_object, objects, converged, failed, new, key_eq, given, Key,
  find_object, key_of,
}
use proxops.Status.Listing.{set_object-find, objects-IsOrdered, IsBefore, IsKeyed, IsMap}

abbrev record_on : Text → State → Object
record_on c st = record {
  kind = kind_vm;
  name = codes "web";
  cluster = c;
  node = codes "n1";
  id = 101;
  state = st;
  last_action = codes "create";
  last_error = [];
  prune_reason = given no_reason;
}

abbrev two_clusters : Store
two_clusters = record new {
  objects = record_on (codes "b") failed ∷ record_on (codes "a") converged ∷ [];
}

two_clusters-IsKeyed : IsKeyed two_clusters
two_clusters-IsKeyed = unfold key_eq text_eq in ((refl, tt), (tt, tt))

set_test :
    (set_object (record_on (codes "a") failed) two_clusters).objects
    ≡ record_on (codes "a") failed ∷ record_on (codes "b") failed ∷ []
unfolding set_object text_eq
set_test = refl

two_clusters-IsMap : IsMap two_clusters
two_clusters-IsMap = (((λ e. differ (ap (λ (k : Key). k.cluster) e)), tt), (tt, tt))
  where
    differ : ¬ (codes "b" ≡ codes "a")
    differ e =
        let d : text_eq (codes "b") (codes "a") ≡ true =
          (text_eq_iff (codes "b") (codes "a")).1 e in
        let f : text_eq (codes "b") (codes "a") ≡ false = unfold text_eq in refl in cc

set_object-find_example :
    let s = set_object (record_on (codes "a") failed) two_clusters in
    IsMap s
    × (find_object (key_of (record_on (codes "a") failed)) s.objects
        ≡ some (record_on (codes "a") failed))
    × ((k : Key)
        → (k.cluster ≢ codes "a") ⊎ (k.kind ≢ kind_vm) ⊎ (k.name ≢ codes "web")
        → find_object k s.objects ≡ find_object k two_clusters.objects)
set_object-find_example =
    set_object-find (record_on (codes "a") failed) two_clusters two_clusters-IsMap

objects-IsOrdered_example : IsOrdered IsBefore (objects two_clusters)
objects-IsOrdered_example = objects-IsOrdered two_clusters two_clusters-IsKeyed
