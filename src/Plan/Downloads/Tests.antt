-- ===== src/Plan/Downloads/Tests.antt =====
-- An ISO for two nodes, of which one has it.
use proxops.Base.{
  true, false, [], ◌∷◌, none, some, ◌≡◌, refl, Text, codes, text_eq, map, filter, to_lower,
}
use proxops.Base.Result.{ok}
use proxops.Schema.Kind.{kind_iso}
use proxops.Schema.Value.{bool}
use proxops.Schema.Artifact.{
  ArtifactSpec, ArtifactError, validate, download_params, nodes_of, iso_resource,
}
use proxops.Plan.Types.{Action, PlanOptions, LiveInventory, action_of, create}
use proxops.Plan.Desired.{plan_artifact, download_action}
use proxops.Plan.Downloads.{is_absent, iso-downloads}
use proxops.Exec.Session.{World}

abbrev debian : ArtifactSpec
debian = record {
  node = [];
  nodes = codes "n1" ∷ codes "n2" ∷ codes "n1" ∷ [];
  storage = codes "local";
  filename = codes "debian.iso";
  url = codes "https://d/debian.iso";
  checksum = record { algorithm = []; value = [] };
}

abbrev spell : ArtifactError → Text
spell e = codes "error"

debian_test : validate (codes "iso") debian ≡ none
unfolding validate text_eq to_lower
debian_test = refl

abbrev options : PlanOptions
options = record { prune_budget = 1; levels = λ r. 0; edges = λ r. []; node_allowlist = [] }

abbrev inventory : LiveInventory
inventory = record {
  configs =
      (codes "n1|ISO|local:debian.iso", some ((codes "present", bool true) ∷ []))
      ∷ (codes "n2|ISO|local:debian.iso", some ((codes "present", bool false) ∷ []))
      ∷ [];
  power = [];
  listing = [];
}

iso-downloads_example :
    (plan_artifact options inventory (iso_resource spell (codes "debian") debian)).actions
    ≡ map
        (download_action options inventory
          (iso_resource spell (codes "debian") debian)
          (download_params (codes "iso") debian))
        (filter
          (is_absent options inventory
            (record {
              content = codes "iso";
              storage = codes "local";
              filename = codes "debian.iso";
            })
            kind_iso)
          (nodes_of [] (codes "n1" ∷ codes "n2" ∷ codes "n1" ∷ [])))
iso-downloads_example = iso-downloads options inventory spell (codes "debian") debian debian_test

abbrev silent : World
silent = record { answer = λ t c. ok []; config = λ t n id. ok []; settle = λ t n u. none }

abbrev fetch_debian : Action
fetch_debian = record (action_of create) {
  kind = kind_iso;
  node = codes "n2";
  params = download_params (codes "iso") debian;
}
