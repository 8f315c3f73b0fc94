-- ===== src/Reconcile/Expected.antt =====
-- The record of a running cycle in the status, against what is expected of it.
use proxops.Base.{◌⊎◌, ◌<◌, ◌≤◌, Option, none, some, ◌≡◌}
use proxops.Status.Store.{bump, Store, Cycle}

-- The record of a cycle says what is expected. The failures of the actions that were put off are
-- expected and not counted; but the first of the failures is.
abbrev pub IsOf : (expected y : Cycle) → Type 0
IsOf b y =
    (y.commit ≡ b.commit)
    × (y.desired_stale ≡ b.desired_stale)
    × (y.read_only ≡ b.read_only)
    × (y.actions_ok ≡ b.actions_ok)
    × (y.actions_error ≤ b.actions_error)
    × ((b.actions_error ≡ 0) ⊎ (0 < y.actions_error))
    × (y.pruned ≡ b.pruned)
    × (y.prune_deferred ≡ b.prune_deferred)
    × (y.skipped ≡ b.skipped)
    × (y.anomalies ≡ b.anomalies)

abbrev pub Holds : Cycle → Option Cycle → Type 0
Holds b none = ⊥
Holds b (some y) = IsOf b y

abbrev pub IsCurrent : Cycle → Store → Type 0
IsCurrent b s = Holds b s.last

pub bump-IsCurrent :
    (b c : Cycle) (f : Cycle → Cycle) (s : Store)
    → ((y : Cycle) → IsOf b y → IsOf c (f y))
    → IsCurrent b s
    → IsCurrent c (bump f s)
bump-IsCurrent b c f s k h = mapped s.last h
  where
    mapped : (o : Option Cycle) → Holds b o → Holds c (elim o [ none ↦ none | some y ↦ some (f y) ])
    mapped none m = m
    mapped (some y) m = k y m

pub Holds-imp :
    (b c : Cycle) (o : Option Cycle) → ((y : Cycle) → IsOf b y → IsOf c y) → Holds b o → Holds c o
Holds-imp b c none k m = m
Holds-imp b c (some y) k m = k y m
