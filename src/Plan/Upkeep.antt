-- ===== src/Plan/Upkeep.antt =====
-- Why the planner starts and stops objects.
use proxops.Base.{
  true, false, List, [], ◌≡◌, ◌≢◌, ◌⊎◌, refl, inl, arith, All, All-append, Text, codes, text_eq,
  text_eq_iff, text_eq_refl, All-imp, IsIn, All-IsIn, All-of_forall,
}
use proxops.Base.Result.{ok}
use proxops.Schema.Value.{Config}
use proxops.Schema.Resource.{Resource, Drift}
use proxops.Plan.Types.{Action, start, stop, PlanOptions, LiveInventory, Plan}
use proxops.Plan.Live.{power_at, power_desired_to_live}
use proxops.Plan.Desired.{
  plan_artifact, plan_absent, drift_actions, power_actions, plan_present, plan_resource,
}
use proxops.Plan.Types.{Plan}
use proxops.Plan.Actions.{plan_actions}
use proxops.Plan.Safety.{plan_actions-All}
use proxops.Plan.Emission.{
  Emits, Emits-imp, IsSetup, plan_artifact-IsSetup, plan_absent-IsSetup, plan_desired-Emits,
}

-- The state that a power action needs: a stop is for a running object that is to be stopped, and a
-- start for an object that is to be started and whose power is known and not running.
pub record HasPowerCause (a : Action) : Type 0 where
  pub stops :
      (a.what ≢ stop) ⊎ ((a.desired_power ≡ codes "stopped") × (a.live_power ≡ codes "running"))
  pub starts :
      (a.what ≢ start)
      ⊎ ((a.desired_power ≡ codes "started")
          × (a.live_power ≢ codes "running")
          × (a.live_power ≢ []))

IsSetup-HasPowerCause : (a : Action) → IsSetup a → HasPowerCause a
IsSetup-HasPowerCause a s = record {
  stops = inl (ground (arith, s.makes));
  starts = inl (ground (arith, s.makes));
}

-- The three verbs are told apart.
start_not_stop :
    (text_eq (codes "start") (codes "stop") ≡ false)
    × (text_eq (codes "stop") (codes "stop") ≡ true)
unfolding text_eq
start_not_stop = (refl, refl)

-- The verb for a power transition has a cause.
power_desired_to_live_cases :
    (desired live : Text)
    → (power_desired_to_live desired live ≡ [])
      ⊎ ((power_desired_to_live desired live ≡ codes "start")
          × (desired ≡ codes "started")
          × (live ≢ codes "running")
          × (live ≢ []))
      ⊎ ((power_desired_to_live desired live ≡ codes "stop")
          × (desired ≡ codes "stopped")
          × (live ≡ codes "running"))
unfolding power_desired_to_live
power_desired_to_live_cases desired live = ground (
  arith,
  text_eq_iff live [],
  text_eq_iff live (codes "running"),
  text_eq_iff desired (codes "started"),
  text_eq_iff desired (codes "stopped"),
)

module _ (opts : PlanOptions) (live : LiveInventory) where
  power_actions-HasPowerCause :
      (r : Resource) (key : Text) → All HasPowerCause (power_actions opts live r key)
  unfolding power_actions
  power_actions-HasPowerCause r key = ground (
    arith,
    power_desired_to_live_cases r.desired_state (power_at live key),
    start_not_stop,
    text_eq_refl [],
  )

  drift_actions-HasPowerCause :
      (r : Resource) (key : Text) (d : Drift) → All HasPowerCause (drift_actions opts live r key d)
  unfolding drift_actions
  drift_actions-HasPowerCause r key d = ground arith

  plan_present-HasPowerCause :
      (r : Resource) (key : Text) (cfg : Config)
      → All HasPowerCause (plan_present opts live r key cfg).actions
  unfolding plan_present
  plan_present-HasPowerCause r key cfg = ground (
    arith,
    All-append HasPowerCause (drift_actions opts live r key (r.drift cfg))
        (power_actions opts live r key) (drift_actions-HasPowerCause r key (r.drift cfg))
        (power_actions-HasPowerCause r key),
  )

  -- Every power action of the pass has its cause, whatever the manifest and the inventory.
  plan_resource-HasPowerCause : (r : Resource) → Emits HasPowerCause (plan_resource opts live r)
  unfolding plan_resource
  plan_resource-HasPowerCause r = grind (
    arith,
    All-imp IsSetup HasPowerCause IsSetup-HasPowerCause (plan_artifact opts live r).actions
        (plan_artifact-IsSetup opts live r),
    Emits-imp IsSetup HasPowerCause IsSetup-HasPowerCause (plan_absent opts live r)
        (plan_absent-IsSetup opts live r),
    plan_present-HasPowerCause,
  )

-- A plan starts only what is to be started and is known not to run, and stops only what is to be
-- stopped and runs.
pub plan_actions-HasPowerCause :
    (opts : PlanOptions) (live : LiveInventory) (desired : List Resource) (p : Plan) (a : Action)
    → plan_actions opts live desired ≡ ok p
    → IsIn a p.actions
    → HasPowerCause a
plan_actions-HasPowerCause opts live desired p a h m =
    All-IsIn HasPowerCause p.actions
      (plan_actions-All opts live desired HasPowerCause
        (plan_desired-Emits opts live HasPowerCause desired (
          All-of_forall (λ r. Emits HasPowerCause (plan_resource opts live r))
            (plan_resource-HasPowerCause opts live) desired))
        (λ b c. record {
          stops = inl (ground (arith, c.orphan.deletes));
          starts = inl (ground (arith, c.orphan.deletes));
        })
        p h).0
      m
