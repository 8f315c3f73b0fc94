-- ===== src/Exec/Chain.antt =====
-- A chain of three actions, of which the first fails: what Run's loop makes of the third.
use proxops.Base.{
  List, [], ◌∷◌, Text, ◌≡◌, ◌≢◌, true, false, none, some, Option, refl, sym, ap, ◌∙◌, arith, IsIn,
  inl, Any-imp,
}
use proxops.Base.Result.{err}
use proxops.Exec.Session.{World, Trace}
use proxops.Exec.Apply.{apply, Fault}
use proxops.Exec.Deferral.{IsFailedAt, blocker-none}
use proxops.Exec.Run.{
  Session, Failed, Outcome, run_actions, blocker, has_failed, is_named, step, execute,
}
use proxops.Schema.Kind.{Ref, ref_eq, ref_eq_iff}
use proxops.Status.Store.{Store}
use proxops.Plan.Types.{Action}

-- Nothing is put off before something failed.
pub blocker-empty : (node : Text) (ds : List Ref) → blocker [] node ds ≡ none
unfolding blocker has_failed
blocker-empty node [] = refl
blocker-empty node (d ∷ ds) = ground (arith, blocker-empty node ds)

-- A dep that failed on the node is found, if it is not another one that is.
blocker-failed :
    (fs : List Failed) (node : Text) (ds : List Ref) (r : Ref)
    → is_named r ≡ true
    → IsIn r ds
    → (d : Ref) × (blocker (record { ref = r; node = node } ∷ fs) node ds ≡ some d)
blocker-failed fs node ds r n m =
    by_answer (blocker (record { ref = r; node = node } ∷ fs) node ds) refl
  where
    by_answer :
        (o : Option Ref)
        → blocker (record { ref = r; node = node } ∷ fs) node ds ≡ o
        → (d : Ref) × (blocker (record { ref = r; node = node } ∷ fs) node ds ≡ some d)
    by_answer (some d) e = (d, e)
    by_answer none e = absurd (
        blocker-none (record { ref = r; node = node } ∷ fs) node ds e (
          Any-imp (λ d. d ≡ r) (IsFailedAt (record { ref = r; node = node } ∷ fs) node)
            (λ d q. rw q (n, inl refl)) ds m))

-- A dep that is another one is not found.
blocker-other :
    (node there : Text) (r d : Ref)
    → d ≢ r
    → blocker (record { ref = r; node = node } ∷ []) there (d ∷ []) ≡ none
unfolding blocker has_failed
blocker-other node there r d n =
    let other : ref_eq r d ≡ false = ground (arith, ref_eq_iff r d, n) in rw other (ground arith)

module _ (cluster : Text) (w : World) where
  step-fails :
      (s : Session) (a : Action) (f : Fault) (u : Trace)
      → blocker s.failures a.node a.deps ≡ none
      → apply w a s.trace ≡ (err f, u)
      → is_named a.ref ≡ true
      → let (o, s') = step cluster w s a in
        (o.is_ok ≡ false)
        × (s'.failures ≡ record { ref = a.ref; node = a.node } ∷ s.failures)
        × (s'.trace ≡ u)
  unfolding step execute
  step-fails s a f u b h n = rw (b, h, n) (refl, refl, refl)

  step-put_off :
      (s : Session) (a : Action) (d : Ref)
      → blocker s.failures a.node a.deps ≡ some d
      → let (o, s') = step cluster w s a in
        (o.is_ok ≡ false) × (s'.failures ≡ s.failures) × (s'.trace ≡ s.trace)
  unfolding step
  step-put_off s a d b = rw b (refl, refl, refl)

  step-attempts :
      (s : Session) (a : Action)
      → blocker s.failures a.node a.deps ≡ none
      → (step cluster w s a).1.trace ≡ (apply w a s.trace).1
  unfolding step execute
  step-attempts s a b = rw b refl

-- An action that is put off is not remembered as one that failed. Where a run of three actions starts
-- with one that has a kind and a name and fails, the second, for another object, needs the first on
-- the same node, and the third needs only the second, the second is put off and the third is
-- attempted all the same, right after the first.
pub run_actions-third_attempted :
    (cluster : Text) (w : World) (store : Store) (t u : Trace) (a b c : Action) (f : Fault)
    → apply w a t ≡ (err f, u)
    → is_named a.ref ≡ true
    → a.node ≡ b.node
    → IsIn a.ref b.deps
    → b.ref ≢ a.ref
    → c.deps ≡ b.ref ∷ []
    → let (os, s) =
        run_actions cluster w
          (record { failures = []; store = store; trace = t })
          (a ∷ b ∷ c ∷ []) in
      (s.trace ≡ (apply w c u).1)
      × ((oa : Outcome) × (ob : Outcome) × (oc : Outcome) × (os ≡ oa ∷ ob ∷ oc ∷ [])
          × (oa.is_ok ≡ false)
          × (ob.is_ok ≡ false))
unfolding run_actions
run_actions-third_attempted cluster w store t u a b c f h n same m other only =
    let start : Session = record { failures = []; store = store; trace = t } in
    let s1 = (step cluster w start a).1 in
    let s2 = (step cluster w s1 b).1 in
    let (first_fails, failures, said) =
      step-fails cluster w start a f u (blocker-empty a.node a.deps) h n in
    let (d, found) = blocker-failed [] a.node b.deps a.ref n m in
    let blocked : blocker s1.failures b.node b.deps ≡ some d = rw (failures, sym same) found in
    let (second_fails, kept, silent) = step-put_off cluster w s1 b d blocked in
    let free : blocker s2.failures c.node c.deps ≡ none =
      rw (kept, failures, only) (blocker-other a.node c.node a.ref b.ref other) in
    (
      step-attempts cluster w s2 c free ∙ ap (λ z. (apply w c z).1) (silent ∙ said),
      (_, _, _, refl, first_fails, second_fails),
    )
