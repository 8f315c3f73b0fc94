-- ===== src/Pve/Tests.antt =====
-- A breaker that three failures opened, and a task that is polled.
use proxops.Base.{
  ℕ, ◌≤◌, to_lower, List, [], ◌∷◌, false, codes, to_upper, true, has_prefix, ◌≡◌, arith, text_eq,
  refl, ◌++◌,
}
use proxops.Base.Result.{ok, err}
use proxops.Pve.Breaker.{WriteBreaker, allows, IsSound}
use proxops.Pve.Client.{send_request, answered, read_only, broken, Reply}
use proxops.Pve.Gate.{send_request-IsSound, read-closes}
use proxops.Pve.Outage.{after_writes, IsFailing, no_answer, outage-refuses}
use proxops.Pve.Task.{
  TaskStatus, Poll, wait-Decides, wait, status, Decides, transient, not_found, done, is_stopped,
}

abbrev opened : WriteBreaker
opened = record { threshold = 3; open_duration = 60; consec = 3; is_open = true; open_until = 100 }

fail_test :
    (send_request true false 5
      (5, broken [])
      ((6, broken []) ∷ (7, broken []) ∷ (8, broken []) ∷ [])
      (record opened { consec = 0; is_open = false })).1
    ≡ record opened { consec = 4; open_until = 67 }
unfolding send_request
fail_test = refl

send_request-IsSound_example :
    IsSound (send_request true false 101 (101, broken []) ((102, broken []) ∷ []) opened).1
send_request-IsSound_example =
    send_request-IsSound true false 101 (101, broken []) ((102, broken []) ∷ []) opened
      (omega arith, λ e. cc)

-- Two writes of four attempts, against a threshold of eight.
abbrev two_writes : List (ℕ × (ℕ × Reply) × List (ℕ × Reply))
two_writes =
    (10, (11, broken []), (12, broken []) ∷ (13, broken []) ∷ (14, broken []) ∷ [])
    ∷ (15, (16, broken []), (17, broken []) ∷ (18, broken []) ∷ (19, broken []) ∷ [])
    ∷ []

abbrev closed : WriteBreaker
closed = record { threshold = 8; open_duration = 60; consec = 0; is_open = false; open_until = 0 }

outage-refuses_example :
    let b' = after_writes false two_writes closed in
    send_request true false 70 (70, answered 200 (ok []) [] []) [] b' ≡ (err read_only, b')
outage-refuses_example =
    outage-refuses false 10 70 two_writes closed (omega arith, λ e. omega arith) refl (omega arith)
      (failing 10 11 12 13 14 (omega arith), (failing 15 16 17 18 19 (omega arith), tt))
      (omega arith) (70, answered 200 (ok []) [] []) []
  where
    failing :
        (t a b c d : ℕ)
        → (t ≤ 70) × (10 ≤ a) × (10 ≤ b) × (10 ≤ c) × (10 ≤ d)
        → IsFailing false 10 60
            (t, (a, broken []), (b, broken []) ∷ (c, broken []) ∷ (d, broken []) ∷ [])
    failing t a b c d h = record {
      within = h.0;
      enough = omega arith;
      out = (
        (h.1, no_answer []),
        ((h.2, no_answer []), ((h.3, no_answer []), ((h.4, no_answer []), tt))),
      );
    }

read-closes_example :
    let b' = (send_request false false 40 (40, answered 200 (ok []) [] []) [] opened).1 in
    allows 50 b' ≡ (true, b')
read-closes_example =
    read-closes false 40 50 200 (ok []) [] [] [] opened refl (omega arith) (omega arith)
      (unfold allows in refl)

abbrev running_task : TaskStatus
running_task = record { status = codes "running"; exit_status = [] }

abbrev stopped_task : TaskStatus
stopped_task = record { status = codes "stopped"; exit_status = codes "WARNINGS: 1" }

abbrev two_polls : List Poll
two_polls = status running_task ∷ transient [] ∷ []

wait_test : wait (two_polls ++ status stopped_task ∷ not_found ∷ []) ≡ done stopped_task
unfolding wait to_upper to_lower has_prefix text_eq
wait_test = refl

wait-Decides_example :
    Decides (status stopped_task) (wait (two_polls ++ status stopped_task ∷ not_found ∷ []))
wait-Decides_example =
    wait-Decides two_polls (status stopped_task) (not_found ∷ [])
      (unfold is_stopped text_eq in (refl, (tt, tt))) (unfold is_stopped text_eq in (λ e. cc))
