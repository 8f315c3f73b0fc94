-- ===== src/Pve/Breaker.antt =====
-- The write circuit breaker of internal/pveclient/breaker.go. Times and durations are in
-- nanoseconds; the lock is left out: the operations are the critical sections.
use proxops.Base.{
  ℕ, Bool, if◌then◌else◌, arith, ◌<◌, ◌+◌, false, ◌≡◌, not, leb, ◌==◌, true, ◌&&◌, ltb,
}

pub record WriteBreaker : Type 0 where
  pub threshold : ℕ
  pub open_duration : ℕ
  pub consec : ℕ
  pub is_open : Bool
  pub open_until : ℕ

-- newWriteBreaker
unfoldable pub new_write_breaker : ℕ → ℕ → WriteBreaker
new_write_breaker threshold duration = record {
  threshold = (if threshold == 0 then 20 else threshold);
  open_duration = (if duration == 0 then 600000000000 else duration);
  consec = 0;
  is_open = false;
  open_until = 0;
}

-- allows, at a time
unfoldable pub allows : ℕ → WriteBreaker → Bool × WriteBreaker
allows now b =
    if not b.is_open
    then (true, b)
    else if ltb b.open_until now
    then (true, record b { is_open = false; consec = 0 })
    else (false, b)

-- recordOK
unfoldable pub record_ok : WriteBreaker → WriteBreaker
record_ok b = record b { consec = 0; is_open = false }

-- recordFail, at a time
unfoldable pub record_fail : ℕ → WriteBreaker → WriteBreaker
record_fail now b =
    let n = b.consec + 1 in
    if leb b.threshold n && not b.is_open
    then record b { consec = n; is_open = true; open_until = now + b.open_duration }
    else record b { consec = n }

-- A closed breaker has seen fewer failures in a row than its threshold, which is not 0.
abbrev pub IsSound : WriteBreaker → Type 0
IsSound b = (0 < b.threshold) × (b.is_open ≡ false → b.consec < b.threshold)

pub new-IsSound : (threshold duration : ℕ) → IsSound (new_write_breaker threshold duration)
unfolding new_write_breaker
new-IsSound threshold duration = ground arith

pub allows-IsSound : (now : ℕ) (b : WriteBreaker) → IsSound b → IsSound (allows now b).1
unfolding allows
allows-IsSound now b h = ground arith

pub record_ok-IsSound : (b : WriteBreaker) → IsSound b → IsSound (record_ok b)
unfolding record_ok
record_ok-IsSound b h = ground arith

pub record_fail-IsSound : (now : ℕ) (b : WriteBreaker) → IsSound b → IsSound (record_fail now b)
unfolding record_fail
record_fail-IsSound now b h = ground arith
