-- ===== src/Pve/Outage.antt =====
-- A PVE that keeps failing: the write breaker opens, and refuses the writes that follow.
use proxops.Base.{
  ℕ, zero, suc, Bool, true, false, List, [], ◌∷◌, Text, ◌≡◌, ◌⊎◌, inl, inr, refl, subst, ◌+◌, ◌*◌,
  ◌≤◌, ◌<◌, arith, All, length, leb, ltb, ◌&&◌, ◌||◌, ◌==◌,
}
use proxops.Base.Result.{Result, err}
use proxops.Pve.Breaker.{WriteBreaker, allows, record_fail, IsSound}
use proxops.Pve.Client.{
  attempts, send_request, verdict, register_failure, ClientError, Reply, broken, answered,
  read_only, retry, max_retries, unknown_failure, is_not_found, transport, api,
}

-- A round trip that failed on the side of PVE or on the way: no answer, or a status of 500 and up
-- that does not say that the object is not there.
pub data IsOutage : Reply → Type 0 where
  no_answer : (e : Text) → IsOutage (broken e)
  server_error :
      (status : ℕ) (envelope : Result Text Text) (message raw : Text)
      → 500 ≤ status
      → is_not_found status message ≡ false
      → IsOutage (answered status envelope message raw)

verdict-retry :
    (ticket : Bool) (r : Reply) → IsOutage r → (e : ClientError) × (verdict ticket r ≡ retry e)
unfolding verdict
verdict-retry ticket r (no_answer e) = (transport e, refl)
verdict-retry ticket r (server_error status envelope message raw l n) =
    let bad : (leb 200 status && ltb status 300) ≡ false = ground arith in
    let known : (status == 401 && ticket) ≡ false = ground arith in
    let again : (status == 429 || leb 500 status) ≡ true = ground arith in
    (api status message, rw (bad, known, again, n) refl)

-- Open for the whole of its duration from a time on.
abbrev pub IsOpenFrom : (now duration : ℕ) → WriteBreaker → Type 0
IsOpenFrom now duration b = (b.is_open ≡ true) × (now + duration ≤ b.open_until)

-- Open, or closed with a count that `n` more failures bring to the threshold.
abbrev IsNear : (now duration n : ℕ) → WriteBreaker → Type 0
IsNear now duration n b =
    IsOpenFrom now duration b
    ⊎ ((b.is_open ≡ false)
        × (b.open_duration ≡ duration)
        × (b.threshold ≤ b.consec + n)
        × (b.consec < b.threshold))

record_fail-IsNear :
    (now duration n t : ℕ) (b : WriteBreaker)
    → now ≤ t
    → IsNear now duration (suc n) b
    → IsNear now duration n (record_fail t b)
unfolding record_fail
record_fail-IsNear now duration n t b l h = ground arith

-- A reply of an outage, not before a time.
abbrev pub IsOutageFrom : ℕ → ℕ × Reply → Type 0
IsOutageFrom now (t, r) = (now ≤ t) × IsOutage r

-- The breaker after writes, one after the other: each at a time, with the replies to its attempts.
abbrev pub after_writes :
    Bool → List (ℕ × (ℕ × Reply) × List (ℕ × Reply)) → WriteBreaker → WriteBreaker
after_writes ticket [] b = b
after_writes ticket ((t, first, more) ∷ qs) b =
    after_writes ticket qs (send_request true ticket t first more b).1

module _ (ticket : Bool) (now duration : ℕ) where
  attempts-IsNear :
      (n k : ℕ) (replies : List (ℕ × Reply)) (last : ClientError) (b : WriteBreaker)
      → n ≤ length replies
      → All (IsOutageFrom now) replies
      → IsNear now duration (n + k) b
      → IsNear now duration k (attempts true ticket n replies last b).1
  unfolding attempts register_failure
  attempts-IsNear zero k replies last b l h m = subst (λ n. IsNear now duration n b) (omega arith) m
  attempts-IsNear (suc n) k [] last b l h m = absurd (omega arith)
  attempts-IsNear (suc n) k ((t, r) ∷ replies) last b l ((later, o), h) m =
      let (e, again) = verdict-retry ticket r o in
      let one_less : IsNear now duration (suc (n + k)) b =
        subst (λ i. IsNear now duration i b) (omega arith) m in
      rw again (
        attempts-IsNear n k replies e (record_fail t b) (omega arith) h
          (record_fail-IsNear now duration (n + k) t b later one_less))

  -- A write that PVE fails, within the duration.
  pub record IsFailing (q : ℕ × (ℕ × Reply) × List (ℕ × Reply)) : Type 0 where
    pub within : q.0 ≤ now + duration
    pub enough : max_retries ≤ length q.2
    pub out : All (IsOutageFrom now) (q.1 ∷ q.2)

  send_request-IsNear :
      (k t : ℕ) (first : ℕ × Reply) (more : List (ℕ × Reply)) (b : WriteBreaker)
      → IsFailing (t, first, more)
      → IsNear now duration (4 + k) b
      → IsNear now duration k (send_request true ticket t first more b).1
  unfolding send_request
  send_request-IsNear k t first more b f (inl (o, l)) =
      let shut : allows t b ≡ (false, b) = unfold allows in ground (arith, f.within) in
      rw shut (inl (o, l))
  send_request-IsNear k t first more b f (inr (c, d, m, l)) =
      let through : allows t b ≡ (true, b) = unfold allows in ground arith in
      rw through (
        attempts-IsNear 4 k (first ∷ more) unknown_failure b (omega (arith, f.enough)) f.out
          (inr (c, d, m, l)))

  after_writes-IsNear :
      (qs : List (ℕ × (ℕ × Reply) × List (ℕ × Reply))) (b : WriteBreaker)
      → All IsFailing qs
      → IsNear now duration (4 * length qs) b
      → IsNear now duration 0 (after_writes ticket qs b)
  after_writes-IsNear [] b h m = m
  after_writes-IsNear ((t, first, more) ∷ qs) b h m =
      after_writes-IsNear qs (send_request true ticket t first more b).1 h.1 (
        send_request-IsNear (4 * length qs) t first more b h.0
          (subst (λ n. IsNear now duration n b) (omega arith) m))

-- A write fails four attempts where PVE gives no answer or a status of 500 and up that does not say
-- that the object is not there. After as many such writes as bring a closed breaker, of which the
-- invariant holds, to its threshold, answered from a time on and made before the breaker's duration
-- from that time on has passed, every write up to the end of that duration is refused, whatever PVE would answer, and
-- the breaker stays as it is.
pub outage-refuses :
    (ticket : Bool) (now later : ℕ) (qs : List (ℕ × (ℕ × Reply) × List (ℕ × Reply)))
    (b : WriteBreaker)
    → IsSound b
    → b.is_open ≡ false
    → b.threshold ≤ b.consec + 4 * length qs
    → All (IsFailing ticket now b.open_duration) qs
    → later ≤ now + b.open_duration
    → (first : ℕ × Reply) (more : List (ℕ × Reply))
    → let b' = after_writes ticket qs b in
      send_request true ticket later first more b' ≡ (err read_only, b')
unfolding send_request
outage-refuses ticket now later qs b s c t h l first more =
    let b' = after_writes ticket qs b in
    let near = after_writes-IsNear ticket now b.open_duration qs b h (inr (c, refl, t, s.1 c)) in
    let shut : allows later b' ≡ (false, b') = unfold allows in ground (arith, near, l) in
    rw shut refl
