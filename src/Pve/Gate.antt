-- ===== src/Pve/Gate.antt =====
-- How the write breaker gates a client's requests.
use proxops.Base.{
  zero, suc, ℕ, Bool, List, [], ◌∷◌, true, false, ◌≡◌, suc, ◌≤◌, if◌then◌else◌, Text, Bool-cases,
  ◌<◌, inl, ◌+◌, inr, leb, ◌&&◌, arith, ltb, refl,
}
use proxops.Base.Result.{Result}
use proxops.Pve.Breaker.{
  WriteBreaker, allows, record_ok, IsSound, allows-IsSound, record_ok-IsSound, record_fail-IsSound,
}
use proxops.Pve.Client.{
  attempts, send_request, verdict, Verdict, register_failure, ClientError, Reply, success, give_up,
  uncounted, retry, gated, max_retries, answered, unknown_failure, concluded,
}

register_failure-IsSound :
    (is_write : Bool) (now : ℕ) (b : WriteBreaker)
    → IsSound b
    → IsSound (register_failure is_write now b)
unfolding register_failure
register_failure-IsSound true now b h = record_fail-IsSound now b h
register_failure-IsSound false now b h = h

module _ (is_write ticket : Bool) where
  concluded-IsSound :
      (now : ℕ) (rest : ClientError → WriteBreaker → Result ClientError Text × WriteBreaker)
      (v : Verdict) (b : WriteBreaker)
      → ((e : ClientError) (c : WriteBreaker) → IsSound c → IsSound (rest e c).1)
      → IsSound b
      → IsSound (concluded is_write ticket now rest v b).1
  concluded-IsSound now rest (success r) b k h = record_ok-IsSound b h
  concluded-IsSound now rest (give_up e) b k h = register_failure-IsSound is_write now b h
  concluded-IsSound now rest (uncounted e) b k h = h
  concluded-IsSound now rest (retry e) b k h =
      k e (register_failure is_write now b) (register_failure-IsSound is_write now b h)

  attempts-IsSound :
      (n : ℕ) (replies : List (ℕ × Reply)) (last : ClientError) (b : WriteBreaker)
      → IsSound b
      → IsSound (attempts is_write ticket n replies last b).1
  unfolding attempts
  attempts-IsSound zero replies last b h = h
  attempts-IsSound (suc n) [] last b h = h
  attempts-IsSound (suc n) ((now, reply) ∷ replies) last b h =
      concluded-IsSound now (λ e c. attempts is_write ticket n replies e c) (verdict ticket reply) b
        (λ e c k. attempts-IsSound n replies e c k) h

  gated-IsSound :
      (first : ℕ × Reply) (more : List (ℕ × Reply)) (x : Bool × WriteBreaker)
      → IsSound x.1
      → IsSound (gated is_write ticket first more x).1
  gated-IsSound first more (true, b) h =
      attempts-IsSound (max_retries + 1) (first ∷ more) unknown_failure b h
  gated-IsSound first more (false, b) h = h

  -- Whatever is requested and answered, a closed breaker has seen fewer failures in a row than its
  -- threshold, which is positive, if that was so before.
  pub send_request-IsSound :
      (now : ℕ) (first : ℕ × Reply) (more : List (ℕ × Reply)) (b : WriteBreaker)
      → IsSound b
      → IsSound (send_request is_write ticket now first more b).1
  unfolding send_request
  send_request-IsSound now first more b h =
      gated-IsSound first more (if is_write then allows now b else (true, b))
        (elim (Bool-cases is_write) [ inl e ↦ rw e (allows-IsSound now b h) | inr e ↦ rw e h ])

verdict-good :
    (ticket : Bool) (status : ℕ) (envelope : Result Text Text) (message raw : Text)
    → 200 ≤ status
    → status < 300
    → verdict ticket (answered status envelope message raw) ≡ success envelope
unfolding verdict
verdict-good ticket status envelope message raw l h =
    let good : (leb 200 status && ltb status 300) ≡ true = ground arith in rw good refl

-- One read that PVE answers well closes an open breaker before its time, so that the next write
-- goes through: a success is recorded without asking whether it was a write.
pub read-closes :
    (ticket : Bool) (now later status : ℕ) (envelope : Result Text Text) (message raw : Text)
    (more : List (ℕ × Reply)) (b : WriteBreaker)
    → b.is_open ≡ true
    → 200 ≤ status
    → status < 300
    → allows later b ≡ (false, b)
    → let b' =
        (send_request false ticket now (now, answered status envelope message raw) more b).1 in
      allows later b' ≡ (true, b')
unfolding send_request attempts
read-closes ticket now later status envelope message raw more b o l h shut =
    rw (verdict-good ticket status envelope message raw l h) (unfold allows record_ok in refl)
