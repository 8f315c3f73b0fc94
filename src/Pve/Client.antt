-- ===== src/Pve/Client.antt =====
-- Client.Do of internal/pveclient/client.go: the gate of the write breaker and the loop of
-- attempts. What HTTP and the decoding of a body give is the attempt's; the request is built
-- outside.
use proxops.Base.{
  zero, suc, true, false, ℕ, Bool, List, [], ◌∷◌, if◌then◌else◌, Text, ◌+◌, to_lower, leb, ◌==◌,
  has_prefix, suc, ◌&&◌, ◌||◌, codes, ltb, text_eq, trim_space,
}
use proxops.Base.Result.{Result, ok, err}
use proxops.Pve.Breaker.{WriteBreaker, allows, record_ok, record_fail}

-- What one round trip brings: an error of the transport or of reading the body, or a status with
-- what parseEnvelope, errStringFromEnvelope and the plain text make of the body.
pub data Reply : Type 0 where
  broken : (error : Text) → Reply
  unauthenticated : (error : Text) → Reply
  answered : (status : ℕ) (envelope : Result Text Text) (message raw : Text) → Reply

pub data ClientError : Type 0 where
  read_only : ClientError
  cancelled : ClientError
  unknown_failure : ClientError
  transport : Text → ClientError
  auth : Text → ClientError
  decode : Text → ClientError
  api : (status : ℕ) (message : Text) → ClientError

-- strings.Contains(s, sub)
contains : Text → Text → Bool
contains [] sub = has_prefix [] sub
contains (c ∷ s) sub = has_prefix (c ∷ s) sub || contains s sub

-- IsNotFound, of an *APIError
unfoldable pub is_not_found : ℕ → Text → Bool
unfolding contains
is_not_found status message = status == 404 || contains (to_lower message) (codes "no such")

-- IsInProgress, of an *APIError
unfoldable pub is_in_progress : Text → Bool
unfolding contains
is_in_progress message = contains (to_lower message) (codes "operation already in progress")

-- What the loop makes of a reply: a return with success, one with an error, with a failure to
-- count or without, or another attempt.
pub data Verdict : Type 0 where
  success : Result Text Text → Verdict
  give_up : ClientError → Verdict
  uncounted : ClientError → Verdict
  retry : ClientError → Verdict

-- The switch on the status; `ticket` is whether the client authenticates by ticket.
unfoldable pub verdict : Bool → Reply → Verdict
unfolding is_not_found
verdict ticket (broken e) = retry (transport e)
verdict ticket (unauthenticated e) = uncounted (auth e)
verdict ticket (answered status envelope message raw) =
    if leb 200 status && ltb status 300
    then success envelope
    else if status == 401 && ticket
    then retry (api status (codes "unauthorized"))
    else if status == 429 || leb 500 status
    then if is_not_found status message
      then give_up (api status message)
      else retry (api status message)
    else give_up (api status (if text_eq message [] then trim_space raw else message))

-- registerFailure
unfoldable pub register_failure : Bool → ℕ → WriteBreaker → WriteBreaker
unfolding record_fail
register_failure is_write now b = if is_write then record_fail now b else b

-- The result of a success.
abbrev pub decoded : Result Text Text → Result ClientError Text
decoded (ok upid) = ok upid
decoded (err e) = err (decode e)

-- const maxRetries
abbrev pub max_retries : ℕ
max_retries = 3

module _ (is_write ticket : Bool) where
  -- What a verdict at a time comes to, given the rest of the loop. registerSuccess does not ask
  -- whether the request was a write.
  abbrev pub concluded :
      ℕ
      → (ClientError → WriteBreaker → Result ClientError Text × WriteBreaker)
      → Verdict
      → WriteBreaker
      → Result ClientError Text × WriteBreaker
  concluded now rest (success r) b = (decoded r, record_ok b)
  concluded now rest (give_up e) b = (err e, register_failure is_write now b)
  concluded now rest (uncounted e) b = (err e, b)
  concluded now rest (retry e) b = rest e (register_failure is_write now b)

  -- The loop, with the attempts that are left; the replies, with their times, end where the context
  -- is cancelled in the wait before an attempt. The first attempt does not wait.
  unfoldable pub attempts :
      ℕ → List (ℕ × Reply) → ClientError → WriteBreaker → Result ClientError Text × WriteBreaker
  unfolding verdict register_failure record_ok
  attempts zero replies last b = (err last, b)
  attempts (suc n) [] last b = (err cancelled, b)
  attempts (suc n) ((now, reply) ∷ replies) last b =
      concluded now (λ e c. attempts n replies e c) (verdict ticket reply) b

  -- The body of Do behind the gate: the first attempt is always made.
  abbrev pub gated :
      (first : ℕ × Reply) (more : List (ℕ × Reply))
      → Bool × WriteBreaker
      → Result ClientError Text × WriteBreaker
  gated first more (true, b) = attempts (max_retries + 1) (first ∷ more) unknown_failure b
  gated first more (false, b) = (err read_only, b)

  -- Client.Do, at a time
  unfoldable pub send_request :
      (now : ℕ) (first : ℕ × Reply) (more : List (ℕ × Reply))
      → WriteBreaker
      → Result ClientError Text × WriteBreaker
  unfolding allows attempts
  send_request now first more b = gated first more (if is_write then allows now b else (true, b))
