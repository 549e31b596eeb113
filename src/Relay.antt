-- ===== src/Relay.antt =====
-- src/api/constraints.rs, `submit_constraints`: the attempts at a relay. The relay's answers are an argument:
-- what the n-th attempt of a call gets, counted from 1.
pub mod Retries
pub mod Client
use preconfirmation_gateway.Common.{
  ℕ, zero, suc, ◌^◌, Bool, ◌&&◌, ◌||◌, Option, none, some, List, [], ◌∷◌, ◌++◌, leb, ◌==◌,
  if◌then◌else◌, min, max, Result, ok, err, saturating_mul,
}
use preconfirmation_gateway.Error.{
  Error, rate_limited, timed_out, bad_status, request_failed, no_response,
}

-- An HTTP status, or a failure of the request.
pub data Reply : Type 0 where
  answered : ℕ → Reply
  failed : Reply

-- What an arm of the loop does: it returns, leaves the loop, or goes on after waiting.
pub data Verdict : Type 0 where
  accept : ℕ → Verdict
  stop : Error → Verdict
  retry : Error → List ℕ → Verdict

-- Milliseconds: 100 times 2 to the attempt, the exponent at most 10 and the product at most 30 seconds.
unfoldable pub backoff : ℕ → ℕ
backoff attempt = min (saturating_mul 100 (2 ^ min attempt 10)) 30000

abbrev pub is_accepted : ℕ → Bool
is_accepted status = status == 200 || status == 202

abbrev pub is_client_error : ℕ → Bool
is_client_error status = leb 400 status && leb status 499

abbrev pub is_server_error : ℕ → Bool
is_server_error status = leb 500 status && leb status 599

unfoldable pub judge : ℕ → Reply → Verdict
judge attempt failed = retry request_failed (backoff attempt ∷ [])
judge attempt (answered status) =
    if is_accepted status
    then accept status
    else if status == 429
    then retry rate_limited (backoff attempt ∷ [])
    else if status == 408 || status == 504
    then retry timed_out []
    else if is_client_error status
    then stop bad_status
    else if is_server_error status
    then retry bad_status (backoff attempt ∷ [])
    else retry bad_status []

abbrev pub unwrap_error : Option Error → Error
unwrap_error (some e) = e
unwrap_error none = no_response

-- The loop, with the attempts that are left and those made, and the waits in milliseconds beside the
-- result.
unfoldable pub attempts : (ℕ → Reply) → ℕ → ℕ → Option Error → Result Error ℕ × List ℕ
unfolding judge
attempts replies zero made last_error = (err (unwrap_error last_error), [])
attempts replies (suc left) made last_error = elim (judge (suc made) (replies (suc made))) [
  | accept status ↦ (ok status, [])
  | stop e ↦ (err e, [])
  | retry e waits ↦
      (let rest = attempts replies left (suc made) (some e) in (rest.0, waits ++ rest.1))
]

-- At least one attempt, also with `max_retries` at 0.
unfoldable pub submit_constraints : (ℕ → Reply) → ℕ → Result Error ℕ × List ℕ
unfolding attempts
submit_constraints replies max_retries = attempts replies (max 1 max_retries) 0 none
