-- ===== src/Relay/Client.antt =====
-- src/api/constraints.rs, `ConstraintsApiClient`: its creation, and the delegations that it fetches. What a
-- GET request meets is an argument.
pub mod Limits
use preconfirmation_gateway.Common.{
  ℕ, zero, Bool, true, false, ◌&&◌, ◌||◌, not, Option, none, some, List, [], ◌∷◌, ◌++◌, ltb, leb,
  ◌==◌, if◌then◌else◌, Result, ok, err, ◌>>=◌, ◌>>◌, ok_or, guard,
}
use preconfirmation_gateway.Types.{Bytes, Text, SignedDelegation}
use preconfirmation_gateway.Error.{
  Error, empty_endpoint, zero_timeout, too_many_retries, request_failed, bad_status,
  unparsable_response,
}
use preconfirmation_gateway.Beacon.{url_of, show_u64}
use preconfirmation_gateway.Config.{ConstraintsApiConfig, text}

-- White space of Unicode, as the one to three bytes of its UTF-8.
abbrev pub is_white : ℕ → Bool
is_white a = (leb 9 a && leb a 13) || a == 32

abbrev pub is_white2 : ℕ → ℕ → Bool
is_white2 a b = a == 0xc2 && (b == 0x85 || b == 0xa0)

abbrev pub is_white3 : ℕ → ℕ → ℕ → Bool
is_white3 a b c =
    (a == 0xe1 && b == 0x9a && c == 0x80)
    || (a == 0xe2
        && ((b == 0x80 && ((leb 0x80 c && leb c 0x8a) || c == 0xa8 || c == 0xa9 || c == 0xaf))
            || (b == 0x81 && c == 0x9f)))
    || (a == 0xe3 && b == 0x80 && c == 0x80)

-- `trim().is_empty()`
unfoldable pub is_blank : Text → Bool
is_blank [] = true
is_blank (a ∷ []) = is_white a
is_blank (a ∷ b ∷ []) = (is_white a && is_blank (b ∷ [])) || is_white2 a b
is_blank (a ∷ b ∷ c ∷ s) =
    let one = is_blank (b ∷ c ∷ s) in
    let two = is_blank (c ∷ s) in
    let three = is_blank s in
    if is_white a
    then one
    else if is_white2 a b
    then two
    else if is_white3 a b c
    then three
    else false

-- `build` says whether the HTTP client can be built with the timeout.
unfoldable pub new_client : (ℕ → Bool) → ConstraintsApiConfig → Result Error ConstraintsApiConfig
new_client build config = do
  guard (not (is_blank config.relay_endpoint)) empty_endpoint
  guard (not (config.request_timeout_secs == 0)) zero_timeout
  guard (not (ltb 10 config.max_retries)) too_many_retries
  guard (build config.request_timeout_secs) request_failed
  ok config

-- What a GET request meets: no response, or a status with what its body parses to.
pub data Fetched : Type 0 where
  unreachable : Fetched
  response : ℕ → Option (List SignedDelegation) → Fetched

-- 404 means that there are none.
unfoldable pub delegations_of : Fetched → Result Error (List SignedDelegation)
delegations_of unreachable = err request_failed
delegations_of (response status body) =
    if status == 200
    then ok_or body unparsable_response
    else if status == 404
    then ok []
    else err bad_status

unfoldable pub get_delegations_for_slot :
    (Text → Fetched) → ConstraintsApiConfig → ℕ → Result Error (List SignedDelegation)
unfolding delegations_of
get_delegations_for_slot get config slot =
    delegations_of (
      get
        (url_of config.relay_endpoint (text "constraints/v0/relay/delegations/" ++ show_u64 slot)))
