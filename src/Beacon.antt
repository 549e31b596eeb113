-- ===== src/Beacon.antt =====
-- src/api/beacon.rs and the duties of src/types/beacon.rs: the beacon node's view of proposers and
-- validators. `Network` is the HTTP client: what its n-th request of a call returns for a URL.
pub mod Fallback
pub mod Duties
use preconfirmation_gateway.Common.{
  ℕ, zero, suc, ◌+◌, ◌-◌, ◌*◌, ◌/◌, ◌%◌, Bool, true, false, ◌&&◌, ◌||◌, Option, none, some, List,
  [], ◌∷◌, ◌++◌, leb, ◌==◌, if◌then◌else◌, bytes_eq, any, length, u64_max, Result, ok, err, ◌>>=◌,
  ◌>>◌, ok_or, guard,
}
use preconfirmation_gateway.Types.{
  Bytes, Text, ValidatorDuty, ValidatorInfo, ValidatorDetails, ValidatorData,
}
use preconfirmation_gateway.Error.{
  Error, request_failed, bad_status, unparsable_response, invalid_number, invalid_hex, wrong_length,
}
use preconfirmation_gateway.Crates.{Crates}
use preconfirmation_gateway.Crypto.{strip_0x, to_hex}
use preconfirmation_gateway.Timing.{slot_to_epoch}

pub record HttpResponse : Type 0 where
  pub status : ℕ
  pub body : Bytes

abbrev pub Network : Type 0
Network = ℕ → Text → Result Error HttpResponse

pub record BeaconApiConfig : Type 0 where
  pub primary_endpoint : Text
  pub fallback_endpoints : List Text
  pub genesis_time : ℕ

-- serde_json on the two responses.
pub record BeaconJson : Type 0 where
  pub proposer_duties : Bytes → Option (List ValidatorDuty)
  pub validator : Bytes → Option ValidatorData

-- `str::parse::<u64>`: a sign `+` is allowed, an empty string and an overflow are not.
unfoldable pub parse_digits : Text → ℕ → Option ℕ
parse_digits [] acc = some acc
parse_digits (c ∷ s) acc =
    let next = acc * 10 + (c - b'0') in
    let rest = parse_digits s next in
    if leb b'0' c && leb c b'9' then (if leb next u64_max then rest else none) else none

unfoldable pub parse_u64 : Text → Result Error ℕ
unfolding parse_digits
parse_u64 [] = err invalid_number
parse_u64 (c ∷ []) = ok_or (parse_digits (c ∷ []) 0) invalid_number
parse_u64 (c ∷ d ∷ s) =
    if c == b'+'
    then ok_or (parse_digits (d ∷ s) 0) invalid_number
    else ok_or (parse_digits (c ∷ d ∷ s) 0) invalid_number

-- A number in decimal; a `u64` has at most 20 digits.
unfoldable pub digits : ℕ → ℕ → Text → Text
digits zero n acc = acc
digits (suc fuel) n acc =
    let rest = digits fuel (n / 10) ((b'0' + n % 10) ∷ acc) in
    if n / 10 == 0 then (b'0' + n % 10) ∷ acc else rest

abbrev pub show_u64 : ℕ → Text
show_u64 n = digits 20 n []

unfoldable pub parse_slot : ValidatorDuty → Result Error ℕ
parse_slot duty = parse_u64 duty.slot

abbrev pub ends_with_slash : Text → Bool
ends_with_slash [] = false
ends_with_slash (c ∷ []) = c == b'/'
ends_with_slash (c ∷ d ∷ s) = ends_with_slash (d ∷ s)

-- `format!("{}/{}", base_url, endpoint)`, with no second slash.
unfoldable pub url_of : Text → Text → Text
url_of base_url endpoint =
    if ends_with_slash base_url then base_url ++ endpoint else base_url ++ b'/' ∷ endpoint

module _ {A : Type 0} (json : Bytes → Option A) where
  unfoldable pub make_request : (Text → Result Error HttpResponse) → Text → Text → Result Error A
  unfolding url_of
  make_request get base_url endpoint = do
    response ← get (url_of base_url endpoint)
    guard (response.status == 200) bad_status
    ok_or (json response.body) unparsable_response

  -- The loop over the fallback endpoints; `last_error` is returned where none is left.
  unfoldable pub try_fallbacks : Network → ℕ → Error → List Text → Text → Result Error A
  try_fallbacks net attempt last_error [] endpoint = err last_error
  try_fallbacks net attempt last_error (base_url ∷ others) endpoint =
      elim (make_request (net attempt) base_url endpoint) [
        | ok a ↦ ok a
        | err e ↦ try_fallbacks net (suc attempt) e others endpoint
      ]

  -- The primary endpoint first.
  unfoldable pub request_any : Network → BeaconApiConfig → Text → Result Error A
  unfolding try_fallbacks
  request_any net config endpoint = elim (make_request (net 0) config.primary_endpoint endpoint) [
    | ok a ↦ ok a
    | err e ↦ try_fallbacks net 1 e config.fallback_endpoints endpoint
  ]

-- `eth/v1/validator/duties/proposer/`
abbrev pub duties_endpoint : Text
duties_endpoint =
    b'e' ∷ b't' ∷ b'h' ∷ b'/' ∷ b'v' ∷ b'1' ∷ b'/' ∷ b'v' ∷ b'a' ∷ b'l' ∷ b'i' ∷ b'd' ∷ b'a' ∷ b't'
    ∷ b'o' ∷ b'r' ∷ b'/' ∷ b'd' ∷ b'u' ∷ b't' ∷ b'i' ∷ b'e' ∷ b's' ∷ b'/' ∷ b'p' ∷ b'r' ∷ b'o'
    ∷ b'p' ∷ b'o' ∷ b's' ∷ b'e' ∷ b'r' ∷ b'/' ∷ []

-- `eth/v1/beacon/states/head/validators/`
abbrev pub validators_endpoint : Text
validators_endpoint =
    b'e' ∷ b't' ∷ b'h' ∷ b'/' ∷ b'v' ∷ b'1' ∷ b'/' ∷ b'b' ∷ b'e' ∷ b'a' ∷ b'c' ∷ b'o' ∷ b'n' ∷ b'/'
    ∷ b's' ∷ b't' ∷ b'a' ∷ b't' ∷ b'e' ∷ b's' ∷ b'/' ∷ b'h' ∷ b'e' ∷ b'a' ∷ b'd' ∷ b'/' ∷ b'v'
    ∷ b'a' ∷ b'l' ∷ b'i' ∷ b'd' ∷ b'a' ∷ b't' ∷ b'o' ∷ b'r' ∷ b's' ∷ b'/' ∷ []

-- `active_`, and what follows it in the three states of an active validator.
abbrev pub active_prefix : Text
active_prefix = b'a' ∷ b'c' ∷ b't' ∷ b'i' ∷ b'v' ∷ b'e' ∷ b'_' ∷ []

abbrev pub active_states : List Text
active_states =
    (active_prefix ++ b'o' ∷ b'n' ∷ b'g' ∷ b'o' ∷ b'i' ∷ b'n' ∷ b'g' ∷ [])
    ∷ (active_prefix ++ b'e' ∷ b'x' ∷ b'i' ∷ b't' ∷ b'i' ∷ b'n' ∷ b'g' ∷ [])
    ∷ (active_prefix ++ b's' ∷ b'l' ∷ b'a' ∷ b's' ∷ b'h' ∷ b'e' ∷ b'd' ∷ [])
    ∷ []

unfoldable pub parse_validator_info : ValidatorData → Result Error ValidatorInfo
parse_validator_info data_ = do
  validator_index ← parse_u64 data_.index
  ok (record {
    is_active = any (bytes_eq data_.status) active_states;
    is_slashed = data_.validator.slashed;
    validator_index = validator_index;
  })

-- The loop over the duties: one that does not parse ends it.
unfoldable pub find_duty : ℕ → List ValidatorDuty → Result Error (Option ValidatorDuty)
find_duty slot [] = ok none
find_duty slot (duty ∷ duties) = do
  let rest = find_duty slot duties
  duty_slot ← parse_slot duty
  if duty_slot == slot then ok (some duty) else rest

module _ (json : BeaconJson) (net : Network) (config : BeaconApiConfig) where
  unfoldable pub get_proposer_duties : ℕ → Result Error (List ValidatorDuty)
  get_proposer_duties epoch =
      request_any json.proposer_duties net config (duties_endpoint ++ show_u64 epoch)

  unfoldable pub get_proposer_for_slot : ℕ → Result Error (Option ValidatorDuty)
  unfolding find_duty
  get_proposer_for_slot slot = do
    duties ← get_proposer_duties (slot_to_epoch slot)
    find_duty slot duties

module _ ⦃x : Crates⦄ where
  unfoldable pub parse_pubkey : ValidatorDuty → Result Error Bytes
  parse_pubkey duty = do
    decoded ← ok_or (x.hex_decode (strip_0x duty.pubkey)) invalid_hex
    guard (length decoded == 48) wrong_length
    ok decoded

  unfoldable pub get_validator_status :
      BeaconJson → Network → BeaconApiConfig → Bytes → Result Error ValidatorInfo
  get_validator_status json net config validator_pubkey = do
    validator ←
        request_any json.validator net config (validators_endpoint ++ to_hex validator_pubkey)
    parse_validator_info validator
