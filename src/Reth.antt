-- ===== src/Reth.antt =====
-- src/api/reth.rs, the client of the Reth node: the attempts of a call, and the gas price. What the n-th
-- attempt of a call gets is an argument, counted from 0; `Json` is the type of the answers.
pub mod Calls
use preconfirmation_gateway.Common.{
  ℕ, zero, suc, ◌*◌, Option, none, some, List, [], ◌∷◌, ◌++◌, ltb, if◌then◌else◌, Result, ok, err,
  ◌>>=◌, ok_or,
}
use preconfirmation_gateway.Types.{Text}
use preconfirmation_gateway.Error.{
  Error, request_failed, rpc_error, unparsable_response, invalid_number,
}
use preconfirmation_gateway.Crypto.{strip_0x}

-- Its HTTP client is left out.
pub record RethApiClient : Type 0 where
  pub endpoint : Text
  pub max_retries : ℕ

-- No connection, a status that is no success, a body that is no JSON, an answer with a field `error`, or
-- an answer without.
pub data Attempt (Json : Type 0) : Type 0 where
  unreachable http_error not_json refused : Attempt Json
  response : Json → Attempt Json

-- The wait before the next attempt, in milliseconds, if there is one.
abbrev pub pause : ℕ → ℕ → List ℕ
pause made max_retries = if ltb made max_retries then 100 * made ∷ [] else []

module _ {Json : Type 0} where
  -- An attempt returns, or the loop goes on.
  abbrev pub after_attempt : Attempt Json → Result Error Json × List ℕ → Result Error Json × List ℕ
  after_attempt (response json) again = (ok json, [])
  after_attempt refused again = (err rpc_error, [])
  after_attempt unreachable again = again
  after_attempt http_error again = again
  after_attempt not_json again = again

  -- The loop: `left` attempts are left of `max_retries`, and `made` were made.
  unfoldable pub rpc_attempts : (ℕ → Attempt Json) → ℕ → ℕ → ℕ → Result Error Json × List ℕ
  rpc_attempts replies max_retries zero made = (err request_failed, [])
  rpc_attempts replies max_retries (suc left) made =
      let rest = rpc_attempts replies max_retries left (suc made) in
      after_attempt (replies made) (rest.0, pause (suc made) max_retries ++ rest.1)

  unfoldable pub make_rpc_call : (ℕ → Attempt Json) → ℕ → Result Error Json × List ℕ
  unfolding rpc_attempts
  make_rpc_call replies max_retries = rpc_attempts replies max_retries max_retries 0

  -- `response["result"].as_str()`, and a number in hex, 256 bits wide or 64.
  unfoldable pub read_hex :
      (Json → Option Text) → (Text → Option ℕ) → Result Error Json → Result Error ℕ
  read_hex result_text number answer = do
    json ← answer
    text ← ok_or (result_text json) unparsable_response
    ok_or (number (strip_0x text)) invalid_number

pub record GasPriceInfo : Type 0 where
  pub gas_price : ℕ
  pub block_number : ℕ
  pub timestamp : ℕ

abbrev pub or_zero : Result Error ℕ → ℕ
or_zero (ok n) = n
or_zero (err e) = 0

module _ {Json : Type 0} (result_text : Json → Option Text)
    (u256_from_hex u64_from_hex : Text → Option ℕ) (max_retries : ℕ) where
  unfoldable pub get_block_number : (ℕ → Attempt Json) → Result Error ℕ
  unfolding make_rpc_call read_hex
  get_block_number replies = read_hex result_text u64_from_hex (make_rpc_call replies max_retries).0

  -- A block number that cannot be had is 0.
  unfoldable pub get_gas_price :
      (ℕ → Attempt Json) → (ℕ → Attempt Json) → ℕ → Result Error GasPriceInfo
  unfolding get_block_number
  get_gas_price price_replies block_replies now = do
    gas_price ← read_hex result_text u256_from_hex (make_rpc_call price_replies max_retries).0
    ok (record {
      gas_price = gas_price;
      block_number = or_zero (get_block_number block_replies);
      timestamp = now;
    })
