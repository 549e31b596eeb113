-- ===== src/Error.antt =====
-- The errors of the program: a constructor for each place that makes an `anyhow` error, and the
-- error codes that the JSON-RPC handlers answer with. The texts of the messages are not modelled.
pub data Error : Type 0 where
  -- crypto, types
  invalid_hex wrong_length invalid_public_key invalid_signature invalid_private_key : Error
  invalid_message : Error
  -- payloads
  unknown_commitment_type unparsable_payload : Error
  empty_transaction zero_slot : Error
  -- database
  database_failure check_violation unique_violation exceeds_i64 not_found panicked : Error
  invalid_delegation_signature invalid_timestamp : Error
  -- HTTP clients
  request_failed bad_status unparsable_response invalid_number no_response : Error
  rpc_error rate_limited timed_out : Error
  -- services
  fee_overflow gas_limit_unknown committer_mismatch no_delegation deadline_elapsed : Error
  -- configuration
  empty_endpoint placeholder_endpoint not_http empty_whitelist invalid_address : Error
  zero_timeout too_many_retries missing_variable unreadable_file startup_failure : Error

pub data ErrorCode : Type 0 where
  invalid_params invalid_request internal_error : ErrorCode
