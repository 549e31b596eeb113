-- ===== src/Lib.antt =====
-- The preconfirmation gateway: a model of its logic in cubical type theory, and the theorems that make it
-- correct.
--
-- A client asks for a commitment to include a transaction in a slot. The JSON-RPC handlers
-- (src/rpc/handlers.rs) check the request, look for a delegation of the slot's scheduled proposer to the
-- gateway, sign the commitment, store it, and add its gas to the congestion of the slot, from which fees
-- follow. The delegations come from a relay and are stored in batches. The parts talk through three
-- tables of a PostgreSQL database, and each table is a list of rows in the model.
--
--   Rpc            src/rpc/handlers.rs: validate_slasher_address, verify_delegation_authority,
--                  find_signing_key_for_committer and the four handlers. `commitment_request_handler` is
--                  `sign_request`, which reads only, and then `save_request` and `track_gas`.
--   Commitments    src/db/operations.rs and migrations 001, 002 and 009
--   Delegations    src/db/delegation_ops.rs and migration 003
--   Congestion     src/db/slot_congestion_ops.rs, the fee formula (`add_gas_usage`); Congestion.Table is the
--                  table of migration 006
--   Pricing        src/services/fee_pricing.rs, and the conversion of prices in src/api/reth.rs
--   Beacon         src/api/beacon.rs, and the duties of src/types/beacon.rs
--   Timing         src/types/beacon.rs, slots, epochs and the deadline
--   Crypto, Bls    src/crypto/mod.rs, src/utils/address.rs and src/crypto/bls.rs
--   Payload, Types src/types/payload.rs, src/types/rpc.rs and src/types/delegation.rs
--   Relay          src/api/constraints.rs: the attempts of `submit_constraints`; Relay.Client has the creation
--                  of the client and `get_delegations_for_slot`
--   Submission     src/services/constraint_submission.rs: constraints from commitments
--   Polling        src/services/delegation_polling.rs: the polls of the relay and the cleanup
--   Validators     src/services/validator_status_cache.rs: get_status and get_batch_status, over the
--                  interface of moka
--   Reth           src/api/reth.rs: the attempts of a call, and the gas price
--   Config         src/config.rs: the loading of the configuration and its checks
--   Startup        src/main.rs, src/types/context.rs and the constructors of the clients
--   Encoding       src/types/hex_serde.rs and the codecs of src/types/delegation.rs
--   Gateway        the tasks together: a step relation over the tables, and what holds of its runs
--   Sql            the statements, the BIGINT columns and the format checks
--   Crates, Float  interfaces of the third-party libraries and of `f64`, with the laws relied on
--   Common         lists, Boolean tests, results and 64-bit words on native numbers
--   Tests          the theorems at concrete inputs, over the instances of Crates.Sample and Float
--
-- State and effects. An operation on a table takes the table and returns its result beside the table as it
-- then is, also on an error. `PgPool` says which statements of a call fail, the clock and the
-- next id are arguments, and a `Network` gives the answer of the n-th request of a call. `World` collects what a
-- request meets, with what other tasks do to the tables between its statements. A transaction is one
-- step, since it holds its lock. Errors are constructors without their texts.
--
-- Gateway puts the tasks together. A step of its relation is one operation of one task on a table, with
-- whatever the outside answers, and the steps of all tasks are interleaved in any order; a restart loses
-- what the tasks hold and keeps the tables. Gateway.Tasks sets the calls of the handlers and the rounds of
-- the submission against its runs, and Gateway.Calls is on what a call comes to among the other tasks.
-- Gateway.Ledger is the abstract view of the commitments: each request hash is free, waiting or settled.
--
-- Numbers. A `u64` is a native number whose arithmetic wraps around or saturates as the source's
-- does. `u64 as i64` keeps the bits: the queries compare accordingly, and the checks of the tables
-- refuse what is negative. An `f64` is any type with the operations of `F64`; theorems on prices assume the laws
-- `IsIeee`.
--
-- Fuel. There is none but in `digits`, which prints a `u64` with 20 digits, the most that one has. Every other loop
-- runs over a list or a count of rounds.
--
-- Not modelled: connection set-up, migrations, logging and metrics, the wiring of the server, the texts of
-- errors, the parsing of parameters before a handler, and the timers of the services.
pub mod Common
pub mod Float
pub mod Congestion
pub mod Types
pub mod Error
pub mod Crates
pub mod Timing
pub mod Crypto
pub mod Bls
pub mod Payload
pub mod Sql
pub mod Commitments
pub mod Delegations
pub mod Beacon
pub mod Pricing
pub mod Rpc
pub mod Relay
pub mod Submission
pub mod Validators
pub mod Polling
pub mod Reth
pub mod Encoding
pub mod Config
pub mod Startup
pub mod Gateway
pub mod Tests
