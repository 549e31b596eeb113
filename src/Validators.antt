-- ===== src/Validators.antt =====
-- src/services/validator_status_cache.rs: the status of validators, cached by the library moka, which is
-- an interface here. Times are those of the calls.
pub mod Sources
pub mod Batch
use preconfirmation_gateway.Common.{
  ℕ, ◌≡◌, ◌⊎◌, suc, Option, none, some, List, [], ◌∷◌, Bool, bytes_eq, if◌then◌else◌, Result, ok,
  err, ◌>>=◌,
}
use preconfirmation_gateway.Types.{Bytes, ValidatorInfo}
use preconfirmation_gateway.Error.{Error}

-- `moka::future::Cache` with its time to live.
pub record Moka (Cache : Type 0) : Type 0 where
  pub get : ℕ → Bytes → Cache → Option ValidatorInfo
  pub insert : ℕ → Bytes → ValidatorInfo → Cache → Cache

-- What it documents: a lookup returns a value that was inserted for the key.
pub record IsMoka (Cache : Type 0) (moka : Moka Cache) : Type 0 where
  pub get-insert :
      (now later : ℕ) (key other : Bytes) (info found : ValidatorInfo) (cache : Cache)
      → moka.get later other (moka.insert now key info cache) ≡ some found
      → ((other ≡ key) × (found ≡ info))
        ⊎ ((moment : ℕ) × (moka.get moment other cache ≡ some found))

-- The beacon client's answer to the n-th question of a call.
abbrev pub Source : Type 0
Source = ℕ → Bytes → Result Error ValidatorInfo

module _ {Cache : Type 0} (moka : Moka Cache) (source : Source) where
  -- A status that was fetched is cached, an error is not.
  unfoldable pub fetch_status : ℕ → ℕ → Bytes → Cache → Result Error ValidatorInfo × Cache
  fetch_status n now key cache = elim (source n key) [
    | err e ↦ (err e, cache)
    | ok info ↦ (ok info, moka.insert now key info cache)
  ]

  unfoldable pub get_status : ℕ → ℕ → Bytes → Cache → Result Error ValidatorInfo × Cache
  unfolding fetch_status
  get_status n now key cache = elim (moka.get now key cache) [
    | some info ↦ (ok info, cache)
    | none ↦ fetch_status n now key cache
  ]

  -- The futures of a batch run at the same time, so each looks into the cache at some moment of its own:
  -- `seen` is what the n-th of them sees. Their insertions are made in some order; here, in theirs.
  unfoldable pub get_each :
      (ℕ → Cache) → ℕ → ℕ → List Bytes → Cache → List (Bytes × Result Error ValidatorInfo) × Cache
  unfolding fetch_status
  get_each seen n now [] cache = ([], cache)
  get_each seen n now (key ∷ keys) cache =
      let fetched = fetch_status n now key cache in
      let answer : Result Error ValidatorInfo × Cache = elim (moka.get now key (seen n)) [
        | some info ↦ (ok info, cache)
        | none ↦ fetched
      ] in
      let rest = get_each seen (suc n) now keys answer.1 in ((key, answer.0) ∷ rest.0, rest.1)

-- `HashMap::insert`
unfoldable pub insert_status :
    Bytes → ValidatorInfo → List (Bytes × ValidatorInfo) → List (Bytes × ValidatorInfo)
insert_status key info [] = (key, info) ∷ []
insert_status key info (entry ∷ entries) =
    if bytes_eq entry.0 key then (key, info) ∷ entries else entry ∷ insert_status key info entries

unfoldable pub status_in : Bytes → List (Bytes × ValidatorInfo) → Option ValidatorInfo
status_in key [] = none
status_in key (entry ∷ entries) =
    if bytes_eq entry.0 key then some entry.1 else status_in key entries

-- The loop that fills the map; the first error ends it.
unfoldable pub collect :
    List (Bytes × Result Error ValidatorInfo)
    → List (Bytes × ValidatorInfo)
    → Result Error (List (Bytes × ValidatorInfo))
unfolding insert_status
collect [] map = ok map
collect ((key, err e) ∷ results) map = err e
collect ((key, ok info) ∷ results) map = collect results (insert_status key info map)

unfoldable pub get_batch_status :
    {Cache : Type 0}
    → Moka Cache
    → Source
    → (ℕ → Cache)
    → ℕ
    → List Bytes
    → Cache
    → Result Error (List (Bytes × ValidatorInfo)) × Cache
unfolding get_each collect
get_batch_status moka source seen now [] cache = (ok [], cache)
get_batch_status moka source seen now (key ∷ keys) cache =
    let each = get_each moka source seen 0 now (key ∷ keys) cache in (collect each.0 [], each.1)
