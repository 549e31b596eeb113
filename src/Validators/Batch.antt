-- ===== src/Validators/Batch.antt =====
-- Theorems on `get_batch_status` of src/services/validator_status_cache.rs.
use preconfirmation_gateway.Common.{
  ℕ, suc, ◌≡◌, ◌∙◌, refl, ap, sym, subst, arith, Bool, true, false, List, [], ◌∷◌, none, some, any,
  All, if◌then◌else◌, bytes_eq, bytes_eq→eq, bytes_eq_comm, Result, ok, err, Option-cases,
  Result-cases, Bool-cases, inl, inr, ok-injective,
}
use preconfirmation_gateway.Types.{Bytes, ValidatorInfo}
use preconfirmation_gateway.Error.{Error}
use preconfirmation_gateway.Validators.{
  Moka, IsMoka, Source, fetch_status, get_each, insert_status, status_in, collect, get_batch_status,
}
use preconfirmation_gateway.Validators.Sources.{IsSound}

module _ (Answered : Bytes → ValidatorInfo → Type 0) where
  -- A result is an error, or an answer for its key.
  abbrev Honest : Bytes × Result Error ValidatorInfo → Type 0
  Honest (key, ok info) = Answered key info
  Honest (key, err e) = Unit {0}

  abbrev Entry : Bytes × ValidatorInfo → Type 0
  Entry (key, info) = Answered key info

  insert_status-Entry :
      (key : Bytes) (info : ValidatorInfo) (entries : List (Bytes × ValidatorInfo))
      → Answered key info
      → All Entry entries
      → All Entry (insert_status key info entries)
  unfolding insert_status
  insert_status-Entry key info [] a h = (a, tt)
  insert_status-Entry key info ((k, i) ∷ entries) a h = elim (Bool-cases (bytes_eq k key)) [
    | inl same ↦ rw same (a, h.1)
    | inr other ↦ rw other (h.0, insert_status-Entry key info entries a h.1)
  ]

  collect-Entry :
      (results : List (Bytes × Result Error ValidatorInfo))
      (entries map : List (Bytes × ValidatorInfo))
      → collect results entries ≡ ok map
      → All Honest results
      → All Entry entries
      → All Entry map
  unfolding collect
  collect-Entry [] entries map h honest old = subst (All Entry) (ok-injective h) old
  collect-Entry ((key, ok info) ∷ results) entries map h honest old =
      collect-Entry results (insert_status key info entries) map h honest.1
        (insert_status-Entry key info entries honest.0 old)
  collect-Entry ((key, err e) ∷ results) entries map h honest old = cc

  status_in-Answered :
      (key : Bytes) (entries : List (Bytes × ValidatorInfo)) (info : ValidatorInfo)
      → All Entry entries
      → status_in key entries ≡ some info
      → Answered key info
  unfolding status_in
  status_in-Answered key [] info all h = cc
  status_in-Answered key ((k, i) ∷ entries) info all h = elim (Bool-cases (bytes_eq k key)) [
    | inr other ↦ status_in-Answered key entries info all.1 (rw (status_in, other) at h)
    | inl same ↦
        (let e : some i ≡ some info = rw (status_in, same) at h in
          let e' : i ≡ info = (cc) in
          subst (λ k'. Answered k' info) (bytes_eq→eq k key same) (subst (Answered k) e' all.0))
  ]

abbrev pub HasStatus : Bytes → List (Bytes × ValidatorInfo) → Type 0
HasStatus key entries = (info : ValidatorInfo) × (status_in key entries ≡ some info)

status_in-insert :
    (key other : Bytes) (info : ValidatorInfo) (entries : List (Bytes × ValidatorInfo))
    → status_in other (insert_status key info entries)
      ≡ (if bytes_eq key other then some info else status_in other entries)
unfolding status_in insert_status
status_in-insert key other info [] = refl
status_in-insert key other info ((k, i) ∷ entries) = elim (Bool-cases (bytes_eq k key)) [
  | inl same ↦
      (let e = bytes_eq→eq k key same in ground (arith, same, e, ap (λ k'. bytes_eq k' other) e))
  | inr different ↦ elim (Bool-cases (bytes_eq k other)) [
    | inr no_match ↦ ground (arith, different, no_match, status_in-insert key other info entries)
    | inl match ↦
        (let e = bytes_eq→eq k other match in
          let apart : bytes_eq key other ≡ false =
            bytes_eq_comm key other ∙ (ap (λ k'. bytes_eq k' key) (sym e) ∙ different) in
          ground (arith, different, match, apart))
  ]
]

collect-keeps :
    (key : Bytes) (results : List (Bytes × Result Error ValidatorInfo))
    (entries map : List (Bytes × ValidatorInfo))
    → collect results entries ≡ ok map
    → HasStatus key entries
    → HasStatus key map
unfolding collect
collect-keeps key [] entries map h (info, old) =
    (info, ap (status_in key) (sym (ok-injective h)) ∙ old)
collect-keeps key ((k, err e) ∷ results) entries map h old = cc
collect-keeps key ((k, ok i) ∷ results) entries map h (info, old) =
    collect-keeps key results (insert_status k i entries) map h
      (elim (Bool-cases (bytes_eq k key)) [
        | inl same ↦ (i, rw (status_in-insert k key i entries, same) refl)
        | inr other ↦ (info, rw (status_in-insert k key i entries, other) old)
      ])

abbrev is_key : Bytes → Bytes × Result Error ValidatorInfo → Bool
is_key key result = bytes_eq result.0 key

collect-has :
    (key : Bytes) (results : List (Bytes × Result Error ValidatorInfo))
    (entries map : List (Bytes × ValidatorInfo))
    → collect results entries ≡ ok map
    → any (is_key key) results ≡ true
    → HasStatus key map
unfolding collect any
collect-has key [] entries map h there = cc
collect-has key ((k, err e) ∷ results) entries map h there = cc
collect-has key ((k, ok i) ∷ results) entries map h there = elim (Bool-cases (bytes_eq k key)) [
  | inl same ↦
      collect-keeps key results (insert_status k i entries) map h
        (i, rw (status_in-insert k key i entries, same) refl)
  | inr other ↦ collect-has key results (insert_status k i entries) map h (rw (any, other) at there)
]

no_key : (key : Bytes) → any (λ k. bytes_eq k key) [] ≡ true → ⊥
unfolding any
no_key key h = cc

no_status : (key : Bytes) (info : ValidatorInfo) → status_in key [] ≡ some info → ⊥
unfolding status_in
no_status key info h = cc

module _ {Cache : Type 0} (moka : Moka Cache) (source : Source) where
  -- Each key has a result.
  get_each-keys :
      (seen : ℕ → Cache) (n now : ℕ) (keys : List Bytes) (cache : Cache) (key : Bytes)
      → any (λ k. bytes_eq k key) keys ≡ true
      → any (is_key key) (get_each moka source seen n now keys cache).0 ≡ true
  unfolding get_each any
  get_each-keys seen n now [] cache key h = cc
  get_each-keys seen n now (k ∷ keys) cache key h =
      let fetched = fetch_status moka source n now k cache in
      let answer : Result Error ValidatorInfo × Cache = elim (moka.get now k (seen n)) [
        | some info ↦ (ok info, cache)
        | none ↦ fetched
      ] in
      ground (arith, h, get_each-keys seen (suc n) now keys answer.1 key)

module _ {Cache : Type 0} (moka : Moka Cache) (laws : IsMoka Cache moka)
    (Answered : Bytes → ValidatorInfo → Type 0) (source : Source) where
  get_each-Honest :
      (seen : ℕ → Cache) (n now : ℕ) (keys : List Bytes) (cache : Cache)
      → ((m : ℕ) (k : Bytes) (info : ValidatorInfo) → source m k ≡ ok info → Answered k info)
      → ((m : ℕ) → IsSound moka laws Answered (seen m))
      → All (Honest Answered) (get_each moka source seen n now keys cache).0
  unfolding get_each fetch_status
  get_each-Honest seen n now [] cache honest sound = tt
  get_each-Honest seen n now (key ∷ keys) cache honest sound =
      elim (Option-cases (moka.get now key (seen n))) [
        | inr (info, p) ↦
            rw (get_each, p)
              (sound n now key info p, get_each-Honest seen (suc n) now keys cache honest sound)
        | inl p ↦ elim (Result-cases (source n key)) [
          | inr (e, q) ↦
              rw (get_each, p, fetch_status, q)
                (tt, get_each-Honest seen (suc n) now keys cache honest sound)
          | inl (info, q) ↦
              rw (get_each, p, fetch_status, q)
                (
                  honest n key info q,
                  get_each-Honest seen (suc n) now keys (moka.insert now key info cache) honest
                      sound,
                )
        ]
      ]

  -- What `get_batch_status` returns has a status for every validator that was asked for, and each status
  -- in it has been an answer of the beacon client for that very validator, in this call or before.
  pub get_batch_status-Answered :
      (seen : ℕ → Cache) (now : ℕ) (keys : List Bytes) (cache : Cache)
      (statuses : List (Bytes × ValidatorInfo))
      → ((m : ℕ) (k : Bytes) (info : ValidatorInfo) → source m k ≡ ok info → Answered k info)
      → ((m : ℕ) → IsSound moka laws Answered (seen m))
      → (get_batch_status moka source seen now keys cache).0 ≡ ok statuses
      → ((key : Bytes) → any (λ k. bytes_eq k key) keys ≡ true → HasStatus key statuses)
        × ((key : Bytes) (info : ValidatorInfo)
            → status_in key statuses ≡ some info
            → Answered key info)
  unfolding get_batch_status
  get_batch_status-Answered seen now [] cache statuses honest sound h = (
    (λ key there. absurd (no_key key there)),
    (λ key info found. absurd (no_status key info (ap (status_in key) (ok-injective h) ∙ found))),
  )
  get_batch_status-Answered seen now (k ∷ keys) cache statuses honest sound h =
      let results = (get_each moka source seen 0 now (k ∷ keys) cache).0 in
      let all_answered =
        collect-Entry Answered results [] statuses h
          (get_each-Honest seen 0 now (k ∷ keys) cache honest sound) tt in
      (
        (λ key there.
            collect-has key results [] statuses h
              (get_each-keys moka source seen 0 now (k ∷ keys) cache key there)),
        (λ key info found. status_in-Answered Answered key statuses info all_answered found),
      )
