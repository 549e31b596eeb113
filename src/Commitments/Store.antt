-- ===== src/Commitments/Store.antt =====
-- Theorems on saving and fetching, of src/db/operations.rs.
use preconfirmation_gateway.Common.{
  ℕ, ◌≡◌, refl, ap, arith, true, false, some, List, [], ◌∷◌, ◌++◌, map, any, any-append, any-map,
  find-append_none, find-append_ne, ◌≢◌, bytes_eq_comm, bytes_eq, bytes_eq_refl, ok, ◌==◌,
}
use preconfirmation_gateway.Types.{Text, SignedCommitment}
use preconfirmation_gateway.Crates.{Crates}
use preconfirmation_gateway.Sql.{PgPool, commitment_by_hash}
use preconfirmation_gateway.Commitments.{
  CommitmentRow, CommitmentTable, has_hash, has_id, row_checks, insert_row, to_signed, to_row,
  save_commitment, get_commitment_by_hash, mark_commitments_as_processed, mark_row,
}

-- Every request hash and every id stands once, and every row passes the checks.
abbrev pub IsTable : CommitmentTable → Type 0
IsTable [] = Unit
IsTable (r ∷ rs) =
    (any (has_hash r.request_hash) rs ≡ false)
    × (any (has_id r.id) rs ≡ false)
    × (row_checks r ≡ true)
    × IsTable rs

id_comm : (a b : ℕ) → (a == b) ≡ (b == a)
id_comm a b = ground arith

IsTable-append :
    (t : CommitmentTable) (r : CommitmentRow)
    → IsTable t
    → any (has_hash r.request_hash) t ≡ false
    → any (has_id r.id) t ≡ false
    → row_checks r ≡ true
    → IsTable (t ++ r ∷ [])
unfolding any
IsTable-append [] r v h i c = (refl, refl, c, tt)
IsTable-append (q ∷ t) r v h i c =
    let rest = IsTable-append t r v.3 in
    ground (
      arith,
      rest,
      any-append (has_hash q.request_hash) t (r ∷ []),
      any-append (has_id q.id) t (r ∷ []),
      bytes_eq_comm q.request_hash r.request_hash,
      id_comm q.id r.id,
    )

insert_row-IsTable :
    (pool : PgPool) (r : CommitmentRow) (t : CommitmentTable)
    → IsTable t
    → IsTable (insert_row pool r t).1
unfolding insert_row
insert_row-IsTable pool r t v = ground (arith, IsTable-append t r v)

mark_row-request_hash :
    (hs : List Text) (r : CommitmentRow) → (mark_row hs r).request_hash ≡ r.request_hash
unfolding mark_row
mark_row-request_hash hs r = ground arith

mark_row-id : (hs : List Text) (r : CommitmentRow) → (mark_row hs r).id ≡ r.id
unfolding mark_row
mark_row-id hs r = ground arith

mark_row-row_checks :
    (hs : List Text) (r : CommitmentRow) → row_checks (mark_row hs r) ≡ row_checks r
unfolding mark_row row_checks
mark_row-row_checks hs r = ground arith

any-has_hash-mark :
    (hs : List Text) (h : Text) (t : CommitmentTable)
    → any (has_hash h) (map (mark_row hs) t) ≡ any (has_hash h) t
any-has_hash-mark hs h t =
    any-map (has_hash h) (has_hash h) (mark_row hs) t
      (λ r. ap (λ k. bytes_eq k h) (mark_row-request_hash hs r))

any-has_id-mark :
    (hs : List Text) (i : ℕ) (t : CommitmentTable)
    → any (has_id i) (map (mark_row hs) t) ≡ any (has_id i) t
any-has_id-mark hs i t =
    any-map (has_id i) (has_id i) (mark_row hs) t (λ r. ap (λ k. k == i) (mark_row-id hs r))

map-mark_row-IsTable :
    (hs : List Text) (t : CommitmentTable) → IsTable t → IsTable (map (mark_row hs) t)
map-mark_row-IsTable hs [] v = tt
map-mark_row-IsTable hs (r ∷ t) v = (
  rw (mark_row-request_hash hs r, any-has_hash-mark hs r.request_hash t) v.0,
  rw (mark_row-id hs r, any-has_id-mark hs r.id t) v.1,
  rw (mark_row-row_checks hs r) v.2,
  map-mark_row-IsTable hs t v.3,
)

-- Marking commitments as processed keeps the table valid.
pub mark_commitments-IsTable :
    (pool : PgPool) (hashes : List Text) (t : CommitmentTable)
    → IsTable t
    → IsTable (mark_commitments_as_processed pool hashes t).1
unfolding mark_commitments_as_processed
mark_commitments-IsTable pool hashes t v = ground (arith, map-mark_row-IsTable hashes t v)

inserted :
    (pool : PgPool) (r : CommitmentRow) (t : CommitmentTable) (n : ℕ)
    → (insert_row pool r t).0 ≡ ok (some n)
    → ((insert_row pool r t).1 ≡ t ++ r ∷ []) × (any (has_hash r.request_hash) t ≡ false)
unfolding insert_row
inserted pool r t n h = ground arith

module _ ⦃x : Crates⦄ where
  pub saved :
      (pool : PgPool) (id n : ℕ) (sc : SignedCommitment) (t : CommitmentTable)
      → (save_commitment pool id sc t).0 ≡ ok (some n)
      → ((save_commitment pool id sc t).1 ≡ t ++ to_row id sc ∷ [])
        × (any (has_hash sc.commitment.request_hash) t ≡ false)
  unfolding save_commitment to_row
  saved pool id n sc t h = ground (arith, inserted pool (to_row id sc) t n)

  -- Saving a commitment, with whatever result, keeps the table valid: no request hash and no id stands
  -- twice, and every row passes the checks of the migrations.
  pub save_commitment-IsTable :
      (pool : PgPool) (id : ℕ) (sc : SignedCommitment) (t : CommitmentTable)
      → IsTable t
      → IsTable (save_commitment pool id sc t).1
  unfolding save_commitment
  save_commitment-IsTable pool id sc t v =
      ground (arith, insert_row-IsTable pool (to_row id sc) t v)

  -- An inserted commitment is the one that its request hash finds, unchanged, and what any other hash
  -- finds is what it found before.
  pub get-save_commitment :
      (pool : PgPool) (id new_id : ℕ) (sc : SignedCommitment) (t : CommitmentTable) (later : PgPool)
      → later commitment_by_hash ≡ false
      → (save_commitment pool id sc t).0 ≡ ok (some new_id)
      → (get_commitment_by_hash later sc.commitment.request_hash (save_commitment pool id sc t).1
          ≡ ok (some sc))
        × ((hash : Text)
            → bytes_eq sc.commitment.request_hash hash ≡ false
            → get_commitment_by_hash later hash (save_commitment pool id sc t).1
              ≡ get_commitment_by_hash later hash t)
  get-save_commitment pool id new_id sc t later up h =
      let (e, absent) = saved pool id new_id sc t h in
      rw e (
        unfold get_commitment_by_hash to_row to_signed in
            rw (
              up,
              find-append_none (has_hash sc.commitment.request_hash) t (to_row id sc) absent
                  (bytes_eq_refl sc.commitment.request_hash),
            ),
        λ hash ne.
            unfold get_commitment_by_hash to_row in
            rw (find-append_ne (has_hash hash) t (to_row id sc) ne),
      )

  taken :
      (pool : PgPool) (id : ℕ) (sc : SignedCommitment) (t : CommitmentTable)
      → any (has_hash sc.commitment.request_hash) t ≡ true
      → ((save_commitment pool id sc t).1 ≡ t)
        × ((n : ℕ) → (save_commitment pool id sc t).0 ≢ ok (some n))
  unfolding save_commitment to_row
  taken pool id sc t h = (ground arith, λ n e. ground arith)

  any-to_row :
      (id : ℕ) (sc sc' : SignedCommitment) (t : CommitmentTable)
      → bytes_eq sc.commitment.request_hash sc'.commitment.request_hash ≡ true
      → any (has_hash sc'.commitment.request_hash) (t ++ to_row id sc ∷ []) ≡ true
  unfolding to_row any
  any-to_row id sc sc' t same =
      ground (arith, any-append (has_hash sc'.commitment.request_hash) t (to_row id sc ∷ []))

  -- A commitment whose request hash is taken is not saved again, whoever signed it and under whatever
  -- id: no second call that gets through to a row returns an id, and the table stays as it is.
  pub save_commitment-taken :
      (pool again : PgPool) (id id' new_id : ℕ) (sc sc' : SignedCommitment) (t : CommitmentTable)
      → (save_commitment pool id sc t).0 ≡ ok (some new_id)
      → bytes_eq sc.commitment.request_hash sc'.commitment.request_hash ≡ true
      → let t' = (save_commitment pool id sc t).1 in
        ((save_commitment again id' sc' t').1 ≡ t')
        × ((n : ℕ) → (save_commitment again id' sc' t').0 ≢ ok (some n))
  save_commitment-taken pool again id id' new_id sc sc' t h same =
      let (e, absent) = saved pool id new_id sc t h in
      rw e (taken again id' sc' (t ++ to_row id sc ∷ []) (any-to_row id sc sc' t same))

  -- Where the hash stands in the table already, nothing is inserted.
  pub save_commitment-absent :
      (pool : PgPool) (id n : ℕ) (sc : SignedCommitment) (t : CommitmentTable)
      → (save_commitment pool id sc t).0 ≡ ok (some n)
      → any (has_hash sc.commitment.request_hash) t ≡ false
  save_commitment-absent pool id n sc t h = (saved pool id n sc t h).1
