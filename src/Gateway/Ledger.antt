-- ===== src/Gateway/Ledger.antt =====
-- What the table of commitments is to a client: a ledger that gives each request hash a status, and
-- whose moves issue a commitment under a free hash, and settle commitments.
pub mod Lives
use preconfirmation_gateway.Common.{
  ℕ, ◌≡◌, ◌∙◌, refl, sym, ap, arith, Bool, true, false, not, ◌||◌, List, [], ◌∷◌, ◌++◌, map, Option,
  none, some, any, find, bytes_eq, bytes_eq→eq, bytes_eq_comm, bytes_eq_refl, if◌then◌else◌,
  is_empty, ok, err, Result-cases, Option-cases, Bool-cases, inl, inr, ◌⊎◌, find-append_none,
  find-append_ne, find-passes, subst,
}
use preconfirmation_gateway.Types.{Bytes, Text, SignedCommitment}
use preconfirmation_gateway.Float.{F64}
use preconfirmation_gateway.Crates.{Crates}
use preconfirmation_gateway.Bls.{BlsManager}
use preconfirmation_gateway.Sql.{PgPool, commitment_by_hash, mark_processed}
use preconfirmation_gateway.Commitments.{
  CommitmentRow, CommitmentTable, has_hash, to_signed, to_row, insert_row, save_commitment, one_of,
  mark_row, mark_commitments_as_processed, get_commitment_by_hash,
}
use preconfirmation_gateway.Commitments.Store.{saved}
use preconfirmation_gateway.Submission.{SubmissionConfig}
use preconfirmation_gateway.Rpc.{RpcContext}
use preconfirmation_gateway.Gateway.{
  Gateway, Step, sign, save, quote, charge, poll, expire, deactivate, submit, mark, restart, Reach,
  here, next,
}

-- No commitment, one whose constraint is still to be submitted, or one whose constraint was accepted.
pub data Status : Type 0 where
  absent : Status
  waiting : SignedCommitment → Status
  settled : SignedCommitment → Status

abbrev pub Ledger : Type 0
Ledger = Text → Status

abbrev pub settle : Status → Status
settle absent = absent
settle (waiting sc) = settled sc
settle (settled sc) = settled sc

-- The moves of a ledger. Only what is in the list may be issued, and only what is in the lists settled.
pub data Move (signed : List SignedCommitment) (accepted : List (List Text)) (before after : Ledger)
    : Type 0 where
  keep : ((h : Text) → after h ≡ before h) → Move signed accepted before after
  issue :
      (front back : List SignedCommitment) (sc : SignedCommitment)
      → signed ≡ front ++ sc ∷ back
      → before sc.commitment.request_hash ≡ absent
      → ((h : Text)
          → after h ≡ (if bytes_eq sc.commitment.request_hash h then waiting sc else before h))
      → Move signed accepted before after
  settle_all :
      (front back : List (List Text)) (hashes : List Text)
      → accepted ≡ front ++ hashes ∷ back
      → ((h : Text) → after h ≡ (if any (bytes_eq h) hashes then settle (before h) else before h))
      → Move signed accepted before after

abbrev pub status_of : Option CommitmentRow → Status
status_of none = absent
status_of (some row) =
    if row.constraint_processed then settled (to_signed row) else waiting (to_signed row)

abbrev pub ledger_of : CommitmentTable → Ledger
ledger_of table h = status_of (find (has_hash h) table)

find-any :
    (h : Text) (t : CommitmentTable) → any (has_hash h) t ≡ false → find (has_hash h) t ≡ none
unfolding any find
find-any h [] e = refl
find-any h (row ∷ t) e = ground (arith, find-any h t)

-- Marking settles the status of each of its hashes, and of no other.
ledger-mark :
    (hashes : List Text) (h : Text) (t : CommitmentTable)
    → ledger_of (map (mark_row hashes) t) h
      ≡ (if any (bytes_eq h) hashes then settle (ledger_of t h) else ledger_of t h)
unfolding find mark_row to_signed
ledger-mark hashes h [] = ground arith
ledger-mark hashes h (row ∷ t) = elim (Bool-cases (bytes_eq row.request_hash h)) [
  | inr other ↦ ground (arith, ledger-mark hashes h t)
  | inl same ↦ ground (arith, bytes_eq→eq row.request_hash h same)
]

module _ ⦃x : Crates⦄ where
  ledger-issue :
      (id : ℕ) (sc : SignedCommitment) (t : CommitmentTable)
      → any (has_hash sc.commitment.request_hash) t ≡ false
      → (h : Text)
      → ledger_of (t ++ to_row id sc ∷ []) h
        ≡ (if bytes_eq sc.commitment.request_hash h then waiting sc else ledger_of t h)
  unfolding to_row to_signed
  ledger-issue id sc t new h = elim (Bool-cases (bytes_eq sc.commitment.request_hash h)) [
    | inr other ↦ rw (other, find-append_ne (has_hash h) t (to_row id sc) other) refl
    | inl same ↦
        (let e = bytes_eq→eq sc.commitment.request_hash h same in
          let new' = subst (λ k. any (has_hash k) t ≡ false) e new in
          rw (same, find-append_none (has_hash h) t (to_row id sc) new' same) refl)
  ]

  -- A save appends the commitment, whose hash was free, or it changes nothing.
  pub save_commitment-cases :
      (pool : PgPool) (id : ℕ) (sc : SignedCommitment) (t : CommitmentTable)
      → ((save_commitment pool id sc t).1 ≡ t)
        ⊎ (((save_commitment pool id sc t).1 ≡ t ++ to_row id sc ∷ [])
            × (any (has_hash sc.commitment.request_hash) t ≡ false))
  save_commitment-cases pool id sc t = elim (Result-cases (save_commitment pool id sc t).0) [
    | inr (e, p) ↦ inl (unfold save_commitment in ground (arith, p))
    | inl (o, p) ↦ elim (Option-cases o) [
      | inl q ↦ inl (unfold save_commitment in ground (arith, p, q))
      | inr (n, q) ↦ inr (saved pool id n sc t (p ∙ ap ok q))
    ]
  ]

module _ (signed : List SignedCommitment) (accepted : List (List Text)) where
  save-Move :
      ⦃x : Crates⦄ (pool : PgPool) (id : ℕ) (front back : List SignedCommitment)
      (sc : SignedCommitment) (t : CommitmentTable)
      → signed ≡ front ++ sc ∷ back
      → Move signed accepted (ledger_of t) (ledger_of (save_commitment pool id sc t).1)
  save-Move pool id front back sc t e = elim (save_commitment-cases pool id sc t) [
    | inl unchanged ↦ rw unchanged (keep (λ h. refl))
    | inr (appended, free) ↦ rw appended (
        issue front back sc e (ap status_of (find-any sc.commitment.request_hash t free))
          (ledger-issue id sc t free))
  ]

  mark-Move :
      (pool : PgPool) (front back : List (List Text)) (hashes : List Text) (t : CommitmentTable)
      → accepted ≡ front ++ hashes ∷ back
      → Move signed accepted
          (ledger_of t)
          (ledger_of (mark_commitments_as_processed pool hashes t).1)
  unfolding mark_commitments_as_processed
  mark-Move pool front back [] t e = keep (λ h. refl)
  mark-Move pool front back (hash ∷ hashes) t e = elim (Bool-cases (pool mark_processed)) [
    | inl down ↦ rw (mark_commitments_as_processed, down) (keep (λ h. refl))
    | inr up ↦
        rw (mark_commitments_as_processed, up)
          (settle_all front back (hash ∷ hashes) e (λ h. ledger-mark (hash ∷ hashes) h t))
  ]

module _ {ℓ} {F : Type ℓ} ⦃f : F64 F⦄ ⦃x : Crates⦄ (context : RpcContext F) (manager : BlsManager)
    (config : SubmissionConfig) (our_bls_pubkey : Bytes) where
  abbrev pub ledger : Gateway F → Ledger
  ledger g = ledger_of g.tables.commitments

  -- Every step of the gateway is a move of the ledger: it issues one of the commitments that were signed,
  -- under a hash that was free, or settles the commitments of an accepted submission, or keeps
  -- every status.
  pub Step-Move :
      {g g' : Gateway F}
      → Step context manager config our_bls_pubkey g g'
      → Move g.signed g.accepted (ledger g) (ledger g')
  Step-Move (sign world request earlier slot sc e h) = keep (λ h. refl)
  Step-Move {g} (save pool id front back sc e) =
      save-Move g.signed g.accepted pool id front back sc g.tables.commitments e
  Step-Move (quote oracle commitment_type payload slot) = keep (λ h. refl)
  Step-Move (charge oracle slot gas) = keep (λ h. refl)
  Step-Move (poll fetched statuses pool ids) = keep (λ h. refl)
  Step-Move (expire pool current_slot) = keep (λ h. refl)
  Step-Move (deactivate statuses pool n row) = keep (λ h. refl)
  Step-Move (submit replies pool d slot status constraints hashes e h) = keep (λ h. refl)
  Step-Move {g} (mark pool front back hashes e) =
      mark-Move g.signed g.accepted pool front back hashes g.tables.commitments e
  Step-Move restart = keep (λ h. refl)
