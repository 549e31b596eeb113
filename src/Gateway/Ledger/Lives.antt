-- ===== src/Gateway/Ledger/Lives.antt =====
-- The life of a commitment over the runs of the gateway.
use preconfirmation_gateway.Common.{
  ◌≡◌, ◌∙◌, refl, sym, ap, subst, arith, false, List, Option, none, some, any, find, bytes_eq,
  bytes_eq→eq, ok, Option-cases, Bool-cases, ◌⊎◌, inl, inr,
}
use preconfirmation_gateway.Types.{Bytes, Text, SignedCommitment}
use preconfirmation_gateway.Float.{F64}
use preconfirmation_gateway.Crates.{Crates}
use preconfirmation_gateway.Bls.{BlsManager}
use preconfirmation_gateway.Sql.{PgPool, commitment_by_hash}
use preconfirmation_gateway.Commitments.{
  CommitmentTable, has_hash, signed_of, get_commitment_by_hash,
}
use preconfirmation_gateway.Submission.{SubmissionConfig}
use preconfirmation_gateway.Rpc.{RpcContext}
use preconfirmation_gateway.Gateway.{Gateway, Reach, here, next}
use preconfirmation_gateway.Gateway.Ledger.{
  Status, absent, waiting, settled, settle, Ledger, Move, keep, issue, settle_all, ledger_of,
  Step-Move, ledger,
}

-- A status only goes on: a commitment does not vanish and does not change, and once it is settled it
-- does not wait again.
abbrev pub Advances : Status → Status → Type 0
Advances absent after = Unit {0}
Advances (waiting sc) after = (after ≡ waiting sc) ⊎ (after ≡ settled sc)
Advances (settled sc) after = after ≡ settled sc

Advances-refl : (s : Status) → Advances s s
Advances-refl absent = tt
Advances-refl (waiting sc) = inl refl
Advances-refl (settled sc) = refl

Advances-trans : (s s' s'' : Status) → Advances s s' → Advances s' s'' → Advances s s''
Advances-trans absent s' s'' h k = tt
Advances-trans (waiting sc) s' s'' (inl e) k = subst (λ s. Advances s s'') e k
Advances-trans (waiting sc) s' s'' (inr e) k = inr (subst (λ s. Advances s s'') e k)
Advances-trans (settled sc) s' s'' e k = subst (λ s. Advances s s'') e k

Advances-settle : (s : Status) → Advances s (settle s)
Advances-settle absent = tt
Advances-settle (waiting sc) = inr refl
Advances-settle (settled sc) = refl

Move-Advances :
    (signed : List SignedCommitment) (accepted : List (List Text)) (before after : Ledger)
    → Move signed accepted before after
    → (h : Text) → Advances (before h) (after h)
Move-Advances signed accepted before after (keep same) h = rw (same h) (Advances-refl (before h))
Move-Advances signed accepted before after (issue front back sc e free change) h =
    elim (Bool-cases (bytes_eq sc.commitment.request_hash h)) [
      | inr other ↦ rw (change h, other) (Advances-refl (before h))
      | inl equal ↦
          (let free' = ap before (sym (bytes_eq→eq sc.commitment.request_hash h equal)) ∙ free in
            rw free' tt)
    ]
Move-Advances signed accepted before after (settle_all front back hashes e change) h =
    elim (Bool-cases (any (bytes_eq h) hashes)) [
      | inr other ↦ rw (change h, other) (Advances-refl (before h))
      | inl marked ↦ rw (change h, marked) (Advances-settle (before h))
    ]

-- A status that holds a commitment, and the row that it comes from.
abbrev held : Status → Option SignedCommitment
held absent = none
held (waiting sc) = some sc
held (settled sc) = some sc

held-status_of :
    (h : Text) (t : CommitmentTable) → held (ledger_of t h) ≡ signed_of (find (has_hash h) t)
held-status_of h t = elim (Option-cases (find (has_hash h) t)) [
  | inl e ↦ rw e refl
  | inr (row, e) ↦ rw e (ground arith)
]

held-Advances :
    (s s' : Status) (sc : SignedCommitment) → Advances s s' → held s ≡ some sc → held s' ≡ some sc
held-Advances absent s' sc a h = cc
held-Advances (waiting sc') s' sc (inl e) h = rw e h
held-Advances (waiting sc') s' sc (inr e) h = rw e h
held-Advances (settled sc') s' sc e h = rw e h

module _ {ℓ} {F : Type ℓ} ⦃f : F64 F⦄ ⦃x : Crates⦄ (context : RpcContext F) (manager : BlsManager)
    (config : SubmissionConfig) (our_bls_pubkey : Bytes) where
  abbrev statuses : Gateway F → Ledger
  statuses g = ledger context manager config our_bls_pubkey g

  -- Over any run of the gateway, restarts included, the status of a request hash only goes on: a
  -- commitment that is stored is never lost or replaced, and one that is settled never waits again.
  pub Reach-Advances :
      {g g' : Gateway F} (h : Text)
      → Reach context manager config our_bls_pubkey g g'
      → Advances (statuses g h) (statuses g' h)
  Reach-Advances {g} h here = Advances-refl (statuses g h)
  Reach-Advances {g} {g' = g''} h (next {g'} r st) =
      Advances-trans (statuses g h) (statuses g' h) (statuses g'' h) (Reach-Advances h r) (
        Move-Advances g'.signed g'.accepted (statuses g') (statuses g'')
          (Step-Move context manager config our_bls_pubkey st) h)

  -- What a client has read under a request hash, it reads at any later time.
  pub Reach-get_commitment :
      {g g' : Gateway F} (h : Text) (pool later : PgPool) (sc : SignedCommitment)
      → Reach context manager config our_bls_pubkey g g'
      → get_commitment_by_hash pool h g.tables.commitments ≡ ok (some sc)
      → later commitment_by_hash ≡ false
      → get_commitment_by_hash later h g'.tables.commitments ≡ ok (some sc)
  unfolding get_commitment_by_hash
  Reach-get_commitment {g} {g'} h pool later sc r read up =
      let found : signed_of (find (has_hash h) g.tables.commitments) ≡ some sc =
        ground (arith, read) in
      let kept =
        held-Advances (statuses g h) (statuses g' h) sc (Reach-Advances h r)
          (held-status_of h g.tables.commitments ∙ found) in
      let found' = sym (held-status_of h g'.tables.commitments) ∙ kept in ground (arith, up, found')
