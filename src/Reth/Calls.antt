-- ===== src/Reth/Calls.antt =====
-- Theorems on the attempts of `make_rpc_call`, of src/api/reth.rs.
use preconfirmation_gateway.Common.{
  ℕ, zero, suc, ◌+◌, ◌≤◌, ◌<◌, ◌≡◌, ◌↔◌, ◌⊎◌, subst, inl, inr, ◌∙◌, refl, ap, arith, Bool, true,
  false, List, ◌++◌, Result, ok, ok-injective,
}
use preconfirmation_gateway.Error.{Error}
use preconfirmation_gateway.Reth.{
  Attempt, response, refused, unreachable, http_error, not_json, pause, after_attempt, rpc_attempts,
  make_rpc_call,
}

le-cases : (m n : ℕ) → m ≤ n → (m ≡ n) ⊎ (m < n)
le-cases m n h = ground arith

module _ {Json : Type 0} where
  abbrev pub is_transient : Attempt Json → Bool
  is_transient (response json) = false
  is_transient refused = false
  is_transient unreachable = true
  is_transient http_error = true
  is_transient not_json = true

  after_attempt-ok :
      (a : Attempt Json) (again : Result Error Json × List ℕ) (json : Json)
      → (after_attempt a again).0 ≡ ok json
      → (a ≡ response json) ⊎ ((is_transient a ≡ true) × (again.0 ≡ ok json))
  after_attempt-ok (response j) again json h = inl (ap response (ok-injective h))
  after_attempt-ok refused again json h = cc
  after_attempt-ok unreachable again json h = inr (refl, h)
  after_attempt-ok http_error again json h = inr (refl, h)
  after_attempt-ok not_json again json h = inr (refl, h)

  after_attempt-transient :
      (a : Attempt Json) (again : Result Error Json × List ℕ)
      → is_transient a ≡ true
      → after_attempt a again ≡ again
  after_attempt-transient (response j) again h = cc
  after_attempt-transient refused again h = cc
  after_attempt-transient unreachable again h = refl
  after_attempt-transient http_error again h = refl
  after_attempt-transient not_json again h = refl

  -- The attempts from one number on, up to another, failed in a way that is tried again.
  abbrev pub Failed : (ℕ → Attempt Json) → ℕ → ℕ → Type 0
  Failed replies first last = (k : ℕ) → first ≤ k → k < last → is_transient (replies k) ≡ true

  Failed-step :
      (replies : ℕ → Attempt Json) (first last : ℕ)
      → is_transient (replies first) ≡ true
      → Failed replies (suc first) last
      → Failed replies first last
  Failed-step replies first last now later k c d = elim (le-cases first k c) [
    | inl same ↦ subst (λ m. is_transient (replies m) ≡ true) same now
    | inr less ↦ later k less d
  ]

  attempt-ok :
      (replies : ℕ → Attempt Json) (max_retries left made : ℕ) (json : Json)
      → (rpc_attempts replies max_retries left made).0 ≡ ok json
      → (n : ℕ) × (n < made + left) × (replies n ≡ response json) × Failed replies made n
  unfolding rpc_attempts
  attempt-ok replies max_retries zero made json h = cc
  attempt-ok replies max_retries (suc left) made json h =
      let rest = rpc_attempts replies max_retries left (suc made) in
      elim (after_attempt-ok (replies made) (rest.0, pause (suc made) max_retries ++ rest.1) json
        h) [
          | inl now ↦ (made, omega arith, now, (λ k c d. absurd (omega arith)))
          | inr (again, later) ↦
              (let (n, a, b, c) = attempt-ok replies max_retries left (suc made) json later in
                (n, omega arith, b, Failed-step replies made n again c))
        ]

  attempt-reaches :
      (replies : ℕ → Attempt Json) (max_retries n left made : ℕ) (json : Json)
      → n < left
      → Failed replies made (made + n)
      → replies (made + n) ≡ response json
      → (rpc_attempts replies max_retries left made).0 ≡ ok json
  unfolding rpc_attempts
  attempt-reaches replies max_retries n zero made json l f r = absurd (omega arith)
  attempt-reaches replies max_retries zero (suc left) made json l f r =
      let now : replies made ≡ response json = ap replies (omega arith) ∙ r in
      rw (rpc_attempts, now) refl
  attempt-reaches replies max_retries (suc n) (suc left) made json l f r =
      let rest = rpc_attempts replies max_retries left (suc made) in
      ap (λ p. p.0)
        (after_attempt-transient (replies made) (rest.0, pause (suc made) max_retries ++ rest.1)
          (f made (omega arith) (omega arith)))
      ∙ attempt-reaches replies max_retries n left (suc made) json (omega arith)
          (λ k c d. f k (omega arith) (omega arith)) (ap replies (omega arith) ∙ r)

  -- A call succeeds exactly where one of its first `max_retries` attempts gets an answer without an error
  -- and every attempt before it failed in a way that is tried again: no connection, a status that is no
  -- success, or no JSON. It returns that answer. With `max_retries` at 0 there is no attempt, and no
  -- success.
  pub make_rpc_call_iff :
      (replies : ℕ → Attempt Json) (max_retries : ℕ) (json : Json)
      → ((make_rpc_call replies max_retries).0 ≡ ok json)
        ↔ ((n : ℕ) × (n < max_retries) × (replies n ≡ response json) × Failed replies 0 n)
  unfolding make_rpc_call
  make_rpc_call_iff replies max_retries json = (
    (λ h.
        let (n, a, b, c) = attempt-ok replies max_retries max_retries 0 json h in
        (n, omega arith, b, c)),
    (λ (n, a, b, c).
        attempt-reaches replies max_retries n max_retries 0 json a (λ k d e. c k d (omega arith))
          (ap replies (omega arith) ∙ b)),
  )
