-- ===== src/Relay/Client/Limits.antt =====
-- Theorems on a client of src/api/constraints.rs that was created: what its calls can cost.
use preconfirmation_gateway.Common.{
  ℕ, zero, suc, ◌+◌, ◌*◌, ◌≤◌, ◌<◌, ◌≡◌, refl, ap, arith, Bool, not, Option, none, some, List, [],
  ◌∷◌, ltb, ◌==◌, max, length, All, ok, guard, >>=-eq-ok, guard-eq-ok, ok-injective, inl, inr,
}
use preconfirmation_gateway.Error.{
  Error, empty_endpoint, zero_timeout, too_many_retries, request_failed,
}
use preconfirmation_gateway.Config.{ConstraintsApiConfig}
use preconfirmation_gateway.Relay.{Reply, judge, attempts, submit_constraints}
use preconfirmation_gateway.Relay.Retries.{Verdict-cases, submit_constraints-ok}
use preconfirmation_gateway.Relay.Client.{is_blank, new_client}

abbrev pub sum : List ℕ → ℕ
sum [] = 0
sum (x ∷ xs) = x + sum xs

sum-le : (bound : ℕ) (xs : List ℕ) → All (λ x. x ≤ bound) xs → sum xs ≤ length xs * bound
sum-le bound [] h = omega arith
sum-le bound (x ∷ xs) h = let rest = sum-le bound xs h.1 in let first = h.0 in grind arith

-- The loop looks at no answer beyond the attempts that are left.
attempts-agree :
    (replies replies' : ℕ → Reply) (left made : ℕ) (last : Option Error)
    → ((n : ℕ) → made < n → n ≤ made + left → replies n ≡ replies' n)
    → attempts replies left made last ≡ attempts replies' left made last
unfolding attempts
attempts-agree replies replies' zero made last same = refl
attempts-agree replies replies' (suc left) made last same =
    let now : replies (suc made) ≡ replies' (suc made) =
      same (suc made) (omega arith) (omega arith) in
    elim (Verdict-cases (judge (suc made) (replies' (suc made)))) [
      | inl (s, p) ↦ rw (attempts, now, p) refl
      | inr (inl (e, p)) ↦ rw (attempts, now, p) refl
      | inr (inr (e, waits, p)) ↦
          (let rest =
              attempts-agree replies replies' left (suc made) (some e)
                (λ n a b. same n (omega arith) (omega arith)) in
            rw (attempts, now, p, rest) refl)
    ]

-- The checks that a configuration has passed.
pub new_client-ok :
    (build : ℕ → Bool) (config client : ConstraintsApiConfig)
    → new_client build config ≡ ok client
    → (config ≡ client) × (config.max_retries ≤ 10)
unfolding new_client
new_client-ok build config client h =
    let (u0, p0, h0) =
      >>=-eq-ok (guard (not (is_blank config.relay_endpoint)) empty_endpoint) _ h in
    let (u1, p1, h1) =
      >>=-eq-ok (guard (not (config.request_timeout_secs == 0)) zero_timeout) _ h0 in
    let (u2, p2, h2) = >>=-eq-ok (guard (not (ltb 10 config.max_retries)) too_many_retries) _ h1 in
    let (u3, p3, h3) = >>=-eq-ok (guard (build config.request_timeout_secs) request_failed) _ h2 in
    let few = guard-eq-ok (not (ltb 10 config.max_retries)) too_many_retries p2 in
    (ok-injective h3, ground (arith, few))

-- A call of a client that could be created ends after at most ten requests, whatever their answers: those
-- of later ones make no difference. It waits at most ten times, and at most five
-- minutes together.
pub submit_constraints-bounded :
    (build : ℕ → Bool) (config client : ConstraintsApiConfig) (replies replies' : ℕ → Reply)
    → new_client build config ≡ ok client
    → ((n : ℕ) → 0 < n → n ≤ 10 → replies n ≡ replies' n)
    → (submit_constraints replies client.max_retries
        ≡ submit_constraints replies' client.max_retries)
      × (length (submit_constraints replies client.max_retries).1 ≤ 10)
      × (sum (submit_constraints replies client.max_retries).1 ≤ 300000)
submit_constraints-bounded build config client replies replies' h same =
    let (is_config, few) = new_client-ok build config client h in
    let e = ap (λ (c : ConstraintsApiConfig). c.max_retries) is_config in
    let (attempted, short) = submit_constraints-ok replies client.max_retries in
    let waits = (submit_constraints replies client.max_retries).1 in
    let total = sum-le 30000 waits short.1 in
    let number : length waits ≤ max 1 client.max_retries = short.0 in
    let most : max 1 client.max_retries ≤ 10 = omega arith in
    (
      unfold submit_constraints in
          attempts-agree replies replies' (max 1 client.max_retries) 0 none
            (λ n a b. same n a (omega arith)),
      omega arith,
      omega arith,
    )
