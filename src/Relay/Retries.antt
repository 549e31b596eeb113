-- ===== src/Relay/Retries.antt =====
-- Theorems on the loop of `submit_constraints`, of src/api/constraints.rs.
use preconfirmation_gateway.Common.{
  ℕ, zero, suc, ◌+◌, ◌≤◌, ◌<◌, ◌≡◌, ◌⊎◌, not, ◌&&◌, ◌||◌, ◌==◌, leb, inl, inr, ok-injective, ◌∙◌,
  refl, ap, subst, arith, Bool, true, false, Option, none, some, List, [], max, length,
  length-append, All, All-append, ok,
}
use preconfirmation_gateway.Error.{Error}
use preconfirmation_gateway.Relay.{
  Reply, Verdict, accept, stop, retry, answered, failed, judge, backoff, is_accepted, attempts,
  submit_constraints,
}

pub Verdict-cases :
    (v : Verdict)
    → ((s : ℕ) × (v ≡ accept s))
      ⊎ (((e : Error) × (v ≡ stop e)) ⊎ ((e : Error) × (waits : List ℕ) × (v ≡ retry e waits)))
Verdict-cases (accept s) = inl (s, refl)
Verdict-cases (stop e) = inr (inl (e, refl))
Verdict-cases (retry e waits) = inr (inr (e, waits, refl))

backoff-le : (n : ℕ) → backoff n ≤ 30000
unfolding backoff
backoff-le n = omega arith

abbrev pub waits_of : Verdict → List ℕ
waits_of (accept s) = []
waits_of (stop e) = []
waits_of (retry e waits) = waits

abbrev pub is_retried : Verdict → Bool
is_retried (accept s) = false
is_retried (stop e) = false
is_retried (retry e waits) = true

-- An attempt waits at most once, for at most thirty seconds.
abbrev pub Short : ℕ → List ℕ → Type 0
Short n waits = (length waits ≤ n) × All (λ w. w ≤ 30000) waits

judge-Short : (n : ℕ) (r : Reply) → Short 1 (waits_of (judge n r))
unfolding judge
judge-Short n failed = ground (arith, backoff-le n)
judge-Short n (answered s) = ground (arith, backoff-le n)

judge-accept :
    (n : ℕ) (r : Reply) (s : ℕ) → judge n r ≡ accept s → (r ≡ answered s) × (is_accepted s ≡ true)
unfolding judge
judge-accept n failed s h = cc
judge-accept n (answered t) s h = ground arith

judge-is_accepted : (n s : ℕ) → is_accepted s ≡ true → judge n (answered s) ≡ accept s
unfolding judge
judge-is_accepted n s h = rw h refl

attempts-ok :
    (replies : ℕ → Reply) (left made : ℕ) (last : Option Error) (status : ℕ)
    → (attempts replies left made last).0 ≡ ok status
    → (n : ℕ) × (made < n)
      × (n ≤ made + left)
      × (replies n ≡ answered status)
      × (is_accepted status ≡ true)
unfolding attempts
attempts-ok replies zero made last status h = cc
attempts-ok replies (suc left) made last status h =
    elim (Verdict-cases (judge (suc made) (replies (suc made)))) [
      | inl (s, p) ↦
          (let same = ok-injective (rw (attempts, p) at h) in
            let (r, a) = judge-accept (suc made) (replies (suc made)) s p in
            (
              suc made,
              omega arith,
              omega arith,
              r ∙ ap answered same,
              subst (λ m. is_accepted m ≡ true) same a,
            ))
      | inr (inl (e, p)) ↦ (let h' = rw (attempts, p) at h in cc)
      | inr (inr (e, waits, p)) ↦
          (let (n, a, b, r, c) =
              attempts-ok replies left (suc made) (some e) status (rw (attempts, p) at h) in
            (n, omega arith, omega arith, r, c))
    ]

attempts-Short :
    (replies : ℕ → Reply) (left made : ℕ) (last : Option Error)
    → Short left (attempts replies left made last).1
unfolding attempts
attempts-Short replies zero made last = (omega arith, tt)
attempts-Short replies (suc left) made last =
    elim (Verdict-cases (judge (suc made) (replies (suc made)))) [
      | inl (s, p) ↦ rw (attempts, p) (omega arith, tt)
      | inr (inl (e, p)) ↦ rw (attempts, p) (omega arith, tt)
      | inr (inr (e, waits, p)) ↦
          (let short : Short 1 waits = rw p at (judge-Short (suc made) (replies (suc made))) in
            let rest = attempts-Short replies left (suc made) (some e) in
            let all = (attempts replies left (suc made) (some e)).1 in
            rw (attempts, p)
              (
                omega (arith, length-append waits all, short.0, rest.0),
                All-append (λ w. w ≤ 30000) waits all short.1 rest.1,
              ))
    ]

attempts-reaches :
    (replies : ℕ → Reply) (n left made : ℕ) (last : Option Error) (status : ℕ)
    → n < left
    → ((k : ℕ) → made ≤ k → k < made + n → is_retried (judge (suc k) (replies (suc k))) ≡ true)
    → replies (suc (made + n)) ≡ answered status
    → is_accepted status ≡ true
    → (attempts replies left made last).0 ≡ ok status
unfolding attempts
attempts-reaches replies n zero made last status l again r a = absurd (omega arith)
attempts-reaches replies zero (suc left) made last status l again r a =
    let now : replies (suc made) ≡ answered status = ap (λ m. replies (suc m)) (omega arith) ∙ r in
    rw (attempts, now, judge-is_accepted (suc made) status a) refl
attempts-reaches replies (suc n) (suc left) made last status l again r a =
    elim (Verdict-cases (judge (suc made) (replies (suc made)))) [
      | inl (s, p) ↦ (let q = rw p at (again made (omega arith) (omega arith)) in cc)
      | inr (inl (e, p)) ↦ (let q = rw p at (again made (omega arith) (omega arith)) in cc)
      | inr (inr (e, waits, p)) ↦
          rw (attempts, p)
            (attempts-reaches replies n left (suc made) (some e) status (omega arith)
              (λ k c d. again k (omega arith) (omega arith))
              (ap (λ m. replies (suc m)) (omega arith) ∙ r) a)
    ]

-- Where a call succeeds, one of its first max(1, max_retries) attempts was answered with 200 or 202, and
-- it returns that status. In any case it waits at most once for an attempt, and never longer than
-- thirty seconds.
pub submit_constraints-ok :
    (replies : ℕ → Reply) (max_retries : ℕ)
    → ((status : ℕ)
        → (submit_constraints replies max_retries).0 ≡ ok status
        → (n : ℕ) × (1 ≤ n)
          × (n ≤ max 1 max_retries)
          × (replies n ≡ answered status)
          × (is_accepted status ≡ true))
      × Short (max 1 max_retries) (submit_constraints replies max_retries).1
unfolding submit_constraints
submit_constraints-ok replies max_retries = (
  (λ status h.
      let (n, a, b, r, c) = attempts-ok replies (max 1 max_retries) 0 none status h in
      (n, omega arith, omega arith, r, c)),
  attempts-Short replies (max 1 max_retries) 0 none,
)

pub reaches :
    (replies : ℕ → Reply) (max_retries n status : ℕ)
    → n < max 1 max_retries
    → ((k : ℕ) → k < n → is_retried (judge (suc k) (replies (suc k))) ≡ true)
    → replies (suc n) ≡ answered status
    → is_accepted status ≡ true
    → (submit_constraints replies max_retries).0 ≡ ok status
unfolding submit_constraints
reaches replies max_retries n status l again r a =
    attempts-reaches replies n (max 1 max_retries) 0 none status l (λ k c d. again k (omega arith))
      (ap (λ m. replies (suc m)) (omega arith) ∙ r) a

-- What may pass: no answer, or a status that is neither a success of the relay nor an error of the client, but
-- for a rate limit (429) and a time-out of the request (408).
abbrev pub is_transient : Reply → Bool
is_transient failed = true
is_transient (answered status) =
    not (status == 200 || status == 202)
    && (status == 429 || status == 408 || not (leb 400 status && leb status 499))

judge-transient : (n : ℕ) (r : Reply) → is_transient r ≡ true → is_retried (judge n r) ≡ true
unfolding judge
judge-transient n failed h = refl
judge-transient n (answered s) h = ground (arith, h)

-- Where some attempt within max(1, max_retries) is answered with 200 or 202, and before it there were only
-- failures of the connection, rate limits (429), time-outs of the request (408), and statuses that are neither 200,
-- 202 nor of the 400s, as the server errors, then the call succeeds with that status: none of these ends it
-- early.
pub submit_constraints-reaches :
    (replies : ℕ → Reply) (max_retries n status : ℕ)
    → n < max 1 max_retries
    → ((k : ℕ) → k < n → is_transient (replies (suc k)) ≡ true)
    → replies (suc n) ≡ answered status
    → (status ≡ 200) ⊎ (status ≡ 202)
    → (submit_constraints replies max_retries).0 ≡ ok status
submit_constraints-reaches replies max_retries n status l again r a =
    reaches replies max_retries n status l
      (λ k c. judge-transient (suc k) (replies (suc k)) (again k c)) r (ground (arith, a))
