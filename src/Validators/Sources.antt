-- ===== src/Validators/Sources.antt =====
-- Theorems on `get_status` of src/services/validator_status_cache.rs.
use preconfirmation_gateway.Common.{
  ℕ, ◌≡◌, ◌∙◌, inl, inr, ap, sym, subst, some, Option-cases, Result-cases, ok, ok-injective,
}
use preconfirmation_gateway.Types.{Bytes, ValidatorInfo}
use preconfirmation_gateway.Validators.{Moka, IsMoka, Source, fetch_status, get_status}

module _ {Cache : Type 0} (moka : Moka Cache) (laws : IsMoka Cache moka)
    (Answered : Bytes → ValidatorInfo → Type 0) where
  -- What the cache holds has been answered.
  abbrev pub IsSound : Cache → Type 0
  IsSound cache =
      (now : ℕ) (key : Bytes) (info : ValidatorInfo)
      → moka.get now key cache ≡ some info
      → Answered key info

  insert-IsSound :
      (now : ℕ) (key : Bytes) (info : ValidatorInfo) (cache : Cache)
      → Answered key info
      → IsSound cache
      → IsSound (moka.insert now key info cache)
  insert-IsSound now key info cache a sound later other found h =
      elim (laws.get-insert now later key other info found cache h) [
        | inl (same, same') ↦
            subst (λ k. Answered k found) (sym same) (subst (Answered key) (sym same') a)
        | inr (moment, p) ↦ sound moment other found p
      ]

  -- A status that `get_status` returns has been an answer of the beacon client for that very validator, in
  -- this call or before, and the cache goes on to hold only such.
  pub get_status-Answered :
      (source : Source) (n now : ℕ) (key : Bytes) (cache : Cache)
      → ((m : ℕ) (k : Bytes) (info : ValidatorInfo) → source m k ≡ ok info → Answered k info)
      → IsSound cache
      → IsSound (get_status moka source n now key cache).1
        × ((info : ValidatorInfo)
            → (get_status moka source n now key cache).0 ≡ ok info
            → Answered key info)
  unfolding get_status fetch_status
  get_status-Answered source n now key cache honest sound =
      elim (Option-cases (moka.get now key cache)) [
        | inr (info, p) ↦
            rw (get_status, p)
              (sound, λ found h. sound now key found (p ∙ ap some (ok-injective h)))
        | inl p ↦ elim (Result-cases (source n key)) [
          | inr (e, q) ↦ rw (get_status, p, fetch_status, q) (sound, λ found h. absurd cc)
          | inl (info, q) ↦
              rw (get_status, p, fetch_status, q)
                (
                  insert-IsSound now key info cache (honest n key info q) sound,
                  λ found h. honest n key found (q ∙ ap ok (ok-injective h)),
                )
        ]
      ]
