-- ===== src/Beacon/Fallback.antt =====
-- Theorems on the order of the endpoints in src/api/beacon.rs.
use preconfirmation_gateway.Common.{
  ℕ, suc, ◌≡◌, ◌∙◌, sym, refl, List, [], ◌∷◌, Option, Result, ok, err, Result-cases, inl, inr, ◌⊎◌,
}
use preconfirmation_gateway.Types.{Bytes, Text}
use preconfirmation_gateway.Error.{Error}
use preconfirmation_gateway.Beacon.{
  Network, BeaconApiConfig, make_request, try_fallbacks, request_any,
}

module _ {A : Type 0} (json : Bytes → Option A) (net : Network) (endpoint : Text) where
  -- The first success of the attempts from this one on, over these endpoints, or the last failure.
  abbrev pub IsFirst : ℕ → List Text → Result Error A → Type 0
  IsFirst attempt [] r = ⊥
  IsFirst attempt (url ∷ []) r = r ≡ make_request json (net attempt) url endpoint
  IsFirst attempt (url ∷ next ∷ urls) r =
      ((a : A) × (make_request json (net attempt) url endpoint ≡ ok a) × (r ≡ ok a))
      ⊎ ((e : Error) × (make_request json (net attempt) url endpoint ≡ err e)
          × IsFirst (suc attempt) (next ∷ urls) r)

  attempts-IsFirst :
      (attempt : ℕ) (url : Text) (urls : List Text) (r : Result Error A)
      → elim (make_request json (net attempt) url endpoint) as (λ _. Result Error A) [
        | ok a ↦ ok a
        | err e ↦ try_fallbacks json net (suc attempt) e urls endpoint
      ]
        ≡ r
      → IsFirst attempt (url ∷ urls) r
  unfolding try_fallbacks
  attempts-IsFirst attempt url [] r h =
      elim (Result-cases (make_request json (net attempt) url endpoint)) [
        | inl (a, p) ↦ sym (rw p at h) ∙ sym p
        | inr (e, p) ↦ sym (rw p at h) ∙ sym p
      ]
  attempts-IsFirst attempt url (next ∷ urls) r h =
      elim (Result-cases (make_request json (net attempt) url endpoint)) [
        | inl (a, p) ↦ inl (a, p, sym (rw p at h))
        | inr (e, p) ↦ inr (e, p, attempts-IsFirst (suc attempt) next urls r (rw p at h))
      ]

  -- A call of the beacon API returns the answer of the first endpoint, from the primary on, that gives
  -- one, with every endpoint before it having failed; and only where all fail, the last error.
  pub request_any-IsFirst :
      (config : BeaconApiConfig)
      → IsFirst 0
          (config.primary_endpoint ∷ config.fallback_endpoints)
          (request_any json net config endpoint)
  unfolding request_any
  request_any-IsFirst config =
      attempts-IsFirst 0 config.primary_endpoint config.fallback_endpoints _ refl
