-- ===== src/Base/Results.antt =====
-- Errors of the calls and of the services, by the names of `glenda::error::Error`, and fallible
-- results. `Success` is what a handler returns when no reply is to be sent.
use mathlib.Core.Path.{◌≡◌, refl}
use mathlib.Core.Logic.{◌⊎◌, inl, inr}

pub data Error : Type 0 where
  success not_found permission_denied invalid_args invalid_address invalid_slot : Error
  out_of_memory io_error not_supported invalid_type would_block message_too_long : Error

pub data Result {ℓ} (A : Type ℓ) : Type ℓ where
  ok : A → Result A
  err : Error → Result A

pub Result-cases {ℓ} :
    {A : Type ℓ} → (r : Result A) → ((a : A) × (r ≡ ok a)) ⊎ ((e : Error) × (r ≡ err e))
Result-cases (ok a) = inl (a, refl)
Result-cases (err e) = inr (e, refl)
