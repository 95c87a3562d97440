-- ===== src/Prelude/Errors.antt =====
-- The exceptions that the services throw, by their `code`, and results.

use mathlib.Core.Path.{◌≡◌, refl}

pub data Error : Type 0 where
  validation_error reservation_not_found store_not_found invalid_status : Error
  invalid_reservation_time invalid_transition too_early_for_no_show : Error
  capacity_exceeded forbidden not_cancellable too_late_to_cancel token_required : Error
  payment_info_incomplete payment_not_verified payment_already_used : Error
  photo_upload_window_expired owner_only : Error
  storage_not_found storage_in_use storage_status_managed duplicate_storage_number : Error
  record_to_update_not_found : Error
  token_invalid invalid_token invalid_refresh_token : Error
  staff_limit_exceeded staff_not_found invite_code_invalid : Error
  authentication_required staff_revoked : Error
  store_pin_not_set pin_locked pin_mismatch : Error
  policy_not_found coupon_already_claimed coupon_not_found coupon_expired invalid_state : Error
  payment_coupon_use_not_supported invalid_coupon_type store_required : Error

pub data Result {ℓ} (A : Type ℓ) : Type ℓ where
  ok : A → Result A
  err : Error → Result A

-- What follows a call that may throw.
abbrev pub and_then {ℓ κ} : {A : Type ℓ} {B : Type κ} → Result A → (A → Result B) → Result B
and_then (ok a) f = f a
and_then (err e) f = err e

pub and_then-ok {ℓ κ} :
    {A : Type ℓ} {B : Type κ} (r : Result A) (f : A → Result B) (b : B)
    → and_then r f ≡ ok b
    → (a : A) × (r ≡ ok a) × (f a ≡ ok b)
and_then-ok (ok a) f b e = (a, refl, e)
and_then-ok (err x) f b e = cc
