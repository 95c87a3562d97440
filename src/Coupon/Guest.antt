-- ===== src/Coupon/Guest.antt =====
-- The coupons of guests: src/modules/coupons/services/guest-coupon.service.ts. The phone number is given
-- as it is once normalised.
use lit_server_nest.Prelude.{
  ℕ, Bool, true, not, ◌&&◌, Option, none, some, String, ◌==◌, nat_eq, ltb, is_text, is_some, get_or,
  forbidden, coupon_not_found, invalid_state, record_to_update_not_found,
}
use lit_server_nest.Tx.{truthy, On}
use lit_server_nest.Tx.Live.{Live, ◌>>=◌, ◌>>◌, pure, throw_if, lift, require, commit}
use lit_server_nest.Tx.Tables.{find_row, update_rows}
use lit_server_nest.Wallet.{Coupon, Wallet, WalletClient, coupon_rows, reservation_rows}
use lit_server_nest.Pin.{verify_pin_for_store}
use lit_server_nest.Coupon.{
  is_active, expire, spend, assert_redeemable_store_benefit_coupon, refuse_expired,
  expire_coupon_if_needed,
}

-- `...(id ? { id } : {})`
abbrev pub if_given : Option String → String → Bool
if_given none a = true
if_given (some b) a = a == b

module _ (client : WalletClient) where
  unfoldable pub find_guest_coupon : String → String → Live Wallet Coupon
  find_guest_coupon coupon_id phone_number = do
    found ← commit (find_row (coupon_rows client) (λ c. c.id == coupon_id))
    coupon ← require found coupon_not_found
    throw_if (not (is_text coupon.phone_snapshot phone_number)) forbidden
    pure coupon

  unfoldable pub assert_guest_access : String → String → Option String → Live Wallet (Unit {0})
  assert_guest_access phone_number token reservation_id = do
    reservation ← commit (
        find_row (reservation_rows client) (λ r.
          r.customer_phone == phone_number
          && is_text r.qr_code token
          && if_given (truthy reservation_id) r.id))
    throw_if (not (is_some reservation)) forbidden

  unfoldable pub expire_guest_coupons : ℕ → String → On Wallet ℕ
  unfolding expire
  expire_guest_coupons now phone_number =
      update_rows (coupon_rows client)
        (λ c. is_text c.phone_snapshot phone_number && is_active c.status && ltb c.expires_at now)
        (expire now)

  unfoldable pub get_guest_coupon : ℕ → String → String → String → Live Wallet Coupon
  unfolding find_guest_coupon assert_guest_access expire_coupon_if_needed
  get_guest_coupon now coupon_id phone_number token = do
    coupon ← find_guest_coupon coupon_id phone_number
    assert_guest_access phone_number token coupon.reservation_id
    expire_coupon_if_needed client now coupon

  unfoldable pub use_guest_coupon : ℕ → String → String → On Wallet ℕ
  unfolding spend
  use_guest_coupon now phone_number coupon_id =
      update_rows (coupon_rows client)
        (λ c. c.id == coupon_id && is_text c.phone_snapshot phone_number && is_active c.status)
        (spend now)

  unfoldable pub redeem_guest_coupon :
      (String → String → Bool) → ℕ → String → String → String → String → Live Wallet Coupon
  unfolding find_guest_coupon assert_guest_access assert_redeemable_store_benefit_coupon
      refuse_expired use_guest_coupon
  redeem_guest_coupon compare now coupon_id phone_number token store_pin = do
    coupon ← find_guest_coupon coupon_id phone_number
    assert_guest_access phone_number token coupon.reservation_id
    lift (assert_redeemable_store_benefit_coupon coupon)
    refuse_expired client now coupon
    verify_pin_for_store client compare now (get_or coupon.store_id "") store_pin
    count ← commit (use_guest_coupon now phone_number coupon.id)
    throw_if (not (nat_eq count 1)) invalid_state
    updated ← commit (find_row (coupon_rows client) (λ c. c.id == coupon.id))
    require updated record_to_update_not_found
