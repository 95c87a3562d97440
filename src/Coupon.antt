-- ===== src/Coupon.antt =====
-- The coupons of a customer: src/modules/coupons/services/customer-coupon.service.ts. A day is 24 hours.
pub mod Guest
pub mod Issue
pub mod Redeemed
pub mod Steps
pub mod Once
use lit_server_nest.Prelude.{
  ℕ, ◌+◌, ◌*◌, Bool, true, false, not, ◌&&◌, ◌||◌, Option, none, some, String, ◌==◌, nat_eq, ltb,
  leb, is_text, is_some, get_or, forbidden, policy_not_found, coupon_already_claimed,
  coupon_not_found, coupon_expired, invalid_state, payment_coupon_use_not_supported,
  invalid_coupon_type, store_required, record_to_update_not_found, Result, ok, err, if◌then◌else◌,
}
use lit_server_nest.Tx.{truthy, On}
use lit_server_nest.Tx.Live.{Live, ◌>>=◌, ◌>>◌, pure, throw, throw_if, lift, require, commit}
use lit_server_nest.Tx.Tables.{find_row, find_rows, count_rows, update_row, update_rows, create_row}
use lit_server_nest.Wallet.{
  PinStore, CouponStatus, active, used, expired, CouponType, payment_discount, store_benefit,
  Trigger, manual_claim, signup, checkin_completed, Coupon, CouponPolicy, Wallet, WalletClient,
  coupon_rows, policy_rows,
}
use lit_server_nest.Pin.{verify_pin_for_store}

abbrev pub is_active : CouponStatus → Bool
is_active active = true
is_active used = false
is_active expired = false

abbrev pub is_used : CouponStatus → Bool
is_used used = true
is_used active = false
is_used expired = false

abbrev pub is_expired : CouponStatus → Bool
is_expired expired = true
is_expired active = false
is_expired used = false

abbrev pub same_type : CouponType → CouponType → Bool
same_type payment_discount payment_discount = true
same_type store_benefit store_benefit = true
same_type payment_discount store_benefit = false
same_type store_benefit payment_discount = false

abbrev pub same_trigger : Trigger → Trigger → Bool
same_trigger manual_claim manual_claim = true
same_trigger signup signup = true
same_trigger checkin_completed checkin_completed = true
same_trigger _ _ = false

-- A nullable column compared with a nullable value, where NULL is a value to look for.
abbrev pub same_text : Option String → Option String → Bool
same_text none none = true
same_text none (some b) = false
same_text (some a) none = false
same_text (some a) (some b) = a == b

unfoldable pub add_days : ℕ → ℕ → ℕ
add_days now days = now + days * 86400000

unfoldable pub get_default_title : CouponType → String
get_default_title payment_discount = "할인 쿠폰"
get_default_title store_benefit = "매장 혜택 쿠폰"

-- `text || other`
abbrev pub or_text : String → String → String
or_text a b = if a == "" then b else a

-- `days || 7`
abbrev pub or_week : ℕ → ℕ
or_week days = if nat_eq days 0 then 7 else days

unfoldable pub expire : ℕ → Coupon → Coupon
expire now c = record c { status = expired; updated_at = now }

unfoldable pub spend : ℕ → Coupon → Coupon
spend now c = record c { status = used; used_at = some now; updated_at = now }

unfoldable pub assert_redeemable_store_benefit_coupon : Coupon → Result (Unit {0})
assert_redeemable_store_benefit_coupon coupon =
    if same_type coupon.type payment_discount
    then err payment_coupon_use_not_supported
    else if not (same_type coupon.type store_benefit)
    then err invalid_coupon_type
    else if not (is_some (truthy coupon.store_id))
    then err store_required
    else if not (is_active coupon.status)
    then err invalid_state
    else ok tt

module _ (client : WalletClient) where
  unfoldable pub claim_coupon : ℕ → String → String → String → Live Wallet Coupon
  unfolding add_days get_default_title
  claim_coupon now coupon_id customer_id policy_id = do
    found ← commit (
        find_row (policy_rows client)
          (λ p. p.id == policy_id && p.enabled && same_trigger p.auto_issue_on manual_claim))
    policy ← require found policy_not_found
    duplicate ← commit (
        find_row (coupon_rows client) (λ c.
          c.customer_id == customer_id
          && same_text c.store_id policy.store_id
          && same_type c.type policy.type
          && c.title == policy.name))
    throw_if (is_some duplicate) coupon_already_claimed
    let coupon : Coupon = record {
      id = coupon_id;
      customer_id = customer_id;
      store_id = policy.store_id;
      type = policy.type;
      title = or_text policy.name (get_default_title policy.type);
      status = active;
      expires_at = add_days now (or_week policy.validity_days);
      used_at = none;
      reservation_id = none;
      phone_snapshot = none;
      updated_at = now;
    }
    commit (create_row (coupon_rows client) coupon)
    pure coupon

  unfoldable pub find_customer_coupon : String → String → Live Wallet Coupon
  find_customer_coupon customer_id coupon_id = do
    found ← commit (find_row (coupon_rows client) (λ c. c.id == coupon_id))
    coupon ← require found coupon_not_found
    throw_if (not (coupon.customer_id == customer_id)) forbidden
    pure coupon

  unfoldable pub expire_customer_coupons : ℕ → String → On Wallet ℕ
  unfolding expire
  expire_customer_coupons now customer_id =
      update_rows (coupon_rows client)
        (λ c. c.customer_id == customer_id && is_active c.status && ltb c.expires_at now)
        (expire now)

  unfoldable pub mark_expired : ℕ → String → On Wallet (Unit {0})
  unfolding expire
  mark_expired now coupon_id = update_row (coupon_rows client) (λ c. c.id == coupon_id) (expire now)

  -- The answer is the row as the update leaves it.
  unfoldable pub expire_coupon_if_needed : ℕ → Coupon → Live Wallet Coupon
  unfolding mark_expired expire
  expire_coupon_if_needed now coupon =
      if is_active coupon.status && leb coupon.expires_at now
      then (commit (mark_expired now coupon.id) >> pure (expire now coupon))
      else pure coupon

  unfoldable pub get_coupon : ℕ → String → String → Live Wallet Coupon
  unfolding find_customer_coupon expire_coupon_if_needed
  get_coupon now customer_id coupon_id = do
    coupon ← find_customer_coupon customer_id coupon_id
    expire_coupon_if_needed now coupon

  -- The numbers of active, used and expired coupons; `groupBy` counts the rows of each status.
  unfoldable pub get_stats : ℕ → String → Live Wallet (ℕ × ℕ × ℕ)
  unfolding expire_customer_coupons
  get_stats now customer_id = do
    commit (expire_customer_coupons now customer_id)
    active_count ←
        commit (
          count_rows (coupon_rows client) (λ c. c.customer_id == customer_id && is_active c.status))
    used_count ←
        commit
          (count_rows (coupon_rows client) (λ c. c.customer_id == customer_id && is_used c.status))
    expired_count ←
        commit (
          count_rows (coupon_rows client)
            (λ c. c.customer_id == customer_id && is_expired c.status))
    pure (active_count, used_count, expired_count)

  -- `if (coupon.expires_at <= new Date())` of the redeeming: the mark stays although it throws.
  unfoldable pub refuse_expired : ℕ → Coupon → Live Wallet (Unit {0})
  unfolding mark_expired
  refuse_expired now coupon =
      if leb coupon.expires_at now
      then (commit (mark_expired now coupon.id) >> throw {A = Unit {0}} coupon_expired)
      else pure tt

  -- The last statement of the redeeming
  unfoldable pub use_customer_coupon : ℕ → String → String → On Wallet ℕ
  unfolding spend
  use_customer_coupon now customer_id coupon_id =
      update_rows (coupon_rows client)
        (λ c. c.id == coupon_id && c.customer_id == customer_id && is_active c.status) (spend now)

  unfoldable pub redeem_store_benefit_coupon :
      (String → String → Bool) → ℕ → String → String → String → Live Wallet Coupon
  unfolding find_customer_coupon assert_redeemable_store_benefit_coupon refuse_expired
      use_customer_coupon
  redeem_store_benefit_coupon compare now customer_id coupon_id store_pin = do
    coupon ← find_customer_coupon customer_id coupon_id
    lift (assert_redeemable_store_benefit_coupon coupon)
    refuse_expired now coupon
    verify_pin_for_store client compare now (get_or coupon.store_id "") store_pin
    count ← commit (use_customer_coupon now customer_id coupon.id)
    throw_if (nat_eq count 0) invalid_state
    updated ← commit (find_row (coupon_rows client) (λ c. c.id == coupon.id))
    require updated record_to_update_not_found
