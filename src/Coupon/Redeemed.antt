-- ===== src/Coupon/Redeemed.antt =====
-- What a redeeming has found and done when it answers
-- (src/modules/coupons/services/customer-coupon.service.ts).
use lit_server_nest.Prelude.{
  ℕ, ◌≡◌, ◌<◌, refl, subst, ◌∙◌, Bool, true, false, ◌&&◌, List, String, ◌==◌, eq_iff, nat_eq, leb,
  is_some, some, get_or, Memᴰ, count, patch, arith, ok, coupon_expired, Bool-cases, inl, inr,
}
use lit_server_nest.Tx.{truthy}
use lit_server_nest.Tx.Live.Answers.{
  Answers, answers_pure, answers_throw, answers_bind, answers_run, answers_throw_if, answers_lift,
  answers_commit, answers_find_or_throw, answers_last_find,
}
use lit_server_nest.Wallet.{
  Coupon, used, CouponType, payment_discount, store_benefit, Wallet, WalletClient, coupon_rows,
}
use lit_server_nest.Pin.{verify_pin_for_store}
use lit_server_nest.Coupon.{
  is_active, same_type, spend, find_customer_coupon, assert_redeemable_store_benefit_coupon,
  refuse_expired, use_customer_coupon, redeem_store_benefit_coupon,
}

-- The coupon may be redeemed by the customer at the time.
pub record Redeemable (now : ℕ) (customer_id coupon_id : String) (rows : List Coupon) (c : Coupon)
    : Type 0 where
  pub stored : Memᴰ c rows
  pub id : c.id ≡ coupon_id
  pub owner : c.customer_id ≡ customer_id
  pub type : c.type ≡ store_benefit
  pub of_store : is_some (truthy c.store_id) ≡ true
  pub on : is_active c.status ≡ true
  pub unexpired : now < c.expires_at

-- The rows that the redeeming may change.
abbrev pub is_own : String → String → Coupon → Bool
is_own customer_id coupon_id c =
    c.id == coupon_id && c.customer_id == customer_id && is_active c.status

is_store_benefit : (t : CouponType) → same_type t payment_discount ≡ false → t ≡ store_benefit
is_store_benefit payment_discount e = cc
is_store_benefit store_benefit e = refl

assert_redeemable-ok :
    (c : Coupon) (u : Unit {0})
    → assert_redeemable_store_benefit_coupon c ≡ ok u
    → (c.type ≡ store_benefit) × (is_some (truthy c.store_id) ≡ true) × (is_active c.status ≡ true)
unfolding assert_redeemable_store_benefit_coupon
assert_redeemable-ok c u e = (is_store_benefit c.type (ground arith), ground arith, ground arith)

-- The PIN has passed, and then exactly the coupon was marked as used.
pub record Redeemed (client : WalletClient) (compare : String → String → Bool) (now : ℕ)
    (customer_id coupon_id store_pin : String) (w : Wallet) (answer : Coupon) (out : Wallet)
    : Type 0 where
  pub coupon : Coupon
  pub redeemable : Redeemable now customer_id coupon_id w.coupons coupon
  pub mid : Wallet
  pub pin :
      verify_pin_for_store client compare now (get_or coupon.store_id "") store_pin w ≡ (ok tt, mid)
  pub marked : nat_eq (count (is_own customer_id coupon_id) mid.coupons) 0 ≡ false
  pub answered : Memᴰ answer out.coupons × (answer.id ≡ coupon_id)
  pub result : out ≡ record mid {
    coupons =
        patch
          (λ c. c.id == coupon_id && c.customer_id == customer_id && is_active c.status)
          (λ c. record c { status = used; used_at = some now; updated_at = now })
          mid.coupons;
  }

module _ (client : WalletClient) where
  find_customer_coupon-Answers :
      (customer_id coupon_id : String) (w : Wallet)
      → Answers (find_customer_coupon client customer_id coupon_id) w (λ c out.
        (out ≡ w) × Memᴰ c w.coupons × (c.id ≡ coupon_id) × (c.customer_id ≡ customer_id))
  unfolding find_customer_coupon
  find_customer_coupon-Answers customer_id coupon_id w =
      answers_find_or_throw (coupon_rows client) _ _ _ λ c c_in c_id. answers_throw_if _ _ _ λ own.
        answers_pure c (
          refl,
          c_in,
          (eq_iff c.id coupon_id).0 c_id,
          (eq_iff c.customer_id customer_id).0 (ground arith),
        )

  refuse_expired-Answers :
      (now : ℕ) (c : Coupon) (w : Wallet)
      → Answers (refuse_expired client now c) w (λ _ out. (out ≡ w) × (now < c.expires_at))
  unfolding refuse_expired
  refuse_expired-Answers now c w = elim (Bool-cases (leb c.expires_at now)) [
    | inl over ↦ rw over (answers_commit _ _ (λ _ mid e. answers_throw coupon_expired))
    | inr alive ↦ rw alive (answers_pure tt (refl, ground arith))
  ]

  summary :
      (compare : String → String → Bool) (now : ℕ) (customer_id coupon_id store_pin : String)
      (w w1 w2 mid w3 : Wallet) (c r : Coupon) (u : Unit {0}) (n : ℕ)
      → (w1 ≡ w) × Memᴰ c w.coupons × (c.id ≡ coupon_id) × (c.customer_id ≡ customer_id)
      → assert_redeemable_store_benefit_coupon c ≡ ok u
      → (w2 ≡ w1) × (now < c.expires_at)
      → verify_pin_for_store client compare now (get_or c.store_id "") store_pin w2 ≡ (ok tt, mid)
      → use_customer_coupon client now customer_id c.id mid ≡ ok (n, w3)
      → nat_eq n 0 ≡ false
      → Memᴰ r w3.coupons
      → r.id ≡ c.id
      → Redeemed client compare now customer_id coupon_id store_pin w r w3
  unfolding use_customer_coupon spend
  summary compare now customer_id coupon_id store_pin w w1 w2 mid w3 c r u n (e1, c_in, c_id, c_own)
        fit (e2, alive) verified spent some_row r_in r_id =
      let (type, of_store, on) = assert_redeemable-ok c u fit in
      let marks = rw (client.coupons.update_many_lem, c_id) at spent in
      let counted : count (is_own customer_id coupon_id) mid.coupons ≡ n = cc in
      let left : w3
          ≡ record mid { coupons = patch (is_own customer_id coupon_id) (spend now) mid.coupons } =
        cc in
      record {
        coupon = c;
        redeemable = record {
          stored = c_in;
          id = c_id;
          owner = c_own;
          type = type;
          of_store = of_store;
          on = on;
          unexpired = alive;
        };
        mid = mid;
        pin =
            subst
              (λ (v : Wallet).
                verify_pin_for_store client compare now (get_or c.store_id "") store_pin v
                ≡ (ok tt, mid))
              (e2 ∙ e1) verified;
        marked = rw counted some_row;
        result = left;
        answered = (r_in, r_id ∙ c_id);
      }

  -- A redeeming that answers has found a coupon of the customer with that id: a benefit of a
  -- store, active and not expired. The PIN of that store was verified, and then exactly the active
  -- coupons with that id and owner were given the status of a used one, the current time as the
  -- time of their use and of their last change; nothing else of any coupon changes.
  pub redeem_store_benefit_coupon-Redeemed :
      (compare : String → String → Bool) (now : ℕ) (customer_id coupon_id store_pin : String)
      (w : Wallet)
      → Answers
          (redeem_store_benefit_coupon client compare now customer_id coupon_id store_pin)
          w
          (Redeemed client compare now customer_id coupon_id store_pin w)
  unfolding redeem_store_benefit_coupon use_customer_coupon
  redeem_store_benefit_coupon-Redeemed compare now customer_id coupon_id store_pin w =
      answers_bind _ _ _ (find_customer_coupon-Answers customer_id coupon_id w) λ c w1 found.
        answers_lift _ _ λ u fit. answers_bind _ _ _ (refuse_expired-Answers now c w1) λ _ w2 alive.
          answers_run _ _ λ _ mid verified. answers_commit _ _ λ n w3 spent.
            answers_throw_if _ _ _ λ some_row.
              answers_last_find (coupon_rows client) _ _ λ r r_in r_id.
                summary compare now customer_id coupon_id store_pin w w1 w2 mid w3 c r u n found fit
                  alive verified spent some_row r_in ((eq_iff r.id c.id).0 r_id)
