-- ===== src/Tests/Wallets.antt =====
-- A store with a PIN and a customer's coupon, and the theorems on PINs and coupons at them.
use lit_server_nest.Prelude.{
  true, inl, ap, ℕ, ◌≡◌, ◌≢◌, refl, sym, ◌∙◌, Bool, none, some, List, [], ◌∷◌, String, ◌==◌, Memᴰ,
  mem-singleton, ok, err, pin_locked, arith,
}
use lit_server_nest.Prisma.Listed.{listed}
use lit_server_nest.Tx.Live.{◌>>=◌, commit}
use lit_server_nest.Tx.Live.Answers.{Answers}
use lit_server_nest.Tx.Tables.{update_row}
use lit_server_nest.Wallet.{
  PinStore, Coupon, CouponPolicy, signup, Wallet, WalletClient, active, store_benefit,
}
use lit_server_nest.Pin.{verify_pin_for_store, settle, after_match}
use lit_server_nest.Pin.Lock.{HasPin, guessed, guessed-locked}
use lit_server_nest.Coupon.{
  redeem_store_benefit_coupon, find_customer_coupon, assert_redeemable_store_benefit_coupon,
  refuse_expired, use_customer_coupon, spend,
}
use lit_server_nest.Coupon.Redeemed.{Redeemed, redeem_store_benefit_coupon-Redeemed}
use lit_server_nest.Coupon.Steps.{here}
use lit_server_nest.Coupon.Issue.{IssueParams, trigger, issue_for_trigger}
use lit_server_nest.Coupon.Issue.Growth.{Concerns, Held}
use lit_server_nest.Coupon.Issue.Repeat.{issue_for_trigger-again}
use lit_server_nest.Tests.Samples.{different}
use lit_server_nest.Coupon.Once.{redeemed-once}

abbrev wallet_client : WalletClient
wallet_client = record {
  stores = listed;
  coupons = listed;
  coupon_policies = listed;
  reservations = listed;
}

-- The hash of a PIN is the PIN.
abbrev compare : String → String → Bool
compare pin pin_hash = pin == pin_hash

abbrev shop : PinStore
shop = record {
  id = "store";
  store_pin_hash = some "1234";
  store_pin_updated_at = none;
  store_pin_failed_count = 0;
  store_pin_locked_until = none;
  updated_at = 0;
}

abbrev gift : Coupon
gift = record {
  id = "coupon_1";
  customer_id = "customer_1";
  store_id = some "store";
  type = store_benefit;
  title = "coffee";
  status = active;
  expires_at = 5000;
  used_at = none;
  reservation_id = none;
  phone_snapshot = none;
  updated_at = 0;
}

abbrev wallet : Wallet
wallet = record { stores = shop ∷ []; coupons = gift ∷ []; coupon_policies = []; reservations = [] }

shop-HasPin : HasPin wallet.stores shop "1234"
shop-HasPin = record {
  key = λ x y mx my e. mem-singleton mx ∙ sym (mem-singleton my);
  stored = Memᴰ.head refl;
  hash = refl;
}

abbrev guesses : List (ℕ × String)
guesses = (1, "0000") ∷ (2, "0001") ∷ (3, "0002") ∷ (4, "0003") ∷ []

abbrev after_five : Wallet
after_five =
    (verify_pin_for_store wallet_client compare 5 "store" "0004"
      (guessed wallet_client compare "store" guesses wallet)).1

guessed-locked_example :
    verify_pin_for_store wallet_client compare 600000 "store" "1234" after_five
    ≡ (err pin_locked, after_five)
guessed-locked_example =
    guessed-locked wallet_client compare guesses 5 600000 "0004" "1234" "1234" shop wallet
      shop-HasPin refl (omega arith) (refl, (refl, (refl, (refl, tt)))) refl (omega arith)

redeem_store_benefit_coupon-Redeemed_example :
    Answers
      (redeem_store_benefit_coupon wallet_client compare 4000 "customer_1" "coupon_1" "1234")
      wallet
      (Redeemed wallet_client compare 4000 "customer_1" "coupon_1" "1234" wallet)
redeem_store_benefit_coupon-Redeemed_example =
    redeem_store_benefit_coupon-Redeemed wallet_client compare 4000 "customer_1" "coupon_1" "1234"
      wallet

abbrev spent_wallet : Wallet
spent_wallet = record wallet { stores = after_match 4000 shop ∷ []; coupons = spend 4000 gift ∷ [] }

redeems :
    redeem_store_benefit_coupon wallet_client compare 4000 "customer_1" "coupon_1" "1234" wallet
    ≡ (ok (spend 4000 gift), spent_wallet)
unfolding redeem_store_benefit_coupon find_customer_coupon assert_redeemable_store_benefit_coupon
    refuse_expired use_customer_coupon verify_pin_for_store settle update_row commit ◌>>=◌ spend
    after_match
redeems = refl

redeemed-once_example :
    ((later : ℕ) (other pin : String) (end : Wallet) (again : Coupon)
      → redeem_store_benefit_coupon wallet_client compare later other "coupon_1" pin spent_wallet
        ≢ (ok again, end))
    × ((later : ℕ) (other : String) (n : ℕ) (end : Wallet)
        → use_customer_coupon wallet_client later other "coupon_1" spent_wallet ≡ ok (n, end)
        → n ≡ 0)
redeemed-once_example =
    redeemed-once wallet_client compare 4000 "customer_1" "coupon_1" "1234" wallet spent_wallet
      spent_wallet (spend 4000 gift) (λ x y mx my e. mem-singleton mx ∙ sym (mem-singleton my))
      redeems (here spent_wallet)

abbrev welcome : CouponPolicy
welcome = record {
  id = "policy_1";
  store_id = none;
  name = "welcome";
  type = store_benefit;
  validity_days = 7;
  auto_issue_on = signup;
  enabled = true;
}

abbrev sign_up : IssueParams
sign_up = record {
  customer_id = some "customer_1";
  phone_snapshot = none;
  store_id = none;
  event = trigger signup;
  reservation_id = none;
}

abbrev greeting : Wallet
greeting = record wallet { coupon_policies = welcome ∷ [] }

issue_for_trigger-again_example :
    (ids : List String) × (u : Wallet) × (issue_for_trigger wallet_client 1
        (λ p. "coupon_2")
        sign_up
        greeting
      ≡ (ok ids, u))
    × ((policy : CouponPolicy)
        → Memᴰ policy greeting.coupon_policies
        → Concerns signup sign_up policy
        → Held sign_up "customer_1" policy greeting u)
    × (issue_for_trigger wallet_client 2 (λ p. "coupon_3") sign_up u ≡ (ok [], u))
issue_for_trigger-again_example =
    issue_for_trigger-again wallet_client 1 2 (λ p. "coupon_2") (λ p. "coupon_3") sign_up greeting
      (λ p at e.
        different "welcome" "" refl
          (sym (ap (λ (q : CouponPolicy). q.name) (mem-singleton at)) ∙ e))
      signup "customer_1" refl refl

-- The policy that the example is about.
welcome-Concerns : Concerns signup sign_up welcome
welcome-Concerns = record { event = refl; on = refl; place = inl refl }
