-- ===== src/Coupon/Once.antt =====
-- A coupon (src/modules/coupons/services/customer-coupon.service.ts) through every interleaving of the
-- statements that write coupons.
use lit_server_nest.Prelude.{
  ℕ, ◌≡◌, ◌≢◌, refl, sym, ap, subst, ◌∙◌, Bool, true, false, List, String, ◌==◌, eq_iff, ok, Result,
  get_or, arith, patch, count-none, mem-patch, patch-mem, key-step_row, step_row, step_row-hit,
  IsKey, Carried-IsOff, IsOff, Bool-cases, inl, inr,
}
use lit_server_nest.Tx.Tables.{update_rows-eq-ok}
use lit_server_nest.Wallet.{Coupon, Wallet, WalletClient, coupon_rows}
use lit_server_nest.Coupon.{is_active, spend, use_customer_coupon, redeem_store_benefit_coupon}
use lit_server_nest.Coupon.Redeemed.{
  is_own, Redeemed, Redeemable, redeem_store_benefit_coupon-Redeemed,
}
use lit_server_nest.Coupon.Steps.{
  Steps, here, next, Step-CouponsCarried, verify_pin_for_store-Keeps,
}

-- There is a coupon with the id, and none with it is active.
abbrev pub IsGone : String → List Coupon → Type 0
IsGone = IsOff (λ (c : Coupon). c.id) (λ c. c.id) (λ c. is_active c.status)

not_own :
    (c : Coupon) (customer_id coupon_id : String)
    → (c.id ≡ coupon_id → is_active c.status ≡ false)
    → is_own customer_id coupon_id c ≡ false
not_own c customer_id coupon_id off = elim (Bool-cases (c.id == coupon_id)) [
  | inl same ↦ rw (same, off ((eq_iff c.id coupon_id).0 same)) (ground arith)
  | inr other ↦ rw other refl
]

-- Once the redeemable coupon of a customer is spent, no row with its id is active.
spent-IsGone :
    {now : ℕ} (later : ℕ) (customer_id coupon_id : String) (rows : List Coupon) (c : Coupon)
    → IsKey (λ (x : Coupon). x.id) rows
    → Redeemable now customer_id coupon_id rows c
    → IsGone coupon_id (patch (is_own customer_id coupon_id) (spend later) rows)
unfolding spend
spent-IsGone later customer_id coupon_id rows c key fit =
    let p = is_own customer_id coupon_id in
    let own : p c ≡ true =
      rw ((eq_iff c.id coupon_id).1 fit.id, (eq_iff c.customer_id customer_id).1 fit.owner, fit.on)
        refl in
    (
      (
        step_row p (spend later) c,
        patch-mem p (spend later) rows fit.stored,
        key-step_row (λ (x : Coupon). x.id) p (spend later) c (λ x. refl) ∙ fit.id,
      ),
      λ d d_in d_id.
          let (x, x_in, step) = mem-patch p (spend later) rows d_in in
          let x_id : x.id ≡ coupon_id =
            sym (key-step_row (λ (y : Coupon). y.id) p (spend later) x (λ y. refl))
            ∙ (ap (λ (y : Coupon). y.id) (sym step) ∙ d_id) in
          let x_own : p x ≡ true = ap p (key x c x_in fit.stored (x_id ∙ sym fit.id)) ∙ own in
          ap (λ (y : Coupon). is_active y.status) (step ∙ step_row-hit p (spend later) x x_own),
    )

module _ (client : WalletClient) where
  Steps-IsGone :
      (id : String) (w u : Wallet) → Steps client w u → IsGone id w.coupons → IsGone id u.coupons
  Steps-IsGone id w u (here _) gone = gone
  Steps-IsGone id w u (next _ v _ step more) gone = Steps-IsGone id v u more (
      Carried-IsOff _ _ (λ (c : Coupon). is_active c.status) id _ _
        (Step-CouponsCarried client w v step) gone)

  -- No redeeming answers for a coupon that is gone.
  gone-refused :
      (compare : String → String → Bool) (now : ℕ) (customer_id coupon_id store_pin : String)
      (w out : Wallet) (answer : Coupon)
      → IsGone coupon_id w.coupons
      → redeem_store_benefit_coupon client compare now customer_id coupon_id store_pin w
        ≢ (ok answer, out)
  gone-refused compare now customer_id coupon_id store_pin w out answer gone h =
      let done =
        (redeem_store_benefit_coupon-Redeemed client compare now customer_id coupon_id store_pin
            w).holds
          answer out h in
      let off = gone.1 done.coupon done.redeemable.stored done.redeemable.id in
      let z : true ≡ false = sym done.redeemable.on ∙ off in cc

  gone-unchanged :
      (now : ℕ) (customer_id coupon_id : String) (w out : Wallet) (n : ℕ)
      → IsGone coupon_id w.coupons
      → use_customer_coupon client now customer_id coupon_id w ≡ ok (n, out)
      → n ≡ 0
  unfolding use_customer_coupon
  gone-unchanged now customer_id coupon_id w out n gone h =
      (update_rows-eq-ok (coupon_rows client) (is_own customer_id coupon_id) (spend now) w out n
        h).0
      ∙ count-none _ _ (λ c c_in. not_own c customer_id coupon_id (λ e. gone.1 c c_in e))

  Redeemed-IsGone :
      (compare : String → String → Bool) (now : ℕ) (customer_id coupon_id store_pin : String)
      (w out : Wallet) (answer : Coupon)
      → IsKey (λ (c : Coupon). c.id) w.coupons
      → Redeemed client compare now customer_id coupon_id store_pin w answer out
      → IsGone coupon_id out.coupons
  unfolding spend
  Redeemed-IsGone compare now customer_id coupon_id store_pin w out answer key done =
      let mid = done.mid in
      let kept =
        (verify_pin_for_store-Keeps client compare now (get_or done.coupon.store_id "")
            store_pin).holds
          w in
      let same : mid.coupons ≡ w.coupons =
        subst (λ (r : Result (Unit {0}) × Wallet). (r.1).coupons ≡ w.coupons) done.pin kept in
      subst (λ (d : Wallet). IsGone coupon_id d.coupons) (sym done.result)
        (rw same (spent-IsGone now customer_id coupon_id w.coupons done.coupon key done.redeemable))

  -- After a redeeming that answered, and whatever statements on coupons follow, no redeeming of the same
  -- coupon answers, by whatever customer; and the last statement of a redeeming whose reads came before
  -- changes no row.
  pub redeemed-once :
      (compare : String → String → Bool) (now : ℕ) (customer_id coupon_id store_pin : String)
      (w out u : Wallet) (answer : Coupon)
      → IsKey (λ (c : Coupon). c.id) w.coupons
      → redeem_store_benefit_coupon client compare now customer_id coupon_id store_pin w
        ≡ (ok answer, out)
      → Steps client out u
      → ((later : ℕ) (other pin : String) (end : Wallet) (again : Coupon)
          → redeem_store_benefit_coupon client compare later other coupon_id pin u
            ≢ (ok again, end))
        × ((later : ℕ) (other : String) (n : ℕ) (end : Wallet)
            → use_customer_coupon client later other coupon_id u ≡ ok (n, end)
            → n ≡ 0)
  redeemed-once compare now customer_id coupon_id store_pin w out u answer key h steps =
      let done =
        (redeem_store_benefit_coupon-Redeemed client compare now customer_id coupon_id store_pin
            w).holds
          answer out h in
      let gone =
        Steps-IsGone coupon_id out u steps
          (Redeemed-IsGone compare now customer_id coupon_id store_pin w out answer key done) in
      (
        (λ later other pin end again.
            gone-refused compare later other coupon_id pin u end again gone),
        (λ later other n end e. gone-unchanged later other coupon_id u end n gone e),
      )
