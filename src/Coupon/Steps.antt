-- ===== src/Coupon/Steps.antt =====
-- The statements that write coupons, as steps: src/modules/coupons/services. The handlers' statements
-- interleave, so a step may run on what was read long before.
use lit_server_nest.Prelude.{
  ℕ, ◌≡◌, ◌≢◌, refl, sym, ap, subst, ◌∙◌, Bool, true, false, List, [], ◌∷◌, ◌++◌, String, Memᴰ, ok,
  patch, Carried, Carried-refl, Carried-patch, Carried-append, Bool-cases, inl, inr, leb,
  pin_mismatch, coupon_expired,
}
use lit_server_nest.Tx.{On}
use lit_server_nest.Tx.Live.{Live, ◌>>=◌, commit}
use lit_server_nest.Tx.Live.Moves.{
  Moves, Moves-bind, Moves-pure, Moves-throw, Moves-lift, Moves-throw_if, Moves-require,
  Moves-commit,
}
use lit_server_nest.Tx.Tables.{
  find_row, update_row, update_rows, create_row, update_rows-eq-ok, update_row-eq-ok,
}
use lit_server_nest.Wallet.{PinStore, Coupon, Wallet, WalletClient, coupon_rows, store_rows}
use lit_server_nest.Coupon.{
  is_active, expire, spend, expire_customer_coupons, mark_expired, use_customer_coupon,
  find_customer_coupon, refuse_expired, redeem_store_benefit_coupon,
}
use lit_server_nest.Coupon.Guest.{expire_guest_coupons, use_guest_coupon}
use lit_server_nest.Pin.{verify_pin_for_store, settle}

-- The coupons stay.
abbrev pub Keeps : Wallet → Wallet → Type 0
Keeps w u = u.coupons ≡ w.coupons

Keeps-refl : (w : Wallet) → Keeps w w
Keeps-refl w = refl

Keeps-trans : (w v u : Wallet) → Keeps w v → Keeps v u → Keeps w u
Keeps-trans w v u first more = more ∙ first

module _ {ℓ κ} {A : Type ℓ} {B : Type κ} where
  keep_bind :
      (m : Live Wallet B) (f : B → Live Wallet A)
      → Moves Keeps m
      → ((b : B) → Moves Keeps (f b))
      → Moves Keeps (m >>= f)
  keep_bind = Moves-bind Keeps Keeps-refl Keeps-trans

keep_store :
    (client : WalletClient) (p : PinStore → Bool) (f : PinStore → PinStore)
    → Moves Keeps (commit (update_row (store_rows client) p f))
keep_store client p f =
    Moves-commit Keeps Keeps-refl Keeps-trans _ (λ w a out e.
      ap (λ (d : Wallet). d.coupons) (update_row-eq-ok (store_rows client) p f w out e))

settle-Keeps :
    (client : WalletClient) (compare : String → String → Bool) (now : ℕ) (store_id : String)
    (store : PinStore) (fits : Bool)
    → Moves Keeps (settle client compare now store_id store fits)
unfolding settle
settle-Keeps client compare now store_id store true = keep_store client _ _
settle-Keeps client compare now store_id store false =
    keep_bind _ _ (keep_store client _ _) λ _. Moves-throw Keeps Keeps-refl Keeps-trans pin_mismatch

module _ (client : WalletClient) where
  -- A new coupon has an identifier that the database does not know.
  pub data Step (w : Wallet) : Wallet → Type 0 where
    created :
        (c : Coupon) (out : Wallet)
        → ((x : Coupon) → Memᴰ x w.coupons → x.id ≢ c.id)
        → create_row (coupon_rows client) c w ≡ ok (tt, out)
        → Step w out
    customer_expired :
        (now : ℕ) (customer_id : String) (n : ℕ) (out : Wallet)
        → expire_customer_coupons client now customer_id w ≡ ok (n, out)
        → Step w out
    guest_expired :
        (now : ℕ) (phone_number : String) (n : ℕ) (out : Wallet)
        → expire_guest_coupons client now phone_number w ≡ ok (n, out)
        → Step w out
    marked_expired :
        (now : ℕ) (coupon_id : String) (out : Wallet)
        → mark_expired client now coupon_id w ≡ ok (tt, out)
        → Step w out
    customer_used :
        (now : ℕ) (customer_id coupon_id : String) (n : ℕ) (out : Wallet)
        → use_customer_coupon client now customer_id coupon_id w ≡ ok (n, out)
        → Step w out
    guest_used :
        (now : ℕ) (phone_number coupon_id : String) (n : ℕ) (out : Wallet)
        → use_guest_coupon client now phone_number coupon_id w ≡ ok (n, out)
        → Step w out
    -- A read, or a write of another table
    elsewhere : (out : Wallet) → out.coupons ≡ w.coupons → Step w out

  pub data Steps : Wallet → Wallet → Type 0 where
    here : (w : Wallet) → Steps w w
    next : (w v u : Wallet) → Step w v → Steps v u → Steps w u

  pub Steps-trans : (w v u : Wallet) → Steps w v → Steps v u → Steps w u
  Steps-trans w v u (here _) more = more
  Steps-trans w v u (next _ x _ step rest) more = next w x u step (Steps-trans x v u rest more)

  one : (w v : Wallet) → Step w v → Steps w v
  one w v step = next w v v step (here v)

  -- A coupon is on while it is active.
  abbrev pub CouponsCarried : List Coupon → List Coupon → Type 0
  CouponsCarried = Carried (λ (c : Coupon). c.id) (λ c. c.id) (λ c. is_active c.status)

  Carried-off :
      (p : Coupon → Bool) (f : Coupon → Coupon) (rows : List Coupon)
      → ((c : Coupon) → (f c).id ≡ c.id)
      → ((c : Coupon) → is_active (f c).status ≡ false)
      → CouponsCarried rows (patch p f rows)
  Carried-off p f rows same_id off =
      Carried-patch _ _ (λ (c : Coupon). is_active c.status) p f rows same_id same_id
        (λ c h. let z = off c in cc)

  rows_off :
      (p : Coupon → Bool) (f : Coupon → Coupon) (w u : Wallet) (n : ℕ)
      → ((c : Coupon) → (f c).id ≡ c.id)
      → ((c : Coupon) → is_active (f c).status ≡ false)
      → update_rows (coupon_rows client) p f w ≡ ok (n, u)
      → CouponsCarried w.coupons u.coupons
  rows_off p f w u n same_id off e =
      subst (λ (d : Wallet). CouponsCarried w.coupons d.coupons)
        (sym (update_rows-eq-ok (coupon_rows client) p f w u n e).1)
        (Carried-off p f w.coupons same_id off)

  pub Step-CouponsCarried : (w u : Wallet) → Step w u → CouponsCarried w.coupons u.coupons
  unfolding expire_customer_coupons expire_guest_coupons mark_expired use_customer_coupon
      use_guest_coupon expire spend
  Step-CouponsCarried w u (created c out fresh e) =
      let z = rw client.coupons.create_many_lem at e in
      let q : u ≡ record w { coupons = w.coupons ++ (c ∷ []) } = cc in
      subst (λ (d : Wallet). CouponsCarried w.coupons d.coupons) (sym q)
        (Carried-append _ _ (λ (x : Coupon). is_active x.status) _ _ c fresh
          (Carried-refl _ _ (λ (x : Coupon). is_active x.status) _))
  Step-CouponsCarried w u (customer_expired now customer_id n out e) =
      rows_off _ _ w u n (λ c. refl) (λ c. refl) e
  Step-CouponsCarried w u (guest_expired now phone_number n out e) =
      rows_off _ _ w u n (λ c. refl) (λ c. refl) e
  Step-CouponsCarried w u (marked_expired now coupon_id out e) =
      subst (λ (d : Wallet). CouponsCarried w.coupons d.coupons)
        (sym (update_row-eq-ok (coupon_rows client) _ _ w u e))
        (Carried-off _ _ w.coupons (λ c. refl) (λ c. refl))
  Step-CouponsCarried w u (customer_used now customer_id coupon_id n out e) =
      rows_off _ _ w u n (λ c. refl) (λ c. refl) e
  Step-CouponsCarried w u (guest_used now phone_number coupon_id n out e) =
      rows_off _ _ w u n (λ c. refl) (λ c. refl) e
  Step-CouponsCarried w u (elsewhere out e) =
      subst (CouponsCarried w.coupons) (sym e)
        (Carried-refl _ _ (λ (x : Coupon). is_active x.status) _)

  module _ {ℓ} {A : Type ℓ} where
    run_bind {κ} :
        {B : Type κ} (m : Live Wallet B) (f : B → Live Wallet A)
        → Moves Steps m
        → ((b : B) → Moves Steps (f b))
        → Moves Steps (m >>= f)
    run_bind = Moves-bind Steps here Steps-trans

  run_read {ℓ} :
      {A : Type ℓ} (m : On Wallet A)
      → ((w : Wallet) (a : A) (out : Wallet) → m w ≡ ok (a, out) → out ≡ w)
      → Moves Steps (commit m)
  run_read m still =
      Moves-commit Steps here Steps-trans m
        (λ w a out e. one w out (elsewhere out (ap (λ (d : Wallet). d.coupons) (still w a out e))))

  run_find : (cond : Coupon → Bool) → Moves Steps (commit (find_row (coupon_rows client) cond))
  run_find cond = run_read _ (λ w a out e. cc)

  run_marked :
      (now : ℕ) (coupon_id : String) → Moves Steps (commit (mark_expired client now coupon_id))
  run_marked now coupon_id =
      Moves-commit Steps here Steps-trans _
        (λ w u out e. one w out (marked_expired now coupon_id out e))

  -- The verification of a PIN writes no coupon.
  pub verify_pin_for_store-Keeps :
      (compare : String → String → Bool) (now : ℕ) (store_id pin : String)
      → Moves Keeps (verify_pin_for_store client compare now store_id pin)
  unfolding verify_pin_for_store
  verify_pin_for_store-Keeps compare now store_id pin =
      keep_bind _ _ (Moves-commit Keeps Keeps-refl Keeps-trans _ (λ w a out e. cc)) λ found.
        keep_bind _ _ (Moves-require Keeps Keeps-refl Keeps-trans _ _) λ store.
          keep_bind _ _ (Moves-require Keeps Keeps-refl Keeps-trans _ _) λ pin_hash.
            keep_bind _ _ (Moves-throw_if Keeps Keeps-refl Keeps-trans _ _)
              λ _. settle-Keeps client compare now store_id store (compare pin pin_hash)

  verify_pin_for_store-Moves :
      (compare : String → String → Bool) (now : ℕ) (store_id pin : String)
      → Moves Steps (verify_pin_for_store client compare now store_id pin)
  verify_pin_for_store-Moves compare now store_id pin = record {
    holds =
        λ w. one w _ (elsewhere _ ((verify_pin_for_store-Keeps compare now store_id pin).holds w));
  }

  find_customer_coupon-Moves :
      (customer_id coupon_id : String)
      → Moves Steps (find_customer_coupon client customer_id coupon_id)
  unfolding find_customer_coupon
  find_customer_coupon-Moves customer_id coupon_id = run_bind _ _ (run_find _) λ found.
      run_bind _ _ (Moves-require Steps here Steps-trans _ _) λ c.
        run_bind _ _ (Moves-throw_if Steps here Steps-trans _ _)
          λ _. Moves-pure Steps here Steps-trans c

  refuse_expired-Moves : (now : ℕ) (c : Coupon) → Moves Steps (refuse_expired client now c)
  unfolding refuse_expired
  refuse_expired-Moves now c = elim (Bool-cases (leb c.expires_at now)) [
    | inl over ↦
        rw over (
          run_bind _ _ (run_marked now c.id) λ _. Moves-throw Steps here Steps-trans coupon_expired)
    | inr alive ↦ rw alive (Moves-pure Steps here Steps-trans tt)
  ]

  -- A redeeming of a customer's coupon, whether it answers or throws, is a sequence of steps.
  pub redeem_store_benefit_coupon-Moves :
      (compare : String → String → Bool) (now : ℕ) (customer_id coupon_id store_pin : String)
      → Moves Steps (redeem_store_benefit_coupon client compare now customer_id coupon_id store_pin)
  unfolding redeem_store_benefit_coupon
  redeem_store_benefit_coupon-Moves compare now customer_id coupon_id store_pin =
      run_bind _ _ (find_customer_coupon-Moves customer_id coupon_id) λ c.
        run_bind _ _ (Moves-lift Steps here Steps-trans _) λ _.
          run_bind _ _ (refuse_expired-Moves now c) λ _.
            run_bind _ _ (verify_pin_for_store-Moves compare now _ store_pin) λ _.
              run_bind _ _
                (Moves-commit Steps here Steps-trans _
                  (λ w n out e. one w out (customer_used now customer_id c.id n out e)))
                λ n.
                  run_bind _ _ (Moves-throw_if Steps here Steps-trans _ _) λ _.
                    run_bind _ _ (run_find _) λ updated. Moves-require Steps here Steps-trans _ _
