-- ===== src/Pin/Lock.antt =====
-- The lock after wrong PINs (src/modules/stores/services/store-pin.service.ts).
use lit_server_nest.Prelude.{
  ℕ, ◌+◌, ◌*◌, ◌<◌, ◌≡◌, refl, ap, subst, ◌∙◌, Bool, true, false, none, some, List, [], ◌∷◌, String,
  ◌==◌, eq_iff, eq_refl, length, Memᴰ, All, has, has-false, patch, patch-mem, step_row-hit, IsKey,
  IsKey-patch, arith, inl, inr, err, Bool-cases, Option-cases, pin_locked, pin_mismatch,
}
use lit_server_nest.Tx.{truthy}
use lit_server_nest.Tx.Live.{◌>>=◌, commit}
use lit_server_nest.Tx.Tables.{update_row, update_row_lem}
use lit_server_nest.Wallet.{PinStore, Wallet, WalletClient, store_rows}
use lit_server_nest.Pin.{is_locked, after_mismatch, settle, verify_pin_for_store, add_minutes}

-- The store `s` stands alone under its id, with a PIN.
pub record HasPin (rows : List PinStore) (s : PinStore) (pin_hash : String) : Type 0 where
  pub key : IsKey (λ (x : PinStore). x.id) rows
  pub stored : Memᴰ s rows
  pub hash : truthy s.store_pin_hash ≡ some pin_hash

-- The table after one more wrong guess, where the row `s` was read.
abbrev pub missed : ℕ → PinStore → Wallet → Wallet
missed now s db = record db {
  stores = patch (λ x. x.id == s.id) (after_mismatch now s.store_pin_failed_count) db.stores;
}

missed-HasPin :
    (db : Wallet) (s : PinStore) (pin_hash : String) (now : ℕ)
    → HasPin db.stores s pin_hash
    → HasPin (missed now s db).stores (after_mismatch now s.store_pin_failed_count s) pin_hash
unfolding after_mismatch
missed-HasPin db s pin_hash now h =
    let p : PinStore → Bool = λ x. x.id == s.id in
    let f = after_mismatch now s.store_pin_failed_count in
    record {
      key = IsKey-patch (λ (x : PinStore). x.id) p f db.stores (λ x. refl) h.key;
      stored =
          subst (λ x. Memᴰ x (patch p f db.stores)) (step_row-hit p f s (eq_refl s.id))
            (patch-mem p f db.stores h.stored);
      hash = h.hash;
    }

locks :
    (s : PinStore) (last now : ℕ)
    → s.store_pin_failed_count ≡ 4
    → now < last + 10 * 60000
    → is_locked now (after_mismatch last s.store_pin_failed_count s) ≡ true
unfolding after_mismatch add_minutes
locks s last now four soon = rw four (ground arith)

stays_open :
    (s : PinStore) (now : ℕ)
    → s.store_pin_failed_count < 4
    → (after_mismatch now s.store_pin_failed_count s).store_pin_locked_until ≡ none
unfolding after_mismatch add_minutes
stays_open s now few = ground arith

counts :
    (s : PinStore) (now k : ℕ)
    → s.store_pin_failed_count + (k + 1) ≡ 4
    → (after_mismatch now s.store_pin_failed_count s).store_pin_failed_count + k ≡ 4
unfolding after_mismatch add_minutes
counts s now k four = omega arith

module _ (client : WalletClient) (compare : String → String → Bool) where
  finds :
      (db : Wallet) (s : PinStore) (pin_hash : String)
      → HasPin db.stores s pin_hash
      → client.stores.find_first (λ x. x.id == s.id) db.stores ≡ some s
  finds db s pin_hash h =
      elim (Option-cases (client.stores.find_first (λ x. x.id == s.id) db.stores)) [
        | inl missing ↦
            let z : (s.id == s.id) ≡ false =
              client.stores.find_first-none (λ x. x.id == s.id) db.stores missing s h.stored in
            let y = eq_refl s.id in cc
        | inr (r, found) ↦
            let (r_in, same) =
              client.stores.find_first-some (λ x. x.id == s.id) db.stores r found in
            found ∙ ap some (h.key r s r_in h.stored ((eq_iff r.id s.id).0 same))
      ]

  verify-locked :
      (db : Wallet) (s : PinStore) (pin_hash : String) (now : ℕ) (pin : String)
      → HasPin db.stores s pin_hash
      → is_locked now s ≡ true
      → verify_pin_for_store client compare now s.id pin db ≡ (err pin_locked, db)
  unfolding verify_pin_for_store ◌>>=◌ commit
  verify-locked db s pin_hash now pin h locked = rw (finds db s pin_hash h, h.hash, locked) refl

  verify-mismatch :
      (db : Wallet) (s : PinStore) (pin_hash : String) (now : ℕ) (pin : String)
      → HasPin db.stores s pin_hash
      → is_locked now s ≡ false
      → compare pin pin_hash ≡ false
      → verify_pin_for_store client compare now s.id pin db ≡ (
        err pin_mismatch,
        record db {
          stores =
              patch (λ x. x.id == s.id) (after_mismatch now s.store_pin_failed_count) db.stores;
        },
      )
  unfolding verify_pin_for_store settle ◌>>=◌ commit update_row
  verify-mismatch db s pin_hash now pin h free wrong =
      let there : has (λ (x : PinStore). x.id == s.id) db.stores ≡ true =
        elim (Bool-cases (has (λ (x : PinStore). x.id == s.id) db.stores)) [
          | inl yes_there ↦ yes_there
          | inr missing ↦
              let z : (s.id == s.id) ≡ false =
                has-false (λ (x : PinStore). x.id == s.id) db.stores missing h.stored in
              let y = eq_refl s.id in cc
        ] in
      rw
        (
          finds db s pin_hash h,
          h.hash,
          free,
          wrong,
          settle,
          update_row_lem (store_rows client),
          there,
        )
        refl

  -- The tables after guesses, each with its time.
  abbrev pub guessed : String → List (ℕ × String) → Wallet → Wallet
  guessed store_id [] db = db
  guessed store_id (g ∷ gs) db =
      guessed store_id gs (verify_pin_for_store client compare (g.0) store_id (g.1) db).1

  -- From a store that is not locked and has `n` failures counted, 4 - n wrong guesses and another wrong
  -- one at the time `last` lock the PIN: before ten minutes after `last` have passed, every guess, the
  -- right one too, is refused with `PIN_LOCKED` and changes nothing.
  pub guessed-locked :
      (gs : List (ℕ × String)) (last now : ℕ) (final pin : String) (pin_hash : String)
      (s : PinStore) (db : Wallet)
      → HasPin db.stores s pin_hash
      → s.store_pin_locked_until ≡ none
      → s.store_pin_failed_count + length gs ≡ 4
      → All (λ g. compare (g.1) pin_hash ≡ false) gs
      → compare final pin_hash ≡ false
      → now < last + 10 * 60000
      → verify_pin_for_store client compare now s.id pin
          (verify_pin_for_store client compare last s.id final (guessed s.id gs db)).1
        ≡ (
          err pin_locked,
          (verify_pin_for_store client compare last s.id final (guessed s.id gs db)).1,
        )
  unfolding after_mismatch
  guessed-locked [] last now final pin pin_hash s db h open_now four all_wrong wrong soon =
      let free : is_locked last s ≡ false = rw open_now refl in
      rw (verify-mismatch db s pin_hash last final h free wrong) (
        verify-locked (missed last s db) (after_mismatch last s.store_pin_failed_count s) pin_hash
          now pin (missed-HasPin db s pin_hash last h) (locks s last now (omega arith) soon))
  guessed-locked (g ∷ gs) last now final pin pin_hash s db h open_now four all_wrong wrong soon =
      let free : is_locked (g.0) s ≡ false = rw open_now refl in
      rw (verify-mismatch db s pin_hash (g.0) (g.1) h free all_wrong.0) (
        guessed-locked gs last now final pin pin_hash
          (after_mismatch (g.0) s.store_pin_failed_count s) (missed (g.0) s db)
          (missed-HasPin db s pin_hash (g.0) h) (stays_open s (g.0) (omega arith))
          (counts s (g.0) (length gs) (omega arith)) all_wrong.1 wrong soon)
