-- ===== src/Pin.antt =====
-- The PIN of a store: src/modules/stores/services/store-pin.service.ts. The password service (bcrypt)
-- is a parameter: whether a PIN fits a hash, and the new hash.
pub mod Lock
use lit_server_nest.Prelude.{
  ℕ, ◌+◌, ◌*◌, Bool, true, false, Option, none, some, String, ◌==◌, ltb, leb, store_not_found,
  store_pin_not_set, pin_locked, pin_mismatch, if◌then◌else◌,
}
use lit_server_nest.Tx.{truthy}
use lit_server_nest.Tx.Live.{Live, ◌>>=◌, ◌>>◌, pure, throw, throw_if, require, commit}
use lit_server_nest.Tx.Tables.{find_row, update_row}
use lit_server_nest.Wallet.{PinStore, Wallet, WalletClient, store_rows}

abbrev pub max_pin_failures : ℕ
max_pin_failures = 5

abbrev pub pin_lock_minutes : ℕ
pin_lock_minutes = 10

unfoldable pub add_minutes : ℕ → ℕ → ℕ
add_minutes date minutes = date + minutes * 60000

-- `locked_until && locked_until > now`
abbrev pub is_locked : ℕ → PinStore → Bool
is_locked now s = elim (s.store_pin_locked_until) [ none ↦ false | some until ↦ ltb now until ]

-- The row after a mismatch, where `count` failures were read.
unfoldable pub after_mismatch : ℕ → ℕ → PinStore → PinStore
unfolding add_minutes
after_mismatch now failed s =
    let next_failed_count = failed + 1 in
    record s {
      store_pin_failed_count = next_failed_count;
      store_pin_locked_until =
          if leb max_pin_failures next_failed_count
          then some (add_minutes now pin_lock_minutes)
          else none;
      updated_at = now;
    }

unfoldable pub after_match : ℕ → PinStore → PinStore
after_match now s = record s {
  store_pin_failed_count = 0;
  store_pin_locked_until = none;
  updated_at = now;
}

module _ (client : WalletClient) where
  unfoldable pub set_pin : ℕ → String → String → Live Wallet (Unit {0})
  set_pin now store_id pin_hash = do
    found ← commit (find_row (store_rows client) (λ s. s.id == store_id))
    store ← require found store_not_found
    commit (
        update_row (store_rows client) (λ s. s.id == store_id)
          (λ s. record s {
            store_pin_hash = some pin_hash;
            store_pin_updated_at = some now;
            store_pin_failed_count = 0;
            store_pin_locked_until = none;
            updated_at = now;
          }))

  module _ (compare : String → String → Bool) where
    -- What follows the comparison
    unfoldable pub settle : ℕ → String → PinStore → Bool → Live Wallet (Unit {0})
    unfolding after_mismatch after_match
    settle now store_id store false =
        commit (
          update_row (store_rows client) (λ s. s.id == store_id)
            (after_mismatch now store.store_pin_failed_count))
        >> throw pin_mismatch
    settle now store_id store true =
        commit (update_row (store_rows client) (λ s. s.id == store_id) (after_match now))

    unfoldable pub verify_pin_for_store : ℕ → String → String → Live Wallet (Unit {0})
    unfolding settle
    verify_pin_for_store now store_id pin = do
      found ← commit (find_row (store_rows client) (λ s. s.id == store_id))
      store ← require found store_not_found
      pin_hash ← require (truthy store.store_pin_hash) store_pin_not_set
      throw_if (is_locked now store) pin_locked
      settle now store_id store (compare pin pin_hash)

    unfoldable pub check_pin : ℕ → String → String → Live Wallet Bool
    unfolding verify_pin_for_store
    check_pin now store_id pin = do verify_pin_for_store now store_id pin; pure true
