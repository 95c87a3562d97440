-- ===== src/Command/Preservation.antt =====
-- The transactions of the command service against the invariant of the reservations.
use lit_server_nest.Prelude.{ℕ, List, String, ◌≡◌, inl, inr, ok, arith, Bool-cases}
use lit_server_nest.Reservation.{
  Reservation, Db, Status, confirmed, in_progress, is_status, includes, release_storage_statuses,
}
use lit_server_nest.Status.{assert_can_checkin, assert_can_checkout, assert_can_transition}
use lit_server_nest.Tx.{Client}
use lit_server_nest.Tx.Ensures.{
  Ensures, ensures_pure, ensures_bind, ensures_read_one, ensures_assert, ensures_update,
  ensures_update_many, ensures_last_throw_if,
}
use lit_server_nest.ReservationStorage.Occupancy.{
  ensures_occupy, ensures_release, ensures_when_occupy, ensures_when_release,
}
use lit_server_nest.Lifecycle.{Evolves, Inv}
use lit_server_nest.Lifecycle.Patches.{Keeps, patch-Preserves, one-Preserves}
use lit_server_nest.Command.{
  change_status, update_reservation_status, store_checkin, customer_checkout,
  set_luggage_owner_memo, moved, with_memo, checked_in, checked_out, owned_by_store,
  merge_photo_urls,
}
use lit_server_nest.Command.Approval.{approve_reservation-Preserves}

-- The reservations of both tables, related as the invariant wants it.
abbrev pub Kept {ℓ} : {A : Type ℓ} → Db → A → Db → Type 0
Kept db _ out = Inv out.reservations × Evolves db.reservations out.reservations

moved-Keeps :
    (now : ℕ) (r : Reservation) (next : Status)
    → assert_can_transition r.status next ≡ ok tt
    → Keeps r (moved now r next r)
unfolding assert_can_transition
moved-Keeps now r next can = ground arith

checked_in-Keeps :
    (now : ℕ) (r : Reservation) (photos : List String)
    → assert_can_checkin r.status ≡ ok tt
    → Keeps r (checked_in now r photos r)
unfolding assert_can_checkin
checked_in-Keeps now r photos can = ground arith

checked_out-Keeps :
    (now : ℕ) (r : Reservation)
    → assert_can_checkout r.status ≡ ok tt
    → Keeps r (checked_out now r r)
unfolding assert_can_checkout
checked_out-Keeps now r can = ground arith

module _ (client : Client) (now : ℕ) (db : Db) (inv : Inv db.reservations) where
  change_status-Preserves :
      (store_id reservation_id : String) (next : Status)
      → Ensures (change_status client now store_id reservation_id next) db (Kept db)
  unfolding change_status
  change_status-Preserves store_id reservation_id next = ensures_read_one client _ _ _ λ r at mine.
      ensures_assert _ _ λ can. ensures_update client _ _ _ (
        ensures_when_release client now (includes release_storage_statuses next) r.storage_id _
          λ rows.
            ensures_when_occupy client now (is_status next in_progress) r.storage_id _ λ rows'.
              ensures_pure r (
                one-Preserves db.reservations r (moved now r next) at (moved-Keeps now r next can)
                  inv))

  -- The status endpoint.
  pub update_reservation_status-Preserves :
      (store_id reservation_id : String) (next : Status)
      → Ensures (update_reservation_status client now store_id reservation_id next) db (Kept db)
  unfolding update_reservation_status
  update_reservation_status-Preserves store_id reservation_id next =
      elim (Bool-cases (is_status next confirmed)) [
        | inl e ↦ rw e (
            ensures_bind (Kept db) _ _
              (approve_reservation-Preserves client now store_id reservation_id db inv)
              (λ response mid kept. ensures_pure _ kept))
        | inr e ↦ rw e (
            ensures_bind (Kept db) _ _ (change_status-Preserves store_id reservation_id next)
              (λ r mid kept. ensures_pure _ kept))
      ]

  pub store_checkin-Preserves :
      (store_id reservation_id : String) (photo_urls : List String)
      → Ensures (store_checkin client now store_id reservation_id photo_urls) db (Kept db)
  unfolding store_checkin
  store_checkin-Preserves store_id reservation_id photo_urls =
      ensures_read_one client _ _ _ λ r at mine. ensures_assert _ _ λ can.
        let photos = merge_photo_urls r.luggage_image_urls photo_urls in
        ensures_update client _ _ _ (
          ensures_occupy client now r.storage_id _ (
            ensures_pure _ (
              one-Preserves db.reservations r (checked_in now r photos) at
                (checked_in-Keeps now r photos can) inv)))

  pub customer_checkout-Preserves :
      (customer_id reservation_id : String)
      → Ensures (customer_checkout client now customer_id reservation_id) db (Kept db)
  unfolding customer_checkout
  customer_checkout-Preserves customer_id reservation_id =
      ensures_read_one client _ _ _ λ r at mine. ensures_assert _ _ λ can.
        ensures_update client _ _ _ (
          ensures_release client now r.storage_id _ (
            ensures_pure _ (
              one-Preserves db.reservations r (checked_out now r) at (checked_out-Keeps now r can)
                inv)))

  pub set_luggage_owner_memo-Preserves :
      (store_id reservation_id memo : String)
      → Ensures (set_luggage_owner_memo client now store_id reservation_id memo) db (Kept db)
  unfolding set_luggage_owner_memo
  set_luggage_owner_memo-Preserves store_id reservation_id memo =
      let mine = owned_by_store store_id reservation_id in
      ensures_update_many client mine (with_memo now memo) _ (
        ensures_last_throw_if _ _
          (patch-Preserves mine (with_memo now memo) db.reservations (λ x m e. ground arith) inv))
