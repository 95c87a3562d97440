-- ===== src/History/Steps.antt =====
-- What one step does to the reservations.
use lit_server_nest.Prelude.{ℕ, Option, String, ◌≡◌, sym, subst, get_or, Result}
use lit_server_nest.Reservation.{Reservation, Db}
use lit_server_nest.Tx.{Client, truthy}
use lit_server_nest.Lifecycle.{Inv, Evolves, Preserves}
use lit_server_nest.Command.Create.Confirmed.{IsFresh}
use lit_server_nest.Command.Approval.{approve_reservation-Preserves}
use lit_server_nest.Command.Preservation.{
  update_reservation_status-Preserves, store_checkin-Preserves, customer_checkout-Preserves,
  set_luggage_owner_memo-Preserves,
}
use lit_server_nest.Command.Create.{
  CreateReservationDto, StoreRow, store_of, create_store_reservation, create_customer_reservation,
}
use lit_server_nest.Command.Create.Preservation.{
  insert_row-Preserves, create_for_store-Preserves, create_for_customer-Preserves,
}
use lit_server_nest.NoShow.Preservation.{mark_no_show-Preserves}
use lit_server_nest.OwnerActions.Preservation.{check_in-Preserves, check_out-Preserves}
use lit_server_nest.AutoComplete.Preservation.{auto_complete_overdue-Preserves}
use lit_server_nest.Guest.Approval.Preservation.{auto_approve_group-Preserves}
use lit_server_nest.Guest.Cancel.Preservation.{cancel_guest_reservation-Preserves}
use lit_server_nest.Guest.Cleanup.Preservation.{cleanup-Preserves}
use lit_server_nest.History.{
  Step, row_created_step, store_created_step, customer_created_step, approved_step, status_step,
  checkin_step, checkout_step, memo_step, no_show_step, owner_check_in_step, owner_check_out_step,
  auto_complete_step, auto_approve_step, guest_cancel_step, cleanup_step,
}

store_creation :
    (client : Client) (db out : Db) (now : ℕ) (id generated authenticated : String)
    (dto : CreateReservationDto) (reply : Result Reservation)
    → IsFresh db.reservations id
    → create_store_reservation client now id generated authenticated dto db ≡ (reply, out)
    → Preserves db.reservations out.reservations
unfolding create_store_reservation
store_creation client db out now id generated authenticated dto reply fresh h =
    subst (λ (p : Result Reservation × Db). Preserves db.reservations p.1.reservations) h
      (create_for_store-Preserves client now db id (get_or dto.customer_id generated) dto
        (store_of authenticated dto) fresh)

customer_creation :
    (client : Client) (db out : Db) (now : ℕ) (id : String) (found : Option StoreRow)
    (customer_id : String) (dto : CreateReservationDto) (reply : Result Reservation)
    → IsFresh db.reservations id
    → create_customer_reservation client now id found customer_id dto db ≡ (reply, out)
    → Preserves db.reservations out.reservations
unfolding create_customer_reservation
customer_creation client db out now id found customer_id dto reply fresh h =
    subst (λ (p : Result Reservation × Db). Preserves db.reservations p.1.reservations) h
      (create_for_customer-Preserves client now db id found customer_id dto (truthy dto.store_id)
        fresh)

-- Every step, of whichever service, keeps the invariant of the reservations: the ids are a
-- key, a reservation that is not approved yet has no storage, and no storage is promised to two
-- active reservations whose hours meet. No reservation that was there is lost, none of them changes
-- its id, store, group, hours or number of bags, and each keeps its status or goes to a later stage.
pub Step-Preserves :
    (client : Client) (db out : Db)
    → Step client db out
    → Inv db.reservations
    → Inv out.reservations × Evolves db.reservations out.reservations
Step-Preserves client db out (store_created_step now id generated authenticated dto reply fresh h)
      inv =
    store_creation client db out now id generated authenticated dto reply fresh h inv
Step-Preserves client db out (customer_created_step now id found customer dto reply fresh h) inv =
    customer_creation client db out now id found customer dto reply fresh h inv
Step-Preserves client db out (row_created_step now id store_id customer_id dto fresh valid e) inv =
    subst (λ (d : Db). Inv d.reservations × Evolves db.reservations d.reservations) (sym e)
      (insert_row-Preserves client now db id store_id customer_id dto fresh inv)
Step-Preserves client db out (approved_step now st key a h) inv =
    (approve_reservation-Preserves client now st key db inv).holds a out h
Step-Preserves client db out (status_step now st key next a h) inv =
    (update_reservation_status-Preserves client now db inv st key next).holds a out h
Step-Preserves client db out (checkin_step now st key photos a h) inv =
    (store_checkin-Preserves client now db inv st key photos).holds a out h
Step-Preserves client db out (checkout_step now customer key a h) inv =
    (customer_checkout-Preserves client now db inv customer key).holds a out h
Step-Preserves client db out (memo_step now st key memo h) inv =
    (set_luggage_owner_memo-Preserves client now db inv st key memo).holds tt out h
Step-Preserves client db out (no_show_step now key scope a h) inv =
    (mark_no_show-Preserves client now key scope db).holds a out h inv
Step-Preserves client db out (owner_check_in_step now key a h) inv =
    (check_in-Preserves client now key db).holds a out h inv
Step-Preserves client db out (owner_check_out_step now key a h) inv =
    (check_out-Preserves client now key db).holds a out h inv
Step-Preserves client db out (auto_complete_step now n h) inv =
    (auto_complete_overdue-Preserves client now db).holds n out h inv
Step-Preserves client db out (auto_approve_step now group_id h) inv =
    (auto_approve_group-Preserves client now group_id db inv).holds tt out h
Step-Preserves client db out (guest_cancel_step n now key contact a h) inv =
    (cancel_guest_reservation-Preserves client n now key contact db).holds a out h inv
Step-Preserves client db out (cleanup_step now n h) inv =
    (cleanup-Preserves client now db).holds n out h inv
