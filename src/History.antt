-- ===== src/History.antt =====
-- The booking core as a transition system: a transaction is a step between two states of the tables.
-- The steps are the transactions of the command service, the no-show service, the owner's links, the
-- jobs and the guest service that are modelled. Not steps, though they change reservations too: the
-- creation by a guest (guest-reservation.service.ts:157-225), the update of the photos
-- (guest-reservation.service.ts:782) and the transactions of qr-checkin.service.ts (:49 and :101).
-- Steps run one after the other, each at a time and with inputs of its own; a transaction that throws
-- is rolled back and is no step. A request that creates a reservation commits twice: it is either the
-- first commit and the approval as two steps, with any others in between, or one step where nothing
-- comes between.
pub mod Steps
pub mod Reachable
pub mod Creation
use lit_server_nest.Prelude.{ℕ, ◌<◌, Option, List, String, ◌≡◌, Result, ok}
use lit_server_nest.Reservation.{Reservation, Db, Status}
use lit_server_nest.Tx.{Client}
use lit_server_nest.Command.{
  StatusResponse, Reply, Message, approve_reservation, update_reservation_status, store_checkin,
  customer_checkout, set_luggage_owner_memo,
}
use lit_server_nest.Command.Create.{
  CreateReservationDto, StoreRow, end_of, insert_row, new_reservation, create_store_reservation,
  create_customer_reservation,
}
use lit_server_nest.Command.Create.Confirmed.{IsFresh}
use lit_server_nest.NoShow.{GroupResult, mark_no_show}
use lit_server_nest.OwnerActions.{check_in, check_out}
use lit_server_nest.AutoComplete.{auto_complete_overdue}
use lit_server_nest.Guest.Approval.{auto_approve_group}
use lit_server_nest.Guest.Cancel.{Contact, Normalizer, cancel_guest_reservation}
use lit_server_nest.Guest.Cleanup.{cleanup_expired_reservations}

-- The steps of the command service, of the no-show service, of the owner's links, of the two jobs
-- and of the guest service.
pub data Step (client : Client) (db out : Db) : Type 0 where
  store_created_step :
      (now : ℕ) (id generated_customer_id authenticated : String) (dto : CreateReservationDto)
      (reply : Result Reservation)
      → IsFresh db.reservations id
      → create_store_reservation client now id generated_customer_id authenticated dto db
        ≡ (reply, out)
      → Step client db out
  customer_created_step :
      (now : ℕ) (id : String) (found : Option StoreRow) (customer_id : String)
      (dto : CreateReservationDto) (reply : Result Reservation)
      → IsFresh db.reservations id
      → create_customer_reservation client now id found customer_id dto db ≡ (reply, out)
      → Step client db out
  row_created_step :
      (now : ℕ) (id store_id customer_id : String) (dto : CreateReservationDto)
      → IsFresh db.reservations id
      → dto.start_time < end_of dto
      → out ≡ insert_row client (new_reservation now id store_id customer_id dto) db
      → Step client db out
  approved_step :
      (now : ℕ) (store_id reservation_id : String) (reply : StatusResponse)
      → approve_reservation client now store_id reservation_id db ≡ ok (reply, out)
      → Step client db out
  status_step :
      (now : ℕ) (store_id reservation_id : String) (next : Status) (reply : Reply)
      → update_reservation_status client now store_id reservation_id next db ≡ ok (reply, out)
      → Step client db out
  checkin_step :
      (now : ℕ) (store_id reservation_id : String) (photo_urls : List String) (reply : Reply)
      → store_checkin client now store_id reservation_id photo_urls db ≡ ok (reply, out)
      → Step client db out
  checkout_step :
      (now : ℕ) (customer_id reservation_id : String) (reply : Reply)
      → customer_checkout client now customer_id reservation_id db ≡ ok (reply, out)
      → Step client db out
  memo_step :
      (now : ℕ) (store_id reservation_id memo : String)
      → set_luggage_owner_memo client now store_id reservation_id memo db ≡ ok (tt, out)
      → Step client db out
  no_show_step :
      (now : ℕ) (reservation_id : String) (store_id : Option String) (result : GroupResult)
      → mark_no_show client now reservation_id store_id db ≡ ok (result, out)
      → Step client db out
  owner_check_in_step :
      (now : ℕ) (reservation_id : String) (result : GroupResult)
      → check_in client now reservation_id db ≡ ok (result, out)
      → Step client db out
  owner_check_out_step :
      (now : ℕ) (reservation_id : String) (result : GroupResult × List Message)
      → check_out client now reservation_id db ≡ ok (result, out)
      → Step client db out
  auto_complete_step :
      (now n : ℕ) → auto_complete_overdue client now db ≡ ok (n, out) → Step client db out
  auto_approve_step :
      (now : ℕ) (group_id : String)
      → auto_approve_group client now group_id db ≡ ok (tt, out)
      → Step client db out
  guest_cancel_step :
      (normalizer : Normalizer) (now : ℕ) (reservation_id : String) (contact : Contact)
      (result : GroupResult)
      → cancel_guest_reservation client normalizer now reservation_id contact db ≡ ok (result, out)
      → Step client db out
  cleanup_step :
      (now n : ℕ) → cleanup_expired_reservations client now db ≡ ok (n, out) → Step client db out

-- Any number of steps.
pub data Reach (client : Client) : Db → Db → Type 0 where
  start : {db : Db} → Reach client db db
  after : {db mid out : Db} → Step client db mid → Reach client mid out → Reach client db out
