-- ===== src/History/Creation.antt =====
-- A creation with no other request between its two commits (createStoreReservation and
-- createCustomerReservation of src/modules/reservations/services/reservation-command.service.ts) as two
-- of the steps.
use lit_server_nest.Prelude.{ℕ, ◌<◌, false, String, ◌≡◌, refl, leb, arith}
use lit_server_nest.Reservation.{Db}
use lit_server_nest.Tx.{Client}
use lit_server_nest.Command.Create.{CreateReservationDto, end_of, create_in_store}
use lit_server_nest.Command.Create.Confirmed.{IsFresh, response, approves_new, creates_confirmed}
use lit_server_nest.History.{Reach, start, after, row_created_step, approved_step}

-- Under a new id and with an end after its start, the tables that an undisturbed creation leaves are
-- reached by the step of its first commit and the step of its approval.
create_in_store-Reach :
    (client : Client) (now : ℕ) (id store_id customer_id : String) (dto : CreateReservationDto)
    (db : Db)
    → IsFresh db.reservations id
    → dto.start_time < end_of dto
    → Reach client db (create_in_store client now id store_id customer_id dto db).1
unfolding create_in_store
create_in_store-Reach client now id store_id customer_id dto db fresh valid =
    let later : leb (end_of dto) dto.start_time ≡ false = ground arith in
    rw (later, creates_confirmed client now db id store_id customer_id dto fresh)
      (after (row_created_step now id store_id customer_id dto fresh valid refl) (
        after
          (approved_step now store_id id (response client now db id store_id customer_id dto fresh)
            (approves_new client now db id store_id customer_id dto fresh))
          start))
