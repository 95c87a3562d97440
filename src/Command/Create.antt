-- ===== src/Command/Create.antt =====
-- `createStoreReservation` and `createCustomerReservation`: a pending row is committed, and a second
-- transaction approves it; if that one fails, the row stays. The functions are the run of a request with
-- no other request between its two commits. With others in between, the request is the step of the
-- first commit and the step of the approval of History, and any other steps may come between them. The new id and the id for a customer
-- without one are arguments, as is the row of the store that the query returns. Columns that are only
-- copied (names, locale, messages, payment method) are left out, as is the mail.
pub mod Confirmed
pub mod Preservation
use lit_server_nest.Prelude.{
  ℕ, ◌+◌, ◌*◌, Bool, leb, Option, none, some, List, [], ◌∷◌, String, ◌==◌, get_or, Result, ok, err,
  validation_error, invalid_reservation_time, store_not_found, if◌then◌else◌,
}
use lit_server_nest.Reservation.{Reservation, Db, StorageType, pending, unpaid}
use lit_server_nest.Pricing.{
  normalize_storage_assignment_type, calculate_total_amount, ReservationPricingInput, hour_ms,
}
use lit_server_nest.Tx.{Client, truthy}
use lit_server_nest.Command.{approve_reservation}

-- The fields that the two requests share and the model keeps.
pub record CreateReservationDto : Type 0 where
  pub store_id : Option String
  pub customer_id : Option String
  pub phone_number : String
  pub email : Option String
  pub storage_type : StorageType
  pub start_time : ℕ
  pub end_time : Option ℕ
  pub duration : ℕ
  pub bag_count : ℕ
  pub luggage_image_urls : Option (List String)

-- The columns of a store that `assertStoreExists` reads.
pub record StoreRow : Type 0 where
  pub id : String
  pub business_name : String
  pub closed_at : Option ℕ

unfoldable pub assert_store_exists : Option StoreRow → Result StoreRow
assert_store_exists none = err store_not_found
assert_store_exists (some store) = elim store.closed_at [
  | none ↦ ok store
  | some t ↦ err store_not_found
]

-- `dto.endTime ? new Date(dto.endTime) : this.addHours(startTime, dto.duration)`
abbrev pub end_of : CreateReservationDto → ℕ
end_of dto = get_or dto.end_time (dto.start_time + dto.duration * hour_ms)

-- `authenticatedStoreId || dto.storeId`
abbrev pub store_of : String → CreateReservationDto → Option String
store_of authenticated dto = elim (truthy (some authenticated)) [
  | none ↦ truthy dto.store_id
  | some key ↦ some key
]

-- The row that is created.
unfoldable pub new_reservation : ℕ → String → String → String → CreateReservationDto → Reservation
unfolding normalize_storage_assignment_type calculate_total_amount
new_reservation now id store_id customer_id dto =
    let type = normalize_storage_assignment_type dto.storage_type in
    record {
      id = id;
      store_id = store_id;
      customer_id = some customer_id;
      customer_phone = dto.phone_number;
      customer_email = dto.email;
      storage_id = none;
      storage_number = none;
      requested_storage_type = some type;
      status = some pending;
      start_time = dto.start_time;
      end_time = some (end_of dto);
      confirmed_at = none;
      actual_start_time = none;
      actual_end_time = none;
      bag_count = dto.bag_count;
      total_amount = calculate_total_amount (record {
        storage_type = type;
        bag_count = dto.bag_count;
        start_time = dto.start_time;
        end_time = end_of dto;
      });
      luggage_image_urls = dto.luggage_image_urls;
      luggage_owner_memo = none;
      payment_status = some unpaid;
      payment_id = none;
      qr_code = none;
      reservation_group_id = some id;
      created_at = some now;
      updated_at = some now;
    }

-- What several transactions in a row return, with the tables that they have committed.
abbrev pub Committed : Type 0 → Type 0
Committed A = Result A × Db

module _ (client : Client) where
  -- `prisma.reservations.create`, the first commit
  abbrev pub insert_row : Reservation → Db → Db
  insert_row row db = record db {
    reservations = client.reservations.create_many (row ∷ []) db.reservations;
  }

  -- `create`, `autoApproveAfterCreate` and `reloadReservationOrFallback`, one right after the other
  unfoldable pub create_and_approve : ℕ → Reservation → Db → Committed Reservation
  unfolding approve_reservation
  create_and_approve now row db =
      let created = insert_row row db in
      elim (approve_reservation client now row.store_id row.id created) [
        | err e ↦ (err e, created)
        | ok r ↦ (
          ok (get_or (client.reservations.find_first (λ q. q.id == row.id) r.1.reservations) row),
          r.1,
        )
      ]

  unfoldable pub create_in_store :
      ℕ → String → String → String → CreateReservationDto → Db → Committed Reservation
  unfolding create_and_approve new_reservation
  create_in_store now id store_id customer_id dto db =
      if leb (end_of dto) dto.start_time
      then (err invalid_reservation_time, db)
      else create_and_approve now (new_reservation now id store_id customer_id dto) db

  unfoldable pub create_for_store :
      ℕ → String → String → CreateReservationDto → Option String → Db → Committed Reservation
  unfolding create_in_store
  create_for_store now id customer_id dto none db = (err validation_error, db)
  create_for_store now id customer_id dto (some store_id) db =
      create_in_store now id store_id customer_id dto db

  unfoldable pub create_store_reservation :
      ℕ → String → String → String → CreateReservationDto → Db → Committed Reservation
  unfolding create_for_store
  create_store_reservation now id generated_customer_id authenticated dto =
      create_for_store now id (get_or dto.customer_id generated_customer_id) dto
        (store_of authenticated dto)

  unfoldable pub create_if_exists :
      ℕ
      → String
      → String
      → CreateReservationDto
      → String
      → Result StoreRow
      → Db
      → Committed Reservation
  unfolding create_in_store
  create_if_exists now id customer_id dto store_id (err e) db = (err e, db)
  create_if_exists now id customer_id dto store_id (ok store) db =
      create_in_store now id store_id customer_id dto db

  unfoldable pub create_for_customer :
      ℕ
      → String
      → Option StoreRow
      → String
      → CreateReservationDto
      → Option String
      → Db
      → Committed Reservation
  unfolding create_if_exists assert_store_exists
  create_for_customer now id found customer_id dto none db = (err validation_error, db)
  create_for_customer now id found customer_id dto (some store_id) db =
      create_if_exists now id customer_id dto store_id (assert_store_exists found) db

  unfoldable pub create_customer_reservation :
      ℕ → String → Option StoreRow → String → CreateReservationDto → Db → Committed Reservation
  unfolding create_for_customer
  create_customer_reservation now id found customer_id dto =
      create_for_customer now id found customer_id dto (truthy dto.store_id)
