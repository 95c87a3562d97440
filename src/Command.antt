-- ===== src/Command.antt =====
-- src/modules/reservations/services/reservation-command.service.ts: how the store and the customer
-- change a reservation. Each function is the body of one transaction; a call that the source makes
-- after the commit (review request, coupons for a check-in) is returned beside the response.
-- `now` stands for the clock, which the source reads several times in a row.
pub mod Create
pub mod Approval
pub mod Preservation
use lit_server_nest.Prelude.{
  ℕ, Bool, true, false, ◌&&◌, not, Option, none, some, List, [], ◌∷◌, ◌++◌, String, ◌==◌, is_text,
  is_some, get_or, Error, reservation_not_found, validation_error, if◌then◌else◌, nat_eq,
  starts_with,
}
use lit_server_nest.Reservation.{
  Reservation, Storage, Status, StorageType, confirmed, in_progress, completed, is_status, includes,
  status_in, release_storage_statuses, rejected, cancelled,
}
use lit_server_nest.Status.{
  assert_can_approve, assert_can_checkin, assert_can_checkout, assert_can_transition,
}
use lit_server_nest.Tx.{
  Client, Tx, ◌>>=◌, ◌>>◌, pure, lift, throw_if, when, or_throw, truthy, find_reservation,
  update_reservation, update_reservations,
}
use lit_server_nest.ReservationStorage.{
  StorageParams, find_storage_for_reservation, occupy_storage_if_any, release_storage_if_any,
}

pub record StatusResponse : Type 0 where
  pub id : String
  pub status : Status
  pub storage_id : Option String
  pub storage_number : Option String
  pub photos : List String

pub record CouponIssueContext : Type 0 where
  pub customer_id : Option String
  pub phone_snapshot : Option String
  pub store_id : String
  pub reservation_id : String

-- What a service asks of other services once its transaction is committed.
pub data Message : Type 0 where
  checkout_review : Reservation → Message
  checkin_coupons : CouponIssueContext → Message

abbrev pub Reply : Type 0
Reply = StatusResponse × List Message

abbrev plain : String → Status → StatusResponse
plain key status = record {
  id = key;
  status = status;
  storage_id = none;
  storage_number = none;
  photos = [];
}

abbrev pub owned_by_store : String → String → Reservation → Bool
owned_by_store store_id reservation_id r = r.id == reservation_id && r.store_id == store_id

-- The `data` of the updates, computed from the row that was read.
abbrev pub approved : ℕ → Reservation → Option String → Option String → Reservation → Reservation
approved now found storage_id storage_number row = record row {
  status = some confirmed;
  storage_id = storage_id;
  storage_number = storage_number;
  confirmed_at = some (get_or found.confirmed_at now);
  updated_at = some now;
}

abbrev pub moved : ℕ → Reservation → Status → Reservation → Reservation
moved now found next row = record row {
  status = some next;
  actual_start_time =
      if is_status next in_progress
      then some (get_or found.actual_start_time now)
      else row.actual_start_time;
  actual_end_time =
      if is_status next completed
      then some (get_or found.actual_end_time now)
      else row.actual_end_time;
  updated_at = some now;
}

abbrev pub with_memo : ℕ → String → Reservation → Reservation
with_memo now memo row = record row { luggage_owner_memo = some memo; updated_at = some now }

abbrev pub photos_or_null : List String → Option (List String)
photos_or_null [] = none
photos_or_null (x ∷ xs) = some (x ∷ xs)

abbrev pub checked_in : ℕ → Reservation → List String → Reservation → Reservation
checked_in now found photos row = record row {
  status = some in_progress;
  actual_start_time = some (get_or found.actual_start_time now);
  luggage_image_urls = photos_or_null photos;
  updated_at = some now;
}

abbrev pub checked_out : ℕ → Reservation → Reservation → Reservation
checked_out now found row = record row {
  status = some completed;
  actual_end_time = some (get_or found.actual_end_time now);
  updated_at = some now;
}

-- `mergePhotoUrls`; a JSON value that is no array of texts counts as none
unfoldable pub merge_photo_urls : Option (List String) → List String → List String
merge_photo_urls existing new_urls = get_or existing [] ++ new_urls

-- `issueCheckinCouponsSafely` up to its call of the coupon service
unfoldable pub checkin_context : Reservation → CouponIssueContext
checkin_context r =
    let registered : Bool = elim (truthy r.customer_id) [
      | none ↦ false
      | some key ↦ starts_with key "customer_"
    ] in
    record {
      customer_id = if registered then r.customer_id else none;
      phone_snapshot = if registered then none else some r.customer_phone;
      store_id = r.store_id;
      reservation_id = r.id;
    }

-- The end of `updateReservationStatus`: a review is asked for if the row was not completed before.
abbrev changed : Reservation → Status → Reply
changed r next = (
  plain r.id next,
  if is_status next completed && not (status_in (completed ∷ []) r.status)
      then checkout_review r ∷ []
      else [],
)

abbrev pub hours_of : String → Reservation → StorageType → StorageParams
hours_of store_id r type = record {
  store_id = store_id;
  start_time = r.start_time;
  end_time = r.end_time;
  storage_type = type;
}

-- `storage?.id ?? null` and `storage?.number ?? null`
abbrev pub assigned_pair : Option Storage → Option String × Option String
assigned_pair none = (none, none)
assigned_pair (some storage) = (some storage.id, some storage.number)

module _ (client : Client) where
  -- A storage that is attached already stays; otherwise one is looked for.
  unfoldable pub storage_for :
      String → Reservation → StorageType → Option String → Tx (Option String × Option String)
  storage_for store_id r type (some key) = pure (some key, r.storage_number)
  storage_for store_id r type none = do
    found ← find_storage_for_reservation client (hours_of store_id r type)
    pure (assigned_pair found)

  unfoldable pub choose_storage :
      String → Reservation → StorageType → Tx (Option String × Option String)
  unfolding storage_for
  choose_storage store_id r type = storage_for store_id r type (truthy r.storage_id)

  unfoldable pub approve_reservation : ℕ → String → String → Tx StatusResponse
  unfolding choose_storage assert_can_approve
  approve_reservation now store_id reservation_id = do
    r ←
        or_throw (← find_reservation client (owned_by_store store_id reservation_id))
          reservation_not_found
    lift (assert_can_approve r.status)
    type ← or_throw r.requested_storage_type validation_error
    (storage_id, storage_number) ← choose_storage store_id r type
    update_reservation client r.id (approved now r storage_id storage_number)
    pure (record {
      id = r.id;
      status = confirmed;
      storage_id = storage_id;
      storage_number = storage_number;
      photos = [];
    })

  -- The transaction of `updateReservationStatus` for a status other than confirmed.
  unfoldable pub change_status : ℕ → String → String → Status → Tx Reservation
  unfolding assert_can_transition release_storage_if_any occupy_storage_if_any is_status
  change_status now store_id reservation_id next = do
    found ←
        or_throw (← find_reservation client (owned_by_store store_id reservation_id))
          reservation_not_found
    lift (assert_can_transition found.status next)
    update_reservation client found.id (moved now found next)
    when (includes release_storage_statuses next)
        (release_storage_if_any client now found.storage_id)
    when (is_status next in_progress) (occupy_storage_if_any client now found.storage_id)
    pure found

  unfoldable pub update_reservation_status : ℕ → String → String → Status → Tx Reply
  unfolding approve_reservation change_status is_status
  update_reservation_status now store_id reservation_id next =
      if is_status next confirmed
      then (do r ← approve_reservation now store_id reservation_id; pure (r, []))
      else (do r ← change_status now store_id reservation_id next; pure (changed r next))

  unfoldable pub reject_reservation : ℕ → String → String → Tx Reply
  unfolding update_reservation_status
  reject_reservation now store_id reservation_id =
      update_reservation_status now store_id reservation_id rejected

  unfoldable pub cancel_reservation : ℕ → String → String → Tx Reply
  unfolding update_reservation_status
  cancel_reservation now store_id reservation_id =
      update_reservation_status now store_id reservation_id cancelled

  unfoldable pub store_checkin : ℕ → String → String → List String → Tx Reply
  unfolding assert_can_checkin occupy_storage_if_any merge_photo_urls checkin_context
  store_checkin now store_id reservation_id photo_urls = do
    r ←
        or_throw (← find_reservation client (owned_by_store store_id reservation_id))
          reservation_not_found
    lift (assert_can_checkin r.status)
    let photos = merge_photo_urls r.luggage_image_urls photo_urls
    update_reservation client r.id (checked_in now r photos)
    occupy_storage_if_any client now r.storage_id
    pure (
      record (plain r.id in_progress) { photos = photos },
      checkin_coupons (checkin_context r) ∷ [],
    )

  unfoldable pub customer_checkout : ℕ → String → String → Tx Reply
  unfolding assert_can_checkout release_storage_if_any
  customer_checkout now customer_id reservation_id = do
    r ←
        or_throw
          (← find_reservation client
            (λ row. row.id == reservation_id && is_text row.customer_id customer_id))
          reservation_not_found
    lift (assert_can_checkout r.status)
    update_reservation client r.id (checked_out now r)
    release_storage_if_any client now r.storage_id
    pure (plain r.id completed, [])

  unfoldable pub set_luggage_owner_memo : ℕ → String → String → String → Tx (Unit {0})
  set_luggage_owner_memo now store_id reservation_id memo = do
    n ← update_reservations client (owned_by_store store_id reservation_id) (with_memo now memo)
    throw_if (nat_eq n 0) reservation_not_found
