-- ===== src/ReservationStorage.antt =====
-- src/modules/reservations/services/reservation-storage.service.ts: which storage a reservation
-- gets, and how check-in and check-out change the status of a storage.
pub mod Assignment
pub mod Occupancy
use lit_server_nest.Prelude.{
  ℕ, Bool, true, false, not, ◌&&◌, Option, none, some, String, ◌==◌, ltb, is_text, has, ok, List,
}
use lit_server_nest.Reservation.{
  Reservation, Storage, StorageType, available, occupied, is_status, is_type, is_available,
  is_not_maintenance, status_in, active_reservation_statuses,
}
use lit_server_nest.Pricing.{normalize_storage_assignment_type}
use lit_server_nest.Tx.{Client, Tx, ◌>>=◌, ◌>>◌, pure, truthy, update_storage, update_storages}

-- `{ start_time: endTime ? { lt: endTime } : undefined }`: an absent end leaves the column open.
abbrev starts_before : Option ℕ → ℕ → Bool
starts_before none start = true
starts_before (some end_time) start = ltb start end_time

-- `{ end_time: { gt: startTime } }`, which is false on NULL
abbrev ends_after : ℕ → Option ℕ → Bool
ends_after start_time none = false
ends_after start_time (some end) = ltb start_time end

-- `buildOverlappingReservationWhere`
unfoldable pub overlapping_reservation_where : ℕ → Option ℕ → Reservation → Bool
unfolding is_status
overlapping_reservation_where start_time end_time r =
    status_in active_reservation_statuses r.status
    && starts_before end_time r.start_time
    && ends_after start_time r.end_time

pub record StorageParams : Type 0 where
  pub store_id : String
  pub start_time : ℕ
  pub end_time : Option ℕ
  pub storage_type : StorageType

abbrev pub takes : StorageParams → Storage → Reservation → Bool
takes params storage r =
    is_text r.storage_id storage.id
    && overlapping_reservation_where params.start_time params.end_time r

-- The `where` of the storage query, over the reservations in the table. The relation of a storage
-- to its reservations is their column storage_id.
unfoldable pub candidate_where : StorageParams → List Reservation → Storage → Bool
unfolding overlapping_reservation_where is_type
candidate_where params reservations storage =
    storage.store_id == params.store_id
    && is_not_maintenance storage.status
    && is_type storage.type (normalize_storage_assignment_type params.storage_type)
    && not (has (takes params storage) reservations)

abbrev pub occupy : ℕ → Storage → Storage
occupy now storage = record storage { status = some occupied; updated_at = some now }

abbrev pub release : ℕ → Storage → Storage
release now storage = record storage { status = some available; updated_at = some now }

module _ (client : Client) where
  unfoldable pub find_storage_for_reservation : StorageParams → Tx (Option Storage)
  unfolding candidate_where
  find_storage_for_reservation params db = ok (
    client.storages.find_first_by (λ storage. storage.number)
        (candidate_where params db.reservations) db.storages,
    db,
  )

  -- `if (!storageId) return;`, then the update
  unfoldable pub occupy_named : ℕ → Option String → Tx (Unit {0})
  occupy_named now none = pure tt
  occupy_named now (some key) = do
    update_storages client (λ r. r.id == key && is_available r.status) (occupy now)
    pure tt

  unfoldable pub occupy_storage_if_any : ℕ → Option String → Tx (Unit {0})
  unfolding occupy_named
  occupy_storage_if_any now storage_id = occupy_named now (truthy storage_id)

  unfoldable pub release_named : ℕ → Option String → Tx (Unit {0})
  release_named now none = pure tt
  release_named now (some key) = update_storage client key (release now)

  unfoldable pub release_storage_if_any : ℕ → Option String → Tx (Unit {0})
  unfolding release_named
  release_storage_if_any now storage_id = release_named now (truthy storage_id)
