-- ===== src/Reservation.antt =====
-- The tables of the booking core (prisma/schema.prisma: reservations, storages) with the columns
-- that the services read or write, and the status lists of
-- src/modules/reservations/reservation.constants.ts. A time is a number of milliseconds since the
-- epoch, a nullable column an `Option`.
use lit_server_nest.Prelude.{
  ℕ, ℤ, Bool, true, false, Option, none, some, List, [], ◌∷◌, String, if◌then◌else◌,
}

pub data Status : Type 0 where
  pending pending_approval confirmed rejected in_progress completed cancelled no_show : Status

-- `pending` is `unpaid` here, to tell it from the status of a reservation.
pub data PaymentStatus : Type 0 where
  unpaid paid refunded : PaymentStatus

pub data StorageType : Type 0 where
  s m l xl special refrigeration : StorageType

pub data StorageStatus : Type 0 where
  available occupied maintenance : StorageStatus

pub record Reservation : Type 0 where
  pub id : String
  pub store_id : String
  pub customer_id : Option String
  pub customer_phone : String
  pub customer_email : Option String
  pub storage_id : Option String
  pub storage_number : Option String
  pub requested_storage_type : Option StorageType
  pub status : Option Status
  pub start_time : ℕ
  pub end_time : Option ℕ
  pub confirmed_at : Option ℕ
  pub actual_start_time : Option ℕ
  pub actual_end_time : Option ℕ
  pub bag_count : ℕ
  pub total_amount : ℤ
  pub luggage_image_urls : Option (List String)
  pub luggage_owner_memo : Option String
  pub payment_status : Option PaymentStatus
  pub payment_id : Option ℕ
  pub qr_code : Option String
  pub reservation_group_id : Option String
  pub created_at : Option ℕ
  pub updated_at : Option ℕ

pub record Storage : Type 0 where
  pub id : String
  pub store_id : String
  pub number : String
  pub type : StorageType
  pub status : Option StorageStatus
  pub pricing : ℕ
  pub updated_at : Option ℕ

-- The tables that one transaction of the booking services reads and writes.
pub record Db : Type 0 where
  pub reservations : List Reservation
  pub storages : List Storage

-- `===` on statuses
unfoldable pub is_status : Status → Status → Bool
is_status pending pending = true
is_status pending_approval pending_approval = true
is_status confirmed confirmed = true
is_status rejected rejected = true
is_status in_progress in_progress = true
is_status completed completed = true
is_status cancelled cancelled = true
is_status no_show no_show = true
is_status _ _ = false

-- `===` on storage sizes
unfoldable pub is_type : StorageType → StorageType → Bool
is_type StorageType.s StorageType.s = true
is_type StorageType.m StorageType.m = true
is_type StorageType.l StorageType.l = true
is_type StorageType.xl StorageType.xl = true
is_type StorageType.special StorageType.special = true
is_type StorageType.refrigeration StorageType.refrigeration = true
is_type _ _ = false

abbrev pub is_available : Option StorageStatus → Bool
is_available (some available) = true
is_available _ = false

-- `{ status: { not: 'maintenance' } }`, which is false on NULL
abbrev pub is_not_maintenance : Option StorageStatus → Bool
is_not_maintenance none = false
is_not_maintenance (some maintenance) = false
is_not_maintenance (some _) = true

-- `list.includes(status)`; `{ status: { in: list } }` is false on NULL
abbrev pub includes : List Status → Status → Bool
includes [] x = false
includes (y ∷ ys) x = if is_status y x then true else includes ys x

abbrev pub status_in : List Status → Option Status → Bool
status_in ys none = false
status_in ys (some x) = includes ys x

abbrev pub is_unpaid : Option PaymentStatus → Bool
is_unpaid (some unpaid) = true
is_unpaid _ = false

abbrev pub active_reservation_statuses : List Status
active_reservation_statuses = confirmed ∷ in_progress ∷ []

abbrev pub no_show_from_statuses : List Status
no_show_from_statuses = pending ∷ pending_approval ∷ confirmed ∷ []

abbrev pub release_storage_statuses : List Status
release_storage_statuses = rejected ∷ cancelled ∷ completed ∷ []

abbrev pub terminal_reservation_statuses : List Status
terminal_reservation_statuses = rejected ∷ cancelled ∷ completed ∷ []
