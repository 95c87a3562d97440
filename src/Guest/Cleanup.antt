-- ===== src/Guest/Cleanup.antt =====
-- `cleanupExpiredReservations`: unpaid reservations of guests are cancelled after 30 minutes.
pub mod Preservation
use lit_server_nest.Prelude.{
  ℕ, ◌-◌, ◌*◌, Bool, true, false, ◌&&◌, Option, none, some, List, [], ◌∷◌, String, ltb, starts_with,
}
use lit_server_nest.Reservation.{
  Reservation, Storage, Status, pending, confirmed, cancelled, is_unpaid, is_status, status_in,
}
use lit_server_nest.Tx.{
  Client, Tx, ◌>>=◌, ◌>>◌, pure, find_reservations, update_reservations, update_storages,
}
use lit_server_nest.ReservationStorage.{release}
use lit_server_nest.Group.{is_member}
use lit_server_nest.AutoComplete.{storage_ids_of, among}
use lit_server_nest.Guest.Cancel.{called_off}

abbrev pub reservation_ttl_minutes : ℕ
reservation_ttl_minutes = 30

abbrev pub expiring_statuses : List Status
expiring_statuses = pending ∷ confirmed ∷ []

-- `customer_id: { startsWith: 'guest_' }` and `created_at: { lt: cutoff }`, false on NULL
abbrev pub is_guest : Option String → Bool
is_guest none = false
is_guest (some key) = starts_with key "guest_"

abbrev pub created_before : ℕ → Option ℕ → Bool
created_before cutoff none = false
created_before cutoff (some created_at) = ltb created_at cutoff

abbrev pub expiring_where : ℕ → Reservation → Bool
expiring_where cutoff r =
    status_in expiring_statuses r.status
    && is_unpaid r.payment_status
    && is_guest r.customer_id
    && created_before cutoff r.created_at

abbrev pub cleaned_where : List Reservation → Reservation → Bool
cleaned_where expiring r =
    is_member expiring r.id && status_in expiring_statuses r.status && is_unpaid r.payment_status

module _ (client : Client) where
  unfoldable pub clean_up : ℕ → List Reservation → Tx ℕ
  unfolding storage_ids_of is_status
  clean_up now [] = pure 0
  clean_up now (r ∷ rs) = do
    update_storages client (λ storage. among (storage_ids_of (r ∷ rs)) storage.id) (release now)
    update_reservations client (cleaned_where (r ∷ rs)) (called_off now)

  -- The number of reservations cancelled.
  unfoldable pub cleanup_expired_reservations : ℕ → Tx ℕ
  unfolding clean_up is_status
  cleanup_expired_reservations now = do
    let cutoff = now - reservation_ttl_minutes * 60000
    expiring ← find_reservations client (expiring_where cutoff)
    clean_up now expiring
