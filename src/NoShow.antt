-- ===== src/NoShow.antt =====
-- src/modules/reservations/services/reservation-no-show.service.ts
pub mod Preservation
pub mod Atomicity
use lit_server_nest.Prelude.{
  ℕ, Bool, ltb, has, Option, none, some, List, String, length, invalid_transition,
  too_early_for_no_show,
}
use lit_server_nest.Reservation.{
  Reservation, Status, no_show, is_status, status_in, no_show_from_statuses,
}
use lit_server_nest.Tx.{Client, Tx, ◌>>=◌, ◌>>◌, pure, throw_if}
use lit_server_nest.ReservationStorage.{release_storage_if_any}
use lit_server_nest.Group.{resolve_group, swap_group, blocked_by, for_each}

pub record GroupResult : Type 0 where
  pub id : String
  pub status : Status
  pub updated_count : ℕ

abbrev pub absent : ℕ → Reservation → Reservation
absent now row = record row { status = some no_show; updated_at = some now }

module _ (client : Client) where
  unfoldable pub mark_no_show : ℕ → String → Option String → Tx GroupResult
  unfolding resolve_group swap_group for_each release_storage_if_any is_status
  mark_no_show now reservation_id store_id = do
    (representative, members) ← resolve_group client reservation_id store_id
    throw_if (has (blocked_by no_show_from_statuses) members) invalid_transition
    throw_if (ltb now representative.start_time) too_early_for_no_show
    swap_group client members no_show_from_statuses (absent now)
    for_each (release_storage_if_any client now) members
    pure (record { id = representative.id; status = no_show; updated_count = length members })
