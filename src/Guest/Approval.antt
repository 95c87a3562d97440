-- ===== src/Guest/Approval.antt =====
-- `autoApproveGroup`: every pending row of a new group is confirmed, with a storage if one is free.
pub mod Preservation
use lit_server_nest.Prelude.{
  ℕ, Bool, ◌&&◌, Option, none, some, List, [], ◌∷◌, String, ◌==◌, is_text, get_or,
}
use lit_server_nest.Reservation.{
  Reservation, Storage, StorageType, pending, confirmed, is_status, status_in,
}
use lit_server_nest.Tx.{Client, Tx, ◌>>=◌, ◌>>◌, pure, find_reservations, update_reservation}
use lit_server_nest.ReservationStorage.{find_storage_for_reservation}
use lit_server_nest.Command.{approved, hours_of, assigned_pair}

abbrev pub waiting_where : String → Reservation → Bool
waiting_where group_id r =
    is_text r.reservation_group_id group_id && status_in (pending ∷ []) r.status

module _ (client : Client) where
  unfoldable pub storage_of_row : Reservation → Option StorageType → Tx (Option Storage)
  storage_of_row row none = pure none
  storage_of_row row (some type) =
      find_storage_for_reservation client (hours_of row.store_id row type)

  unfoldable pub approve_row : ℕ → Reservation → Tx (Unit {0})
  unfolding storage_of_row
  approve_row now row = do
    storage ← storage_of_row row row.requested_storage_type
    update_reservation client row.id
        (approved now row (assigned_pair storage).0 (assigned_pair storage).1)

  unfoldable pub approve_rows : ℕ → List Reservation → Tx (Unit {0})
  unfolding approve_row
  approve_rows now [] = pure tt
  approve_rows now (row ∷ rows) = do approve_row now row; approve_rows now rows

  unfoldable pub auto_approve_group : ℕ → String → Tx (Unit {0})
  unfolding approve_rows is_status
  auto_approve_group now group_id = do
    rows ← find_reservations client (waiting_where group_id)
    approve_rows now rows
