-- ===== src/OwnerActions.antt =====
-- src/modules/owner-actions/owner-actions.service.ts: check-in, check-out and no-show by the links
-- that the owner of a store receives. A link is bound to a reservation, so no store is checked.
pub mod Preservation
pub mod Atomicity
use lit_server_nest.Prelude.{
  ℕ, Bool, leb, not, ◌&&◌, has, Option, none, some, List, [], ◌∷◌, String, length, get_or,
  invalid_transition, if◌then◌else◌,
}
use lit_server_nest.Reservation.{
  Reservation, Status, PaymentStatus, pending, pending_approval, confirmed, in_progress, completed,
  paid, is_unpaid, is_status, status_in, no_show_from_statuses,
}
use lit_server_nest.Tx.{Client, Tx, ◌>>=◌, ◌>>◌, pure, throw_if}
use lit_server_nest.ReservationStorage.{occupy_storage_if_any, release_storage_if_any}
use lit_server_nest.Group.{resolve_group, swap_group, blocked_by, for_each}
use lit_server_nest.NoShow.{GroupResult, mark_no_show}
use lit_server_nest.Command.{Message, checkout_review}

abbrev pub check_in_from : List Status
check_in_from = pending ∷ pending_approval ∷ confirmed ∷ []

abbrev pub check_out_from : List Status
check_out_from = pending ∷ pending_approval ∷ confirmed ∷ in_progress ∷ []

pub data StorageAction : Type 0 where
  occupying releasing : StorageAction

-- `...(rep.payment_status === pending ? { payment_status: paid } : {})`
abbrev pub settled_payment : Reservation → Reservation → Option PaymentStatus
settled_payment rep row = if is_unpaid rep.payment_status then some paid else row.payment_status

abbrev pub arrived : ℕ → Reservation → Reservation → Reservation
arrived now rep row = record row {
  status = some in_progress;
  actual_start_time = some now;
  payment_status = settled_payment rep row;
  updated_at = some now;
}

abbrev pub picked_up : ℕ → Reservation → Reservation → Reservation
picked_up now rep row = record row {
  status = some completed;
  actual_start_time = some (get_or rep.actual_start_time now);
  actual_end_time = some now;
  payment_status = settled_payment rep row;
  updated_at = some now;
}

module _ (client : Client) where
  unfoldable pub act_on_storage : ℕ → StorageAction → Option String → Tx (Unit {0})
  unfolding occupy_storage_if_any release_storage_if_any
  act_on_storage now occupying = occupy_storage_if_any client now
  act_on_storage now releasing = release_storage_if_any client now

  unfoldable pub transition_in_tx :
      ℕ
      → String
      → List Status
      → Status
      → (Reservation → Reservation → Reservation)
      → StorageAction
      → Tx (GroupResult × Reservation)
  unfolding resolve_group swap_group for_each act_on_storage is_status
  transition_in_tx now reservation_id allowed_from next build_data storage = do
    (representative, members) ← resolve_group client reservation_id none
    throw_if (has (blocked_by allowed_from) members) invalid_transition
    swap_group client members allowed_from (build_data representative)
    for_each (act_on_storage now storage) members
    pure (
      record { id = representative.id; status = next; updated_count = length members },
      representative,
    )

  unfoldable pub check_in : ℕ → String → Tx GroupResult
  unfolding transition_in_tx
  check_in now reservation_id = do
    (result, rep) ←
        transition_in_tx now reservation_id check_in_from in_progress (arrived now) occupying
    pure result

  unfoldable pub check_out : ℕ → String → Tx (GroupResult × List Message)
  unfolding transition_in_tx
  check_out now reservation_id = do
    (result, rep) ←
        transition_in_tx now reservation_id check_out_from completed (picked_up now) releasing
    pure (result, checkout_review rep ∷ [])

  unfoldable pub owner_no_show : ℕ → String → Tx GroupResult
  unfolding mark_no_show
  owner_no_show now reservation_id = mark_no_show client now reservation_id none

  -- `canMarkNoShow` of the summary
  unfoldable pub can_mark_no_show : ℕ → Reservation → List Reservation → Bool
  unfolding is_status
  can_mark_no_show now representative members =
      not (has (blocked_by no_show_from_statuses) members) && leb representative.start_time now
