-- ===== src/Guest/Cancel.antt =====
-- `cancelReservation` of a guest: the whole group is cancelled before it begins. The contact that
-- the guest gives is resolved by the caller (`resolveCancelContact`). Of the result, the id of the
-- group is left out, as is the message that follows the commit.
pub mod Preservation
use lit_server_nest.Prelude.{
  ℕ, Bool, true, false, not, ◌&&◌, ◌||◌, Option, none, some, List, [], ◌∷◌, String, ◌==◌, is_text,
  leb, has, length, get_or, Error, forbidden, not_cancellable, too_late_to_cancel,
  reservation_not_found,
}
use lit_server_nest.Reservation.{
  Reservation, Status, pending, pending_approval, confirmed, cancelled, is_status, status_in,
}
use lit_server_nest.Tx.{
  Client, Tx, ◌>>=◌, ◌>>◌, pure, throw_if, or_throw, truthy, find_reservation, update_reservations,
}
use lit_server_nest.ReservationStorage.{release_storage_if_any}
use lit_server_nest.Group.{blocked_by, is_member, for_each, members_of, find_representative}
use lit_server_nest.NoShow.{GroupResult}

abbrev pub guest_cancel_statuses : List Status
guest_cancel_statuses = pending ∷ pending_approval ∷ confirmed ∷ []

-- `{ email }` or `{ phoneNumber }`
pub data Contact : Type 0 where
  email phone_number : String → Contact

-- How the texts of contacts are normalised: `normalizeEmail`, `normalizePhone`, and `trim` followed
-- by `toLowerCase`.
pub record Normalizer : Type 0 where
  pub normalize_email : Option String → String
  pub normalize_phone : Option String → String
  pub lower_trimmed : String → String

unfoldable pub matches_guest_contact : Normalizer → Reservation → Contact → Bool
matches_guest_contact n r (email address) =
    n.normalize_email r.customer_email == address || n.lower_trimmed r.customer_phone == address
matches_guest_contact n r (phone_number number) =
    n.normalize_phone (some r.customer_phone) == number

abbrev pub called_off : ℕ → Reservation → Reservation
called_off now row = record row { status = some cancelled; updated_at = some now }

module _ (client : Client) (n : Normalizer) where
  unfoldable pub cancel_guest_reservation : ℕ → String → Contact → Tx GroupResult
  unfolding matches_guest_contact members_of find_representative for_each release_storage_if_any
      is_status
  cancel_guest_reservation now reservation_id contact = do
    r ← or_throw (← find_reservation client (λ row. row.id == reservation_id)) reservation_not_found
    throw_if (not (matches_guest_contact n r contact)) forbidden
    members ← members_of client r none (truthy r.reservation_group_id)
    throw_if (has (blocked_by guest_cancel_statuses) members) not_cancellable
    throw_if (leb r.start_time now) too_late_to_cancel
    update_reservations client (λ row. is_member members row.id) (called_off now)
    for_each (release_storage_if_any client now) members
    pure (record {
      id = (get_or (find_representative members) r).id;
      status = cancelled;
      updated_count = length members;
    })
