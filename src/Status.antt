-- ===== src/Status.antt =====
-- src/modules/reservations/services/reservation-status.service.ts: which changes of status are
-- allowed. The assertions return the error that the source throws.
pub mod Graph
use lit_server_nest.Prelude.{
  Bool, true, false, Option, none, some, List, [], ◌∷◌, Error, Result, ok, err, invalid_status,
  if◌then◌else◌,
}
use lit_server_nest.Reservation.{
  Status, pending, pending_approval, confirmed, rejected, in_progress, completed, cancelled,
  no_show, is_status, includes, status_in, terminal_reservation_statuses,
}

abbrev assert_status : Bool → Result (Unit {0})
assert_status true = ok tt
assert_status false = err invalid_status

unfoldable pub assert_can_approve : Option Status → Result (Unit {0})
unfolding is_status
assert_can_approve current =
    assert_status (status_in (pending ∷ pending_approval ∷ confirmed ∷ []) current)

unfoldable pub assert_can_checkin : Option Status → Result (Unit {0})
unfolding is_status
assert_can_checkin current = assert_status (status_in (confirmed ∷ in_progress ∷ []) current)

unfoldable pub assert_can_checkout : Option Status → Result (Unit {0})
unfolding is_status
assert_can_checkout current = assert_status (status_in (confirmed ∷ in_progress ∷ []) current)

unfoldable pub get_allowed_next_statuses : Option Status → List Status
get_allowed_next_statuses (some pending) = confirmed ∷ rejected ∷ cancelled ∷ []
get_allowed_next_statuses (some pending_approval) = confirmed ∷ rejected ∷ cancelled ∷ []
get_allowed_next_statuses (some confirmed) = in_progress ∷ completed ∷ cancelled ∷ []
get_allowed_next_statuses (some in_progress) = completed ∷ cancelled ∷ []
get_allowed_next_statuses _ = []

unfoldable pub assert_can_transition : Option Status → Status → Result (Unit {0})
unfolding is_status get_allowed_next_statuses
assert_can_transition current next =
    if status_in (next ∷ []) current
    then ok tt
    else if status_in terminal_reservation_statuses current
    then err invalid_status
    else assert_status (includes (get_allowed_next_statuses current) next)
