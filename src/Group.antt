-- ===== src/Group.antt =====
-- The parts that the no-show service and the owner's links share
-- (src/modules/reservations/services/reservation-no-show.service.ts,
-- src/modules/owner-actions/owner-actions.service.ts): the group of a reservation, and a change of
-- the whole group that is refused when a member has moved on.
pub mod Preservation
pub mod Atomicity
use lit_server_nest.Prelude.{
  ℕ, Bool, true, false, not, ◌&&◌, Option, none, some, List, [], ◌∷◌, String, ◌==◌, is_text, has,
  Error, reservation_not_found, invalid_transition, length, nat_eq, get_or,
}
use lit_server_nest.Reservation.{Reservation, Status, status_in}
use lit_server_nest.Tx.{
  Client, Tx, ◌>>=◌, ◌>>◌, pure, throw_if, or_throw, truthy, find_reservation, find_reservations,
  update_reservations,
}

-- `storeId ? { store_id: storeId } : {}`
abbrev pub in_scope : Option String → Reservation → Bool
in_scope none r = true
in_scope (some store_id) r = r.store_id == store_id

abbrev pub reservation_where : String → Option String → Reservation → Bool
reservation_where reservation_id scope r = r.id == reservation_id && in_scope scope r

abbrev pub group_where : String → Option String → Reservation → Bool
group_where group scope r = is_text r.reservation_group_id group && in_scope scope r

-- `members.find((member) => member.id === member.reservation_group_id)`
unfoldable pub find_representative : List Reservation → Option Reservation
find_representative [] = none
find_representative (r ∷ rs) = elim (is_text r.reservation_group_id r.id) [
  | true ↦ some r
  | false ↦ find_representative rs
]

-- `!member.status || !allowedFrom.includes(member.status)`
abbrev pub blocked_by : List Status → Reservation → Bool
blocked_by allowed_from member = not (status_in allowed_from member.status)

abbrev pub is_member : List Reservation → String → Bool
is_member members key = has (λ (member : Reservation). member.id == key) members

-- The `where` of the compare-and-swap: a member whose status is still an allowed one.
abbrev pub swap_where : List Reservation → List Status → Reservation → Bool
swap_where members allowed_from r = is_member members r.id && status_in allowed_from r.status

module _ (client : Client) where
  unfoldable pub members_of : Reservation → Option String → Option String → Tx (List Reservation)
  members_of r scope none = pure (r ∷ [])
  members_of r scope (some group) = find_reservations client (group_where group scope)

  unfoldable pub resolve_group : String → Option String → Tx (Reservation × List Reservation)
  unfolding members_of find_representative
  resolve_group reservation_id store_id = do
    let scope = truthy store_id
    r ←
        or_throw (← find_reservation client (reservation_where reservation_id scope))
          reservation_not_found
    members ← members_of r scope (truthy r.reservation_group_id)
    pure (get_or (find_representative members) r, members)

  -- The update of a group, which fails unless it has changed every member.
  unfoldable pub swap_group :
      List Reservation → List Status → (Reservation → Reservation) → Tx (Unit {0})
  swap_group members allowed_from f = do
    updated ← update_reservations client (swap_where members allowed_from) f
    throw_if (not (nat_eq updated (length members))) invalid_transition

-- `for (const member of members) { await …; }`
unfoldable pub for_each : (Option String → Tx (Unit {0})) → List Reservation → Tx (Unit {0})
for_each act [] = pure tt
for_each act (r ∷ rs) = do act r.storage_id; for_each act rs
