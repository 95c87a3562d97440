-- ===== src/Guest/Cancel/Preservation.antt =====
-- The cancellation of a guest against the invariant of the reservations. Its update looks at the ids
-- alone; the statuses of the members are checked before.
use lit_server_nest.Prelude.{
  ℕ, true, false, none, List, String, ◌==◌, ◌≡◌, sym, subst, arith, Memᴰ, has, has-false, has-true,
  patch, eq_iff,
}
use lit_server_nest.Reservation.{Reservation, Db, is_status, status_in}
use lit_server_nest.Tx.{Client, truthy}
use lit_server_nest.Tx.Ensures.{
  Ensures, ensures_pure, ensures_bind, ensures_read_one, ensures_throw_if, ensures_update_many,
}
use lit_server_nest.ReservationStorage.{release_storage_if_any}
use lit_server_nest.Lifecycle.{Preserves}
use lit_server_nest.Lifecycle.Patches.{Keeps, patch-Preserves}
use lit_server_nest.Group.{blocked_by, is_member}
use lit_server_nest.Group.Preservation.{carried, for_each-Same, members_of-rows, group_rows-mem}
use lit_server_nest.NoShow.Preservation.{release-Same}
use lit_server_nest.Guest.Cancel.{
  Contact, Normalizer, cancel_guest_reservation, called_off, guest_cancel_statuses,
}

called_off-Keeps :
    (now : ℕ) (x : Reservation)
    → status_in guest_cancel_statuses x.status ≡ true
    → Keeps x (called_off now x)
unfolding is_status
called_off-Keeps now x h = ground arith

-- A row with the id of a checked member is that member.
member_checked :
    (rows members : List Reservation) (x : Reservation)
    → ((a b : Reservation) → Memᴰ a rows → Memᴰ b rows → a.id ≡ b.id → a ≡ b)
    → ((m : Reservation) → Memᴰ m members → Memᴰ m rows)
    → has (blocked_by guest_cancel_statuses) members ≡ false
    → Memᴰ x rows
    → is_member members x.id ≡ true
    → status_in guest_cancel_statuses x.status ≡ true
member_checked rows members x keyed inside free at chosen =
    let (m, listed, same) = has-true (λ (r : Reservation). r.id == x.id) members chosen in
    let e = keyed m x (inside m listed) at ((eq_iff m.id x.id).0 same) in
    let ok_m = has-false (blocked_by guest_cancel_statuses) members free listed in
    subst (λ r. status_in guest_cancel_statuses r.status ≡ true) e (unblocked m ok_m)
  where
    unblocked :
        (m : Reservation)
        → blocked_by guest_cancel_statuses m ≡ false
        → status_in guest_cancel_statuses m.status ≡ true
    unblocked m h = ground arith

pub cancel_guest_reservation-Preserves :
    (client : Client) (n : Normalizer) (now : ℕ) (reservation_id : String) (contact : Contact)
    (db : Db)
    → Ensures
        (cancel_guest_reservation client n now reservation_id contact)
        db
        (λ _ out. Preserves db.reservations out.reservations)
unfolding cancel_guest_reservation
cancel_guest_reservation-Preserves client n now reservation_id contact db =
    ensures_read_one client _ _ _ λ r at named. ensures_throw_if _ _ _ λ mine.
      ensures_bind _ _ _ (members_of-rows client r none (truthy r.reservation_group_id) db)
        λ members mid found. ensures_throw_if _ _ _ λ free. ensures_throw_if _ _ _ λ early.
          let mem =
            group_rows-mem client db.reservations r none (truthy r.reservation_group_id) at in
          let inside : (m : Reservation) → Memᴰ m members → Memᴰ m mid.reservations = λ m t.
            subst (λ (d : Db). Memᴰ m d.reservations) (sym found.0)
              (mem m (subst (Memᴰ m) found.1 t)) in
          let chosen = λ (row : Reservation). is_member members row.id in
          ensures_update_many client chosen (called_off now) _ (
            ensures_bind _ _ _
              (for_each-Same (release_storage_if_any client now) (release-Same client now) members
                _)
              λ v out same. ensures_pure _ (
                carried db mid
                  (record mid { reservations = patch chosen (called_off now) mid.reservations }) out
                  found.0
                  (λ inv.
                    patch-Preserves chosen (called_off now) mid.reservations
                      (λ x m e.
                        called_off-Keeps now x
                          (member_checked mid.reservations members x inv.keyed inside free m e))
                      inv)
                  same))
