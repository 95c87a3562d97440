-- ===== src/NoShow/Preservation.antt =====
-- `markNoShow` against the invariant of the reservations.
use lit_server_nest.Prelude.{ℕ, true, Option, String, ◌≡◌, ap, arith}
use lit_server_nest.Reservation.{Reservation, Db, status_in, no_show_from_statuses, is_status}
use lit_server_nest.Tx.{Client}
use lit_server_nest.Tx.Ensures.{Ensures, ensures_pure, ensures_bind, ensures_throw_if}
use lit_server_nest.ReservationStorage.{release_storage_if_any}
use lit_server_nest.ReservationStorage.Occupancy.{release_lem}
use lit_server_nest.Lifecycle.{Preserves}
use lit_server_nest.Lifecycle.Patches.{Keeps}
use lit_server_nest.Group.Preservation.{
  Same, carried, for_each-Same, resolve_group-Resolved, swap_group-Preserves,
}
use lit_server_nest.NoShow.{mark_no_show, absent}

absent-Keeps :
    (now : ℕ) (x : Reservation)
    → status_in no_show_from_statuses x.status ≡ true
    → Keeps x (absent now x)
unfolding is_status
absent-Keeps now x h = ground arith

pub release-Same :
    (client : Client) (now : ℕ) (db : Db) (o : Option String)
    → Ensures (release_storage_if_any client now o) db (Same db)
release-Same client now db o = record {
  holds = λ u out e. ap (λ (d : Db). d.reservations) ((release_lem client now db o).holds u out e);
}

pub mark_no_show-Preserves :
    (client : Client) (now : ℕ) (reservation_id : String) (store_id : Option String) (db : Db)
    → Ensures
        (mark_no_show client now reservation_id store_id)
        db
        (λ _ out. Preserves db.reservations out.reservations)
unfolding mark_no_show
mark_no_show-Preserves client now reservation_id store_id db =
    ensures_bind _ _ _ (resolve_group-Resolved client reservation_id store_id db)
      λ found mid resolved. ensures_throw_if _ _ _ λ free. ensures_throw_if _ _ _ λ late.
        ensures_bind _ _ _
          (swap_group-Preserves client found.1 no_show_from_statuses (absent now) mid
            (absent-Keeps now))
          λ u swapped kept.
            ensures_bind _ _ _
              (for_each-Same (release_storage_if_any client now) (release-Same client now) found.1
                swapped)
              λ v out same. ensures_pure _ (carried db mid swapped out resolved.0 kept same)
