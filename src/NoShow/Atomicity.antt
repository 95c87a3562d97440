-- ===== src/NoShow/Atomicity.antt =====
-- What `markNoShow` does to the group of a reservation.
use lit_server_nest.Prelude.{
  ℕ, ◌≤◌, false, some, List, [], ◌∷◌, Option, String, ◌≡◌, arith, ltb, ok,
}
use lit_server_nest.Reservation.{
  Db, Reservation, pending, pending_approval, confirmed, no_show, no_show_from_statuses,
}
use lit_server_nest.Tx.{Client}
use lit_server_nest.Tx.Ensures.{Ensures, ensures_pure, ensures_bind, ensures_throw_if}
use lit_server_nest.ReservationStorage.{release_storage_if_any}
use lit_server_nest.Group.Preservation.{for_each-Same, resolve_group-Resolved}
use lit_server_nest.Group.Atomicity.{Keyed, GroupChanged, resolved_swap, resolved_changed}
use lit_server_nest.NoShow.{GroupResult, mark_no_show, absent}
use lit_server_nest.NoShow.Preservation.{release-Same}

-- The group has changed as a whole, after its representative has begun.
pub record MarkedNoShow (client : Client) (now : ℕ) (reservation_id : String)
    (store_id : Option String) (db : Db) (result : GroupResult) (out : Db) : Type 0 where
  pub representative : Reservation
  pub members : List Reservation
  pub change :
      GroupChanged client reservation_id store_id
        (pending ∷ pending_approval ∷ confirmed ∷ [])
        (λ _ row. record row { status = some no_show; updated_at = some now })
        db
        representative
        members
        result.updated_count
        out
  pub started : representative.start_time ≤ now

passed : (now start : ℕ) → ltb now start ≡ false → start ≤ now
passed now start h = ground arith

marked :
    (client : Client) (now : ℕ) (reservation_id : String) (store_id : Option String) (db : Db)
    → Keyed db.reservations
    → Ensures
        (mark_no_show client now reservation_id store_id)
        db
        (MarkedNoShow client now reservation_id store_id db)
unfolding mark_no_show
marked client now reservation_id store_id db keyed =
    ensures_bind _ _ _ (resolve_group-Resolved client reservation_id store_id db)
      λ found mid resolved. ensures_throw_if _ _ _ λ free. ensures_throw_if _ _ _ λ late.
        ensures_bind _ _ _
          (resolved_swap client reservation_id store_id no_show_from_statuses (λ _. absent now) db
            mid found.0 found.1 resolved free keyed)
          λ u swapped exact.
            ensures_bind _ _ _
              (for_each-Same (release_storage_if_any client now) (release-Same client now) found.1
                swapped)
              λ v out same. ensures_pure _ (record {
                representative = found.0;
                members = found.1;
                change =
                    resolved_changed client reservation_id store_id no_show_from_statuses
                      (λ _. absent now) db mid found.0 found.1 resolved free swapped out exact same;
                started = passed now found.0.start_time late;
              })

-- Where the ids are a key, a no-show that succeeds concerns the group of the reservation that was
-- asked for (in the given store, if one is given): its representative has begun, every member was
-- pending, awaiting approval or confirmed, exactly the members get the status of a no-show and the
-- current time as their last change, nothing else of any row changes, and the result counts them.
pub mark_no_show-exact :
    (client : Client) (now : ℕ) (reservation_id : String) (store_id : Option String) (db : Db)
    → Keyed db.reservations
    → (result : GroupResult) (out : Db)
    → mark_no_show client now reservation_id store_id db ≡ ok (result, out)
    → MarkedNoShow client now reservation_id store_id db result out
mark_no_show-exact client now reservation_id store_id db keyed =
    (marked client now reservation_id store_id db keyed).holds
