-- ===== src/OwnerActions/Preservation.antt =====
-- The owner's links against the invariant of the reservations.
use lit_server_nest.Prelude.{ℕ, true, Option, none, List, String, ◌≡◌, ap, arith}
use lit_server_nest.Reservation.{
  Reservation, Db, Status, status_in, is_status, in_progress, completed,
}
use lit_server_nest.Tx.{Client}
use lit_server_nest.Tx.Ensures.{Ensures, ensures_pure, ensures_bind, ensures_throw_if}
use lit_server_nest.ReservationStorage.Occupancy.{occupy_lem}
use lit_server_nest.Lifecycle.{Preserves}
use lit_server_nest.Lifecycle.Patches.{Keeps}
use lit_server_nest.Group.Preservation.{
  Same, carried, for_each-Same, resolve_group-Resolved, swap_group-Preserves,
}
use lit_server_nest.NoShow.Preservation.{release-Same, mark_no_show-Preserves}
use lit_server_nest.OwnerActions.{
  StorageAction, occupying, releasing, act_on_storage, transition_in_tx, check_in, check_out,
  owner_no_show, arrived, picked_up, check_in_from, check_out_from,
}

pub act_on_storage-Same :
    (client : Client) (now : ℕ) (action : StorageAction) (db : Db) (o : Option String)
    → Ensures (act_on_storage client now action o) db (Same db)
unfolding act_on_storage
act_on_storage-Same client now occupying db o = record {
  holds = λ u out e. ap (λ (d : Db). d.reservations) ((occupy_lem client now db o).holds u out e);
}
act_on_storage-Same client now releasing db o = release-Same client now db o

arrived-Keeps :
    (now : ℕ) (rep x : Reservation)
    → status_in check_in_from x.status ≡ true
    → Keeps x (arrived now rep x)
unfolding is_status
arrived-Keeps now rep x h = ground arith

picked_up-Keeps :
    (now : ℕ) (rep x : Reservation)
    → status_in check_out_from x.status ≡ true
    → Keeps x (picked_up now rep x)
unfolding is_status
picked_up-Keeps now rep x h = ground arith

module _ (client : Client) (now : ℕ) (reservation_id : String) (db : Db) where
  transition-Preserves :
      (allowed_from : List Status) (next : Status)
      (build_data : Reservation → Reservation → Reservation) (action : StorageAction)
      → ((rep x : Reservation)
          → status_in allowed_from x.status ≡ true
          → Keeps x (build_data rep x))
      → Ensures
          (transition_in_tx client now reservation_id allowed_from next build_data action)
          db
          (λ _ out. Preserves db.reservations out.reservations)
  unfolding transition_in_tx
  transition-Preserves allowed_from next build_data action keeps =
      ensures_bind _ _ _ (resolve_group-Resolved client reservation_id none db)
        λ found mid resolved. ensures_throw_if _ _ _ λ free.
          ensures_bind _ _ _
            (swap_group-Preserves client found.1 allowed_from (build_data found.0) mid
              (keeps found.0))
            λ u swapped kept.
              ensures_bind _ _ _
                (for_each-Same (act_on_storage client now action)
                  (act_on_storage-Same client now action) found.1 swapped)
                λ v out same. ensures_pure _ (carried db mid swapped out resolved.0 kept same)

  pub check_in-Preserves :
      Ensures
        (check_in client now reservation_id)
        db
        (λ _ out. Preserves db.reservations out.reservations)
  unfolding check_in
  check_in-Preserves =
      ensures_bind _ _ _
        (transition-Preserves check_in_from in_progress (arrived now) occupying (arrived-Keeps now))
        λ p out kept. ensures_pure _ kept

  pub check_out-Preserves :
      Ensures
        (check_out client now reservation_id)
        db
        (λ _ out. Preserves db.reservations out.reservations)
  unfolding check_out
  check_out-Preserves =
      ensures_bind _ _ _
        (transition-Preserves check_out_from completed (picked_up now) releasing
          (picked_up-Keeps now))
        λ p out kept. ensures_pure _ kept

  pub owner_no_show-Preserves :
      Ensures
        (owner_no_show client now reservation_id)
        db
        (λ _ out. Preserves db.reservations out.reservations)
  unfolding owner_no_show
  owner_no_show-Preserves = mark_no_show-Preserves client now reservation_id none db
