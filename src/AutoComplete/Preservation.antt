-- ===== src/AutoComplete/Preservation.antt =====
-- The hourly job (`autoCompleteOverdue`) against the invariant of the reservations.
use lit_server_nest.Prelude.{ℕ, true, List, [], ◌∷◌, ◌≡◌, arith}
use lit_server_nest.Reservation.{Reservation, Db, is_status}
use lit_server_nest.Tx.{Client}
use lit_server_nest.Tx.Ensures.{
  Ensures, ensures_pure, ensures_read_many, ensures_update_storages, ensures_done_update_many,
}
use lit_server_nest.ReservationStorage.{release}
use lit_server_nest.Lifecycle.{Preserves}
use lit_server_nest.Lifecycle.Patches.{Keeps, patch-Preserves, Preserves-refl}
use lit_server_nest.AutoComplete.{
  sweep, auto_complete_overdue, swept_where, auto_completed, among, storage_ids_of, sweep_any,
}

auto_completed-Keeps :
    (now : ℕ) (overdue : List Reservation) (x : Reservation)
    → swept_where overdue x ≡ true
    → Keeps x (auto_completed now x)
unfolding is_status
auto_completed-Keeps now overdue x h = ground arith

module _ (client : Client) (now : ℕ) (db : Db) where
  sweep-Preserves :
      (overdue : List Reservation)
      → Ensures (sweep client now overdue) db (λ _ out. Preserves db.reservations out.reservations)
  unfolding sweep
  sweep-Preserves overdue =
      ensures_update_storages client (λ storage. among (storage_ids_of overdue) storage.id)
        (release now) _
        λ n. ensures_done_update_many client (swept_where overdue) (auto_completed now) (
          patch-Preserves (swept_where overdue) (auto_completed now) db.reservations
            (λ x m e. auto_completed-Keeps now overdue x e))

  sweep_any-Preserves :
      (overdue : List Reservation)
      → Ensures
          (sweep_any client now overdue)
          db
          (λ _ out. Preserves db.reservations out.reservations)
  unfolding sweep_any
  sweep_any-Preserves [] = ensures_pure _ (Preserves-refl db.reservations)
  sweep_any-Preserves (r ∷ rs) = sweep-Preserves (r ∷ rs)

  pub auto_complete_overdue-Preserves :
      Ensures
        (auto_complete_overdue client now)
        db
        (λ _ out. Preserves db.reservations out.reservations)
  unfolding auto_complete_overdue
  auto_complete_overdue-Preserves = ensures_read_many client _ _ (sweep_any-Preserves _)
