-- ===== src/Guest/Cleanup/Preservation.antt =====
-- `cleanupExpiredReservations` against the invariant of the reservations.
use lit_server_nest.Prelude.{ℕ, true, List, [], ◌∷◌, ◌≡◌, arith}
use lit_server_nest.Reservation.{Reservation, Db, is_status}
use lit_server_nest.Tx.{Client}
use lit_server_nest.Tx.Ensures.{
  Ensures, ensures_pure, ensures_read_many, ensures_update_storages, ensures_done_update_many,
}
use lit_server_nest.ReservationStorage.{release}
use lit_server_nest.Lifecycle.{Preserves}
use lit_server_nest.Lifecycle.Patches.{Keeps, patch-Preserves, Preserves-refl}
use lit_server_nest.AutoComplete.{storage_ids_of, among}
use lit_server_nest.Guest.Cancel.{called_off}
use lit_server_nest.Guest.Cleanup.{clean_up, cleanup_expired_reservations, cleaned_where}

called_off-Keeps :
    (now : ℕ) (expiring : List Reservation) (x : Reservation)
    → cleaned_where expiring x ≡ true
    → Keeps x (called_off now x)
unfolding is_status
called_off-Keeps now expiring x h = ground arith

module _ (client : Client) (now : ℕ) (db : Db) where
  clean_up-Preserves :
      (expiring : List Reservation)
      → Ensures
          (clean_up client now expiring)
          db
          (λ _ out. Preserves db.reservations out.reservations)
  unfolding clean_up
  clean_up-Preserves [] = ensures_pure _ (Preserves-refl db.reservations)
  clean_up-Preserves (r ∷ rs) =
      ensures_update_storages client (λ storage. among (storage_ids_of (r ∷ rs)) storage.id)
        (release now) _
        λ n. ensures_done_update_many client (cleaned_where (r ∷ rs)) (called_off now) (
          patch-Preserves (cleaned_where (r ∷ rs)) (called_off now) db.reservations
            (λ x m e. called_off-Keeps now (r ∷ rs) x e))

  pub cleanup-Preserves :
      Ensures
        (cleanup_expired_reservations client now)
        db
        (λ _ out. Preserves db.reservations out.reservations)
  unfolding cleanup_expired_reservations
  cleanup-Preserves = ensures_read_many client _ _ (clean_up-Preserves _)
