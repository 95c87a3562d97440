-- ===== src/ReservationStorage/Occupancy.antt =====
-- What check-in and check-out do to the storages.
use lit_server_nest.Prelude.{
  ℕ, Bool, ◌&&◌, Option, none, some, ◌≡◌, refl, sym, subst, String, ◌==◌, patch, List,
}
use lit_server_nest.Reservation.{Storage, Db, is_available}
use lit_server_nest.Tx.{Client, Tx, ◌>>=◌, when, truthy}
use lit_server_nest.Tx.Ensures.{
  Ensures, ensures_bind, ensures_pure, ensures_when, ensures_update_storages,
}
use lit_server_nest.Tx.Inversion.{update_storage-eq-ok}
use lit_server_nest.ReservationStorage.{
  occupy, release, occupy_named, release_named, occupy_storage_if_any, release_storage_if_any,
}

-- The storages after each of the two operations.
unfoldable pub occupied_storages : ℕ → Option String → List Storage → List Storage
occupied_storages now none rows = rows
occupied_storages now (some key) rows =
    patch (λ r. r.id == key && is_available r.status) (occupy now) rows

unfoldable pub released_storages : ℕ → Option String → List Storage → List Storage
released_storages now none rows = rows
released_storages now (some key) rows = patch (λ r. r.id == key) (release now) rows

module _ (client : Client) (now : ℕ) where
  named_occupied :
      (db : Db) (o : Option String)
      → Ensures
          (occupy_named client now o)
          db
          (λ _ out. out ≡ record db { storages = occupied_storages now o db.storages })
  unfolding occupy_named occupied_storages
  named_occupied db none = ensures_pure tt refl
  named_occupied db (some key) = ensures_update_storages client _ _ _ (λ n. ensures_pure tt refl)

  named_released :
      (db : Db) (o : Option String)
      → Ensures
          (release_named client now o)
          db
          (λ _ out. out ≡ record db { storages = released_storages now o db.storages })
  unfolding release_named released_storages
  named_released db none = ensures_pure tt refl
  named_released db (some key) = record {
    holds = λ u out e. update_storage-eq-ok client key (release now) db e;
  }

  -- Occupying changes the storages alone.
  pub occupy_lem :
      (db : Db) (storage_id : Option String)
      → Ensures (occupy_storage_if_any client now storage_id) db (λ _ out.
        out ≡ record db { storages = occupied_storages now (truthy storage_id) db.storages })
  unfolding occupy_storage_if_any
  occupy_lem db storage_id = named_occupied db (truthy storage_id)

  pub release_lem :
      (db : Db) (storage_id : Option String)
      → Ensures (release_storage_if_any client now storage_id) db (λ _ out.
        out ≡ record db { storages = released_storages now (truthy storage_id) db.storages })
  unfolding release_storage_if_any
  release_lem db storage_id = named_released db (truthy storage_id)

  module _ {ℓ} {A : Type ℓ} {Q : A → Db → Type 0} {db : Db} where
    pub ensures_occupy :
        (storage_id : Option String) (k : Unit {0} → Tx A)
        → Ensures
            (k tt)
            (record db { storages = occupied_storages now (truthy storage_id) db.storages })
            Q
        → Ensures (occupy_storage_if_any client now storage_id >>= k) db Q
    ensures_occupy storage_id k rest =
        ensures_bind _ _ k (occupy_lem db storage_id)
          λ u mid same. subst (λ d. Ensures (k tt) d Q) (sym same) rest

    pub ensures_release :
        (storage_id : Option String) (k : Unit {0} → Tx A)
        → Ensures
            (k tt)
            (record db { storages = released_storages now (truthy storage_id) db.storages })
            Q
        → Ensures (release_storage_if_any client now storage_id >>= k) db Q
    ensures_release storage_id k rest =
        ensures_bind _ _ k (release_lem db storage_id)
          λ u mid same. subst (λ d. Ensures (k tt) d Q) (sym same) rest

    -- Under a condition, whatever the storages are then.
    pub ensures_when_occupy :
        (c : Bool) (storage_id : Option String) (k : Unit {0} → Tx A)
        → ((rows : List Storage) → Ensures (k tt) (record db { storages = rows }) Q)
        → Ensures (when c (occupy_storage_if_any client now storage_id) >>= k) db Q
    ensures_when_occupy c storage_id k rest =
        ensures_when c _ k (ensures_occupy storage_id k (rest _)) (rest db.storages)

    pub ensures_when_release :
        (c : Bool) (storage_id : Option String) (k : Unit {0} → Tx A)
        → ((rows : List Storage) → Ensures (k tt) (record db { storages = rows }) Q)
        → Ensures (when c (release_storage_if_any client now storage_id) >>= k) db Q
    ensures_when_release c storage_id k rest =
        ensures_when c _ k (ensures_release storage_id k (rest _)) (rest db.storages)
