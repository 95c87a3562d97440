-- ===== src/ReservationStorage/Assignment.antt =====
-- `findStorageForReservation` against a description of the storages it may choose.
use lit_server_nest.Prelude.{
  ℕ, true, false, Option, none, some, List, String, ◌≡◌, ◌⊎◌, Memᴰ, has-false, eq_refl, eq_iff,
  arith, refl, ok, inl, inr,
}
use lit_server_nest.Reservation.{
  Reservation, Storage, StorageType, Db, confirmed, in_progress, is_type, is_not_maintenance,
}
use lit_server_nest.Pricing.{normalize_storage_assignment_type}
use lit_server_nest.Lifecycle.{is_active, overlap, hours_meet}
use lit_server_nest.Tx.{Client}
use lit_server_nest.ReservationStorage.{
  StorageParams, takes, candidate_where, overlapping_reservation_where,
  find_storage_for_reservation,
}

-- A reservation with these hours.
abbrev pub HasHours : StorageParams → Reservation → Type 0
HasHours p r = (r.start_time ≡ p.start_time) × (r.end_time ≡ p.end_time)

-- No confirmed or in-progress reservation of the storage meets the hours.
abbrev pub IsFree : List Reservation → Reservation → String → Type 0
IsFree rows r key =
    (b : Reservation)
    → Memᴰ b rows
    → (b.status ≡ some confirmed) ⊎ (b.status ≡ some in_progress)
    → b.storage_id ≡ some key
    → overlap r b ≡ false

blocks-is_active :
    (b : Reservation)
    → (b.status ≡ some confirmed) ⊎ (b.status ≡ some in_progress)
    → is_active b ≡ true
unfolding is_active
blocks-is_active b (inl e) = rw e refl
blocks-is_active b (inr e) = rw e refl

pub is_active-blocks :
    (b : Reservation)
    → is_active b ≡ true
    → (b.status ≡ some confirmed) ⊎ (b.status ≡ some in_progress)
unfolding is_active
is_active-blocks b h = ground arith

meets :
    (start : ℕ) (end : Option ℕ) (r b : Reservation)
    → r.start_time ≡ start
    → r.end_time ≡ end
    → is_active b ≡ true
    → overlapping_reservation_where start end b ≡ false
    → overlap r b ≡ false
unfolding is_active overlapping_reservation_where overlap hours_meet
meets start end r b p q act h = ground arith

candidate-IsFree :
    (p : StorageParams) (rows : List Reservation) (storage : Storage) (r : Reservation)
    → HasHours p r
    → candidate_where p rows storage ≡ true
    → IsFree rows r storage.id
unfolding candidate_where
candidate-IsFree p rows storage r hours c b m act s =
    let none_meets = has-false (takes p storage) rows (ground arith) m in
    meets p.start_time p.end_time r b hours.0 hours.1 (blocks-is_active b act)
      (ground (arith, none_meets, eq_refl storage.id))

-- What the code asks of a storage: the store's own, usable, of the assignment size, and free.
pub record Suitable (rows : List Reservation) (p : StorageParams) (r : Reservation) (t : Storage)
    : Type 0 where
  pub own : t.store_id ≡ p.store_id
  pub usable : is_not_maintenance t.status ≡ true
  pub size : t.type ≡ normalize_storage_assignment_type p.storage_type
  pub free : IsFree rows r t.id

is_type_sound : (t u : StorageType) → is_type t u ≡ true → t ≡ u
unfolding is_type
is_type_sound t u h = ground arith

candidate-Suitable :
    (p : StorageParams) (rows : List Reservation) (r : Reservation) (t : Storage)
    → HasHours p r
    → candidate_where p rows t ≡ true
    → Suitable rows p r t
unfolding candidate_where
candidate-Suitable p rows r t hours c = record {
  own = (eq_iff t.store_id p.store_id).0 (ground arith);
  usable = ground arith;
  size = is_type_sound t.type (normalize_storage_assignment_type p.storage_type) (ground arith);
  free = candidate-IsFree p rows t r hours c;
}

module _ (client : Client) (p : StorageParams) (db : Db) where
  -- The answer to the question for a storage.
  abbrev pub IsFirstSuitable : Reservation → Option Storage → Type 0
  IsFirstSuitable r none = (t : Storage) → Memᴰ t db.storages → ¬ Suitable db.reservations p r t
  IsFirstSuitable r (some t) =
      Memᴰ t db.storages
      × Suitable db.reservations p r t
      × ((u : Storage)
          → Memᴰ u db.storages
          → Suitable db.reservations p r u
          → client.storages.collates t.number u.number ≡ true)

  -- Looking for a storage changes nothing.
  pub find_storage_unchanged :
      (found : Option Storage) (mid : Db)
      → find_storage_for_reservation client p db ≡ ok (found, mid)
      → (mid ≡ db) × (find_storage_for_reservation client p db ≡ ok (found, db))
  unfolding find_storage_for_reservation
  find_storage_unchanged found mid e = (cc, cc)

  pub find_storage-Suitable :
      (r : Reservation) (t : Storage)
      → HasHours p r
      → find_storage_for_reservation client p db ≡ ok (some t, db)
      → Memᴰ t db.storages × Suitable db.reservations p r t
  unfolding find_storage_for_reservation
  find_storage-Suitable r t hours e =
      let (m, c) =
        client.storages.find_first_by-some (λ u. u.number) (candidate_where p db.reservations)
          db.storages t (cc) in
      (m, candidate-Suitable p db.reservations r t hours c)
