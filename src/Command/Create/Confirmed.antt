-- ===== src/Command/Create/Confirmed.antt =====
-- What the creation of a reservation (`createStoreReservation`, `createCustomerReservation`) returns
-- and leaves in the tables.
use lit_server_nest.Prelude.{
  ℕ, ◌<◌, Bool, true, false, leb, Option, none, some, List, [], ◌∷◌, ◌++◌, String, ◌==◌, ◌≡◌, ◌≢◌,
  refl, ap, ◌∙◌, Result, ok, Memᴰ, mem-append, has, patch, Option-cases, Bool-cases, inl, inr,
  eq_iff, eq_refl, arith, get_or,
}
use lit_server_nest.Reservation.{Reservation, StorageType, Db, confirmed}
use lit_server_nest.Status.{assert_can_approve}
use lit_server_nest.Pricing.{normalize_storage_assignment_type, calculate_total_amount}
use lit_server_nest.Pricing.Amounts.{priced}
use lit_server_nest.Tx.{pure, stored, Client, ◌>>=◌, truthy}
use lit_server_nest.ReservationStorage.{find_storage_for_reservation, candidate_where}
use lit_server_nest.Command.{
  StatusResponse, approve_reservation, choose_storage, storage_for, approved, assigned_pair,
  hours_of, owned_by_store,
}
use lit_server_nest.Command.Create.{
  CreateReservationDto, new_reservation, create_and_approve, create_in_store,
  create_store_reservation, create_customer_reservation, Committed, StoreRow, create_for_store,
  create_for_customer, create_if_exists, assert_store_exists, store_of, end_of,
}

-- No row has the id.
abbrev pub IsFresh : List Reservation → String → Type 0
IsFresh rows key = (r : Reservation) → Memᴰ r rows → r.id ≢ key

pub in_singleton : (x y : Reservation) → Memᴰ y (x ∷ []) → y ≡ x
in_singleton x y (Memᴰ.head e) = e
in_singleton x y (Memᴰ.tail m) = elim m [ ]

last-mem : (rows : List Reservation) (x : Reservation) → Memᴰ x (rows ++ x ∷ [])
last-mem [] x = Memᴰ.head refl
last-mem (y ∷ rows) x = Memᴰ.tail (last-mem rows x)

unlike : (a b : String) → a ≢ b → (a == b) ≡ false
unlike a b h = elim (Bool-cases (a == b)) [ inl e ↦ absurd (h ((eq_iff a b).0 e)) | inr e ↦ e ]

patch-new :
    (rows : List Reservation) (x : Reservation) (f : Reservation → Reservation)
    → IsFresh rows x.id
    → patch (λ r. r.id == x.id) f (rows ++ x ∷ []) ≡ rows ++ f x ∷ []
patch-new [] x f h = rw (eq_refl x.id) refl
patch-new (y ∷ rows) x f h =
    rw (unlike y.id x.id (h y (Memᴰ.head refl)), patch-new rows x f (λ r m. h r (Memᴰ.tail m))) refl

has-new :
    (rows : List Reservation) (x : Reservation) → has (λ r. r.id == x.id) (rows ++ x ∷ []) ≡ true
has-new [] x = rw (eq_refl x.id) refl
has-new (y ∷ rows) x = ground (arith, has-new rows x)

module _ (client : Client) (rows : List Reservation) where
  find_first-new :
      (cond : Reservation → Bool) (x : Reservation)
      → IsFresh rows x.id
      → cond x ≡ true
      → ((r : Reservation) → cond r ≡ true → r.id ≡ x.id)
      → client.reservations.find_first cond (rows ++ x ∷ []) ≡ some x
  find_first-new cond x fresh hit key =
      elim (Option-cases (client.reservations.find_first cond (rows ++ x ∷ []))) [
        | inl e ↦
            cc
              (client.reservations.find_first-none cond (rows ++ x ∷ []) e x (last-mem rows x), hit)
        | inr (r, e) ↦
            let (m, q) = client.reservations.find_first-some cond (rows ++ x ∷ []) r e in
            e
            ∙ ap some (elim (mem-append rows (x ∷ []) m) [
              | inl old ↦ absurd (fresh r old (key r q))
              | inr new ↦ in_singleton x r new
            ])
      ]

own :
    (store_id key : String) (x : Reservation)
    → x.store_id ≡ store_id
    → x.id ≡ key
    → owned_by_store store_id key x ≡ true
own store_id key x p q = rw (p, q, eq_refl store_id, eq_refl key) refl

own_id :
    (store_id key : String) (r : Reservation) → owned_by_store store_id key r ≡ true → r.id ≡ key
own_id store_id key r h = (eq_iff r.id key).0 (ground arith)

-- The columns that approval gives to a new row.
abbrev pub given_storage : Client → Db → Reservation → StorageType → Option String × Option String
given_storage client db x type = assigned_pair (
    client.storages.find_first_by (λ t. t.number)
      (candidate_where (hours_of x.store_id x type) (db.reservations ++ x ∷ [])) db.storages)

module _ (client : Client) (now : ℕ) (db : Db) (id store_id customer_id : String)
    (dto : CreateReservationDto) (fresh : IsFresh db.reservations id) where
  abbrev pub row : Reservation
  row = new_reservation now id store_id customer_id dto

  abbrev pub type : StorageType
  type = normalize_storage_assignment_type dto.storage_type

  abbrev pub row_approved : Reservation
  row_approved =
      approved now row (given_storage client db row type).0 (given_storage client db row type).1 row

  abbrev pub response : StatusResponse
  response = record {
    id = id;
    status = confirmed;
    storage_id = (given_storage client db row type).0;
    storage_number = (given_storage client db row type).1;
    photos = [];
  }

  written :
      client.reservations.update
        (λ r. r.id == id)
        (approved now row (given_storage client db row type).0 (given_storage client db row type).1)
        (db.reservations ++ row ∷ [])
      ≡ some (db.reservations ++ row_approved ∷ [])
  unfolding new_reservation
  written =
      let f =
        approved now row (given_storage client db row type).0
          (given_storage client db row type).1 in
      client.reservations.update_lem (λ r. r.id == id) f (db.reservations ++ row ∷ [])
      ∙ rw (has-new db.reservations row, patch-new db.reservations row f fresh) refl

  -- The end of the approval, from what the update returns.
  finish : Option (List Reservation) → Result (StatusResponse × Db)
  finish o =
      ((λ (d : Db). stored (λ rows. record d { reservations = rows }) o) >>= (λ _. pure response))
        (record db { reservations = db.reservations ++ row ∷ [] })

  -- The approval of the new row.
  pub approves_new :
      approve_reservation client now store_id id
        (record db { reservations = client.reservations.create_many (row ∷ []) db.reservations })
      ≡ ok (response, record db { reservations = db.reservations ++ row_approved ∷ [] })
  unfolding approve_reservation choose_storage storage_for assert_can_approve
      find_storage_for_reservation new_reservation finish ◌>>=◌
  approves_new =
      rw
        (
          client.reservations.create_many_lem (row ∷ []) db.reservations,
          find_first-new client db.reservations (owned_by_store store_id id) row fresh
              (own store_id id row refl refl) (own_id store_id id),
        )
        (ap finish written)

  pub creates_confirmed :
      create_and_approve client now row db
      ≡ (ok row_approved, record db { reservations = db.reservations ++ row_approved ∷ [] })
  unfolding create_and_approve new_reservation
  creates_confirmed =
      rw
        (
          create_and_approve,
          approves_new,
          find_first-new client db.reservations (λ q. q.id == id) row_approved fresh (eq_refl id)
              (λ r h. (eq_iff r.id id).0 h),
        )
        refl

-- The request has become one confirmed row at the end of the table.
pub record Created (id store_id customer_id : String) (dto : CreateReservationDto) (db : Db)
    (result : Committed Reservation) : Type 0 where
  pub created : Reservation
  pub returned : result ≡ (ok created, record db { reservations = db.reservations ++ created ∷ [] })
  pub is_confirmed : created.status ≡ some confirmed
  pub own_id : created.id ≡ id
  pub own_store : created.store_id ≡ store_id
  pub own_customer : created.customer_id ≡ some customer_id
  pub own_hours : (created.start_time ≡ dto.start_time) × (created.end_time ≡ some (end_of dto))
  pub amount :
      created.total_amount
      ≡ calculate_total_amount (
          priced
            (normalize_storage_assignment_type dto.storage_type)
            dto.bag_count
            dto.start_time
            (end_of dto))

module _ (client : Client) (now : ℕ) (id : String) (dto : CreateReservationDto) (db : Db)
    (fresh : IsFresh db.reservations id) (valid : dto.start_time < end_of dto) where
  create_in_store-Created :
      (store_id customer_id : String)
      → Created id store_id customer_id dto db
          (create_in_store client now id store_id customer_id dto db)
  unfolding create_in_store new_reservation
  create_in_store-Created store_id customer_id =
      let later : leb (end_of dto) dto.start_time ≡ false = ground arith in
      record {
        created = row_approved client now db id store_id customer_id dto fresh;
        returned = rw later (creates_confirmed client now db id store_id customer_id dto fresh);
        is_confirmed = refl;
        own_id = refl;
        own_store = refl;
        own_customer = refl;
        own_hours = (refl, refl);
        amount = refl;
      }

  -- With no other request between its two commits, under a new id and with an end after its start,
  -- a request of a store (the authenticated one, or else the one that is named) always ends as one
  -- confirmed reservation at the end of the table, whether a storage is free or not, with the
  -- price of its size, bags and hours; all other rows stay.
  pub create_store_reservation-Created :
      (generated_customer_id authenticated store_id : String)
      → store_of authenticated dto ≡ some store_id
      → Created id store_id
          (get_or dto.customer_id generated_customer_id)
          dto
          db
          (create_store_reservation client now id generated_customer_id authenticated dto db)
  unfolding create_store_reservation create_for_store
  create_store_reservation-Created generated_customer_id authenticated store_id named =
      rw (create_store_reservation, named)
        (create_in_store-Created store_id (get_or dto.customer_id generated_customer_id))

  -- With no other request between its two commits, under a new id and with an end after its start,
  -- a request of a customer for a store that exists and is not closed always ends as one confirmed
  -- reservation at the end of the table, whether a storage is free or not, with the price of its
  -- size, bags and hours; all other rows stay.
  pub create_customer_reservation-Created :
      (customer_id store_id : String) (store : StoreRow)
      → truthy dto.store_id ≡ some store_id
      → store.closed_at ≡ none
      → Created id store_id customer_id dto db
          (create_customer_reservation client now id (some store) customer_id dto db)
  unfolding create_customer_reservation create_for_customer create_if_exists assert_store_exists
  create_customer_reservation-Created customer_id store_id store named open_ =
      rw (create_customer_reservation, create_for_customer, assert_store_exists, named, open_)
        (create_in_store-Created store_id customer_id)
