-- ===== src/Command/Create/Preservation.antt =====
-- The creation of a reservation against the invariant of the reservations.
use lit_server_nest.Prelude.{
  ℕ, leb, Option, none, some, [], ◌∷◌, ◌++◌, String, ◌≡◌, refl, sym, subst, ap, ◌∙◌, Memᴰ,
  mem-append, Bool-cases, inl, inr, Result, ok, err,
}
use lit_server_nest.Reservation.{Reservation, Db}
use lit_server_nest.Status.Graph.{stage}
use lit_server_nest.Tx.{Client}
use lit_server_nest.Lifecycle.{Preserves}
use lit_server_nest.Lifecycle.Patches.{Preserves-refl, Evolves-trans}
use lit_server_nest.Lifecycle.Assigning.{append-Preserves}
use lit_server_nest.Command.{approve_reservation}
use lit_server_nest.Command.Approval.{approve_reservation-Preserves}
use lit_server_nest.Command.Create.{
  CreateReservationDto, insert_row, new_reservation, create_in_store, create_for_store,
  create_for_customer, create_if_exists, assert_store_exists, StoreRow, end_of,
}
use lit_server_nest.Command.Create.Confirmed.{
  IsFresh, in_singleton, row, row_approved, response, approves_new, creates_confirmed,
}

module _ (client : Client) (now : ℕ) (db : Db) (id store_id customer_id : String)
    (dto : CreateReservationDto) (fresh : IsFresh db.reservations id) where
  abbrev new_row : Reservation
  new_row = row client now db id store_id customer_id dto fresh

  new_row-waits :
      (a : Reservation) → Memᴰ a (new_row ∷ []) → (stage a.status ≡ 0) × (a.storage_id ≡ none)
  unfolding new_reservation
  new_row-waits a m = rw (in_singleton new_row a m) (refl, refl)

  new_row-id : new_row.id ≡ id
  unfolding new_reservation
  new_row-id = refl

  new_row-fresh :
      (a b : Reservation)
      → Memᴰ a (new_row ∷ [])
      → Memᴰ b (db.reservations ++ new_row ∷ [])
      → a.id ≡ b.id
      → a ≡ b
  new_row-fresh a b m n e =
      let same = in_singleton new_row a m in
      elim (mem-append db.reservations (new_row ∷ []) n) [
        | inl old ↦ absurd (fresh b old (sym e ∙ ap (λ (r : Reservation). r.id) same ∙ new_row-id))
        | inr new ↦ same ∙ sym (in_singleton new_row b new)
      ]

  -- The first commit of a creation.
  pub insert_row-Preserves :
      Preserves db.reservations
        (insert_row client (new_reservation now id store_id customer_id dto) db).reservations
  insert_row-Preserves =
      rw (client.reservations.create_many_lem (new_row ∷ []) db.reservations)
        (append-Preserves db.reservations (new_row ∷ []) new_row-waits new_row-fresh)

  confirmed_kept :
      Preserves db.reservations
        (db.reservations ++ row_approved client now db id store_id customer_id dto fresh ∷ [])
  confirmed_kept inv =
      let rows = db.reservations ++ new_row ∷ [] in
      let (inv_rows, first) =
        append-Preserves db.reservations (new_row ∷ []) new_row-waits new_row-fresh inv in
      let same = client.reservations.create_many_lem (new_row ∷ []) db.reservations in
      let (inv_out, then_) =
        (approve_reservation-Preserves client now store_id id (record db { reservations = rows })
            inv_rows).holds
          (response client now db id store_id customer_id dto fresh)
          (record db {
            reservations =
                db.reservations
                ++ row_approved client now db id store_id customer_id dto fresh ∷ [];
          })
          (subst
            (λ rs.
              approve_reservation client now store_id id (record db { reservations = rs })
              ≡ ok (
                response client now db id store_id customer_id dto fresh,
                record db {
                  reservations =
                      db.reservations
                      ++ row_approved client now db id store_id customer_id dto fresh ∷ [];
                },
              ))
            same (approves_new client now db id store_id customer_id dto fresh)) in
      (inv_out, Evolves-trans db.reservations rows _ first then_)

  create_in_store-Preserves :
      Preserves db.reservations
        (create_in_store client now id store_id customer_id dto db).1.reservations
  unfolding create_in_store
  create_in_store-Preserves = elim (Bool-cases (leb (end_of dto) dto.start_time)) [
    | inl late ↦ rw late (Preserves-refl db.reservations)
    | inr fine ↦
        rw (fine, creates_confirmed client now db id store_id customer_id dto fresh) confirmed_kept
  ]

pub create_for_store-Preserves :
    (client : Client) (now : ℕ) (db : Db) (id customer_id : String) (dto : CreateReservationDto)
    (named : Option String)
    → IsFresh db.reservations id
    → Preserves db.reservations
        (create_for_store client now id customer_id dto named db).1.reservations
unfolding create_for_store
create_for_store-Preserves client now db id customer_id dto none fresh =
    Preserves-refl db.reservations
create_for_store-Preserves client now db id customer_id dto (some store_id) fresh =
    create_in_store-Preserves client now db id store_id customer_id dto fresh

create_if_exists-Preserves :
    (client : Client) (now : ℕ) (db : Db) (id customer_id : String) (dto : CreateReservationDto)
    (store_id : String) (r : Result StoreRow)
    → IsFresh db.reservations id
    → Preserves db.reservations
        (create_if_exists client now id customer_id dto store_id r db).1.reservations
unfolding create_if_exists
create_if_exists-Preserves client now db id customer_id dto store_id (err e) fresh =
    Preserves-refl db.reservations
create_if_exists-Preserves client now db id customer_id dto store_id (ok store) fresh =
    create_in_store-Preserves client now db id store_id customer_id dto fresh

pub create_for_customer-Preserves :
    (client : Client) (now : ℕ) (db : Db) (id : String) (found : Option StoreRow)
    (customer_id : String) (dto : CreateReservationDto) (named : Option String)
    → IsFresh db.reservations id
    → Preserves db.reservations
        (create_for_customer client now id found customer_id dto named db).1.reservations
unfolding create_for_customer
create_for_customer-Preserves client now db id found customer_id dto none fresh =
    Preserves-refl db.reservations
create_for_customer-Preserves client now db id found customer_id dto (some store_id) fresh =
    create_if_exists-Preserves client now db id customer_id dto store_id (assert_store_exists found)
      fresh
