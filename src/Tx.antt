-- ===== src/Tx.antt =====
-- A transaction of the booking services: it reads and writes the tables, or throws, and a throw
-- rolls back, so an error carries no tables. The operations are those of the database client.
pub mod Inversion
pub mod Ensures
pub mod Tables
pub mod Live
use lit_server_nest.Prelude.{
  ℕ, Bool, true, false, Option, none, some, List, String, Error, Result, ok, err, ◌==◌,
  record_to_update_not_found, if◌then◌else◌,
}
use lit_server_nest.Prisma.{Table}
use lit_server_nest.Reservation.{Reservation, Storage, Db}

pub record Client : Type 0 where
  pub reservations : Table Reservation
  pub storages : Table Storage

abbrev pub On {ℓ} : Type 0 → Type ℓ → Type ℓ
On S A = S → Result (A × S)

abbrev pub Tx {ℓ} : Type ℓ → Type ℓ
Tx A = On Db A

infixl 5 ◌>>=◌ ◌>>◌
unfoldable pub ◌>>=◌ {ℓ κ} : {S : Type 0} {A : Type ℓ} {B : Type κ} → On S A → (A → On S B) → On S B
◌>>=◌ m f db = elim (m db) [ ok r ↦ f r.0 r.1 | err e ↦ err e ]

abbrev pub ◌>>◌ {ℓ κ} : {S : Type 0} {A : Type ℓ} {B : Type κ} → On S A → On S B → On S B
m >> k = m >>= λ _. k

abbrev pub pure {ℓ} : {S : Type 0} {A : Type ℓ} → A → On S A
pure a db = ok (a, db)

-- An assertion of another service, which throws or returns.
abbrev pub lift {ℓ} : {S : Type 0} {A : Type ℓ} → Result A → On S A
lift (ok a) db = ok (a, db)
lift (err e) db = err e

abbrev pub throw_if : {S : Type 0} → Bool → Error → On S (Unit {0})
throw_if c e db = if c then err e else ok (tt, db)

-- `if (c) { await m; }`
abbrev pub when : {S : Type 0} → Bool → On S (Unit {0}) → On S (Unit {0})
when c m = if c then m else pure tt

abbrev pub or_throw {ℓ} : {S : Type 0} {A : Type ℓ} → Option A → Error → On S A
or_throw none e db = err e
or_throw (some a) e db = ok (a, db)

-- `value && …` on a nullable text: null and the empty text are both falsy.
abbrev pub truthy : Option String → Option String
truthy none = none
truthy (some k) = if k == "" then none else some k

abbrev pub stored {ℓ} : {A : Type ℓ} → (List A → Db) → Option (List A) → Result (Unit {0} × Db)
stored put none = err record_to_update_not_found
stored put (some rows) = ok (tt, put rows)

module _ (client : Client) where
  abbrev pub find_reservation : (Reservation → Bool) → Tx (Option Reservation)
  find_reservation cond db = ok (client.reservations.find_first cond db.reservations, db)

  abbrev pub find_reservations : (Reservation → Bool) → Tx (List Reservation)
  find_reservations cond db = ok (client.reservations.find_many cond db.reservations, db)

  -- `reservations.update({ where: { id } })`
  abbrev pub update_reservation : String → (Reservation → Reservation) → Tx (Unit {0})
  update_reservation key f db =
      stored (λ rows. record db { reservations = rows })
        (client.reservations.update (λ r. r.id == key) f db.reservations)

  abbrev pub update_reservations : (Reservation → Bool) → (Reservation → Reservation) → Tx ℕ
  update_reservations cond f db =
      let (n, rows) = client.reservations.update_many cond f db.reservations in
      ok (n, record db { reservations = rows })

  abbrev pub create_reservations : List Reservation → Tx (Unit {0})
  create_reservations new db =
      ok (tt, record db { reservations = client.reservations.create_many new db.reservations })

  abbrev pub update_storage : String → (Storage → Storage) → Tx (Unit {0})
  update_storage key f db =
      stored (λ rows. record db { storages = rows })
        (client.storages.update (λ r. r.id == key) f db.storages)

  abbrev pub update_storages : (Storage → Bool) → (Storage → Storage) → Tx ℕ
  update_storages cond f db =
      let (n, rows) = client.storages.update_many cond f db.storages in
      ok (n, record db { storages = rows })
