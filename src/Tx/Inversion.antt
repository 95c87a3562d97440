-- ===== src/Tx/Inversion.antt =====
-- What a single operation of a transaction has done when it succeeds.
use lit_server_nest.Prelude.{
  ℕ, Bool, true, false, Option, none, some, List, String, Result, ok, err, Error, ◌≡◌, refl, ◌==◌,
  ◌++◌, count, has, patch, Bool-cases, inl, inr, arith,
}
use lit_server_nest.Reservation.{Reservation, Storage, Db}
use lit_server_nest.Tx.{
  Client, On, ◌>>=◌, throw_if, or_throw, update_reservation, update_reservations, update_storage,
  update_storages, create_reservations,
}

after {ℓ κ} :
    {S : Type 0} {A : Type ℓ} {B : Type κ} (r : Result (A × S)) (f : A → On S B) {out : S} {b : B}
    → elim r [ ok p ↦ f p.0 p.1 | err e ↦ err e ] ≡ ok (b, out)
    → (a : A) × (mid : S) × (r ≡ ok (a, mid)) × (f a mid ≡ ok (b, out))
after (ok (a, mid)) f h = (a, mid, refl, h)
after (err e) f h = cc

pub >>=-eq-ok {ℓ κ} :
    {S : Type 0} {A : Type ℓ} {B : Type κ} (m : On S A) (f : A → On S B) {db out : S} {b : B}
    → (m >>= f) db ≡ ok (b, out)
    → (a : A) × (mid : S) × (m db ≡ ok (a, mid)) × (f a mid ≡ ok (b, out))
unfolding ◌>>=◌
>>=-eq-ok m f {db} h = after (m db) f h

pub or_throw-eq-ok {ℓ} :
    {S : Type 0} {A : Type ℓ} (o : Option A) (e : Error) {db out : S} {a : A}
    → or_throw o e db ≡ ok (a, out)
    → (o ≡ some a) × (out ≡ db)
or_throw-eq-ok none e h = cc
or_throw-eq-ok (some a) e h = (cc, cc)

pub throw_if-eq-ok :
    {S : Type 0} (c : Bool) (e : Error) {db out : S} {u : Unit {0}}
    → throw_if c e db ≡ ok (u, out)
    → (c ≡ false) × (out ≡ db)
throw_if-eq-ok true e h = cc
throw_if-eq-ok false e h = (refl, cc)

module _ (client : Client) where
  pub update_reservation-eq-ok :
      (key : String) (f : Reservation → Reservation) (db : Db) {out : Db} {u : Unit {0}}
      → update_reservation client key f db ≡ ok (u, out)
      → out ≡ record db { reservations = patch (λ r. r.id == key) f db.reservations }
  update_reservation-eq-ok key f db h =
      let g = rw client.reservations.update_lem at h in
      elim (Bool-cases (has (λ (r : Reservation). r.id == key) db.reservations)) [
        | inl e ↦ ground (arith, g, e)
        | inr e ↦ ground (arith, g, e)
      ]

  pub update_storage-eq-ok :
      (key : String) (f : Storage → Storage) (db : Db) {out : Db} {u : Unit {0}}
      → update_storage client key f db ≡ ok (u, out)
      → out ≡ record db { storages = patch (λ r. r.id == key) f db.storages }
  update_storage-eq-ok key f db h =
      let g = rw client.storages.update_lem at h in
      elim (Bool-cases (has (λ (r : Storage). r.id == key) db.storages)) [
        | inl e ↦ ground (arith, g, e)
        | inr e ↦ ground (arith, g, e)
      ]

  pub update_reservations-eq-ok :
      (cond : Reservation → Bool) (f : Reservation → Reservation) (db : Db) {out : Db} {n : ℕ}
      → update_reservations client cond f db ≡ ok (n, out)
      → (n ≡ count cond db.reservations)
        × (out ≡ record db { reservations = patch cond f db.reservations })
  update_reservations-eq-ok cond f db h =
      let g = rw client.reservations.update_many_lem at h in (cc, cc)

  pub update_storages-eq-ok :
      (cond : Storage → Bool) (f : Storage → Storage) (db : Db) {out : Db} {n : ℕ}
      → update_storages client cond f db ≡ ok (n, out)
      → out ≡ record db { storages = patch cond f db.storages }
  update_storages-eq-ok cond f db h = let g = rw client.storages.update_many_lem at h in cc

  pub create_reservations-eq-ok :
      (new : List Reservation) (db : Db) {out : Db} {u : Unit {0}}
      → create_reservations client new db ≡ ok (u, out)
      → out ≡ record db { reservations = db.reservations ++ new }
  create_reservations-eq-ok new db h = let g = rw client.reservations.create_many_lem at h in cc
