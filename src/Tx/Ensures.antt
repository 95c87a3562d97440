-- ===== src/Tx/Ensures.antt =====
-- What holds when a transaction succeeds, with one rule for each form that a step can take.
use lit_server_nest.Prelude.{
  ℕ, Bool, true, false, Option, none, some, List, String, Result, ok, err, Error, ◌≡◌, refl, ◌==◌,
  sym, subst, count, patch, Memᴰ, ◌++◌,
}
use lit_server_nest.Reservation.{Reservation, Storage, Db}
use lit_server_nest.Tx.{
  Client, On, Tx, ◌>>=◌, pure, lift, throw_if, or_throw, when, find_reservation, find_reservations,
  update_reservation, update_reservations, update_storage, update_storages, create_reservations,
}
use lit_server_nest.Tx.Inversion.{
  >>=-eq-ok, update_reservation-eq-ok, update_reservations-eq-ok, update_storage-eq-ok,
  update_storages-eq-ok, create_reservations-eq-ok,
}

-- If `m` succeeds from the tables `db`, its result and the tables that it leaves satisfy `Q`.
pub record Ensures {ℓ} {S : Type 0} {A : Type ℓ} (m : On S A) (db : S) (Q : A → S → Type 0)
    : Type ℓ where
  pub holds : (a : A) (out : S) → m db ≡ ok (a, out) → Q a out

ok_inj {ℓ} : {S : Type 0} {A : Type ℓ} (p q : A × S) → ok p ≡ ok q → p ≡ q
ok_inj p q e = cc

-- A check at the end of a transaction.
pub ensures_last_throw_if :
    {S : Type 0} {R : Unit {0} → S → Type 0} {db : S} (c : Bool) (x : Error)
    → R tt db
    → Ensures (throw_if c x) db R
ensures_last_throw_if true x q = record { holds = λ a out e. cc }
ensures_last_throw_if {S} {R} {db} false x q = record {
  holds = λ a out e. subst (λ (p : Unit {0} × S). R p.0 p.1) (ok_inj (tt, db) (a, out) e) q;
}

-- An update at the end of a transaction, whose result is the number of rows.
pub ensures_done_update_many :
    {R : ℕ → Db → Type 0} {db : Db} (client : Client) (cond : Reservation → Bool)
    (f : Reservation → Reservation)
    → R (count cond db.reservations) (record db { reservations = patch cond f db.reservations })
    → Ensures (update_reservations client cond f) db R
ensures_done_update_many {R} {db} client cond f q = record {
  holds = λ n out e.
      let (counted, rows) = update_reservations-eq-ok client cond f db e in rw (counted, rows) q;
}

module _ {ℓ} {A : Type ℓ} {S : Type 0} {Q : A → S → Type 0} {db : S} where
  pub ensures_pure : (a : A) → Q a db → Ensures (pure a) db Q
  ensures_pure a q = record {
    holds = λ a' out e. subst (λ (p : A × S). Q p.0 p.1) (ok_inj (a, db) (a', out) e) q;
  }

  pub ensures_bind {κ} :
      {B : Type κ} (P : B → S → Type 0) (m : On S B) (k : B → On S A)
      → Ensures m db P
      → ((b : B) (mid : S) → P b mid → Ensures (k b) mid Q)
      → Ensures (m >>= k) db Q
  ensures_bind P m k first rest = record {
    holds = λ a out e.
        let (b, mid, e1, e2) = >>=-eq-ok m k e in
        (rest b mid (first.holds b mid e1)).holds a out e2;
  }

  pub ensures_assert :
      (r : Result (Unit {0})) (k : Unit {0} → On S A)
      → (r ≡ ok tt → Ensures (k tt) db Q)
      → Ensures (lift r >>= k) db Q
  unfolding ◌>>=◌
  ensures_assert (ok u) k rest = record { holds = λ a out e. (rest refl).holds a out e }
  ensures_assert (err x) k rest = record { holds = λ a out e. cc }

  pub ensures_throw_if :
      (c : Bool) (x : Error) (k : Unit {0} → On S A)
      → (c ≡ false → Ensures (k tt) db Q)
      → Ensures (throw_if c x >>= k) db Q
  unfolding ◌>>=◌
  ensures_throw_if true x k rest = record { holds = λ a out e. cc }
  ensures_throw_if false x k rest = record { holds = λ a out e. (rest refl).holds a out e }

  pub ensures_when :
      (c : Bool) (m : On S (Unit {0})) (k : Unit {0} → On S A)
      → Ensures (m >>= k) db Q
      → Ensures (k tt) db Q
      → Ensures (when c m >>= k) db Q
  unfolding ◌>>=◌
  ensures_when true m k run skip = run
  ensures_when false m k run skip = record { holds = λ a out e. skip.holds a out e }

  pub ensures_when_of :
      (c : Bool) (m : On S (Unit {0})) (k : Unit {0} → On S A)
      → (c ≡ true → Ensures (m >>= k) db Q)
      → (c ≡ false → Ensures (k tt) db Q)
      → Ensures (when c m >>= k) db Q
  unfolding ◌>>=◌
  ensures_when_of true m k run skip = run refl
  ensures_when_of false m k run skip = record { holds = λ a out e. (skip refl).holds a out e }

  pub ensures_lift {κ} :
      {B : Type κ} (r : Result B) (k : B → On S A)
      → ((b : B) → r ≡ ok b → Ensures (k b) db Q)
      → Ensures (lift r >>= k) db Q
  unfolding ◌>>=◌
  ensures_lift (ok b) k rest = record { holds = λ a out e. (rest b refl).holds a out e }
  ensures_lift (err x) k rest = record { holds = λ a out e. cc }

  pub ensures_present {κ} :
      {B : Type κ} (o : Option B) (x : Error) (k : B → On S A)
      → ((b : B) → o ≡ some b → Ensures (k b) db Q)
      → Ensures (or_throw o x >>= k) db Q
  unfolding ◌>>=◌
  ensures_present none x k rest = record { holds = λ a out e. cc }
  ensures_present (some b) x k rest = record { holds = λ a out e. (rest b refl).holds a out e }

module _ {ℓ} {A : Type ℓ} {Q : A → Db → Type 0} {db : Db} where
  module _ (client : Client) where
    pub ensures_read_one :
        (cond : Reservation → Bool) (x : Error) (k : Reservation → Tx A)
        → ((r : Reservation) → Memᴰ r db.reservations → cond r ≡ true → Ensures (k r) db Q)
        → Ensures (find_reservation client cond >>= (λ o. or_throw o x >>= k)) db Q
    unfolding ◌>>=◌
    ensures_read_one cond x k rest = record {
      holds = λ a out e.
          (ensures_present (client.reservations.find_first cond db.reservations) x k λ r found.
              let (at, q) = client.reservations.find_first-some cond db.reservations r found in
              rest r at q).holds
            a out e;
    }

    pub ensures_read_many :
        (cond : Reservation → Bool) (k : List Reservation → Tx A)
        → Ensures (k (client.reservations.find_many cond db.reservations)) db Q
        → Ensures (find_reservations client cond >>= k) db Q
    unfolding ◌>>=◌
    ensures_read_many cond k rest = record { holds = λ a out e. rest.holds a out e }

    pub ensures_update :
        (key : String) (f : Reservation → Reservation) (k : Unit {0} → Tx A)
        → Ensures (k tt) (record db { reservations = patch (λ r. r.id == key) f db.reservations }) Q
        → Ensures (update_reservation client key f >>= k) db Q
    ensures_update key f k rest =
        ensures_bind
          (λ _ mid. mid ≡ record db { reservations = patch (λ r. r.id == key) f db.reservations })
          (update_reservation client key f) k
          (record { holds = λ u out e. update_reservation-eq-ok client key f db e })
          λ u mid same. subst (λ d. Ensures (k tt) d Q) (sym same) rest

    pub ensures_update_many :
        (cond : Reservation → Bool) (f : Reservation → Reservation) (k : ℕ → Tx A)
        → Ensures
            (k (count cond db.reservations))
            (record db { reservations = patch cond f db.reservations })
            Q
        → Ensures (update_reservations client cond f >>= k) db Q
    ensures_update_many cond f k rest =
        ensures_bind
          (λ n mid.
            (n ≡ count cond db.reservations)
            × (mid ≡ record db { reservations = patch cond f db.reservations }))
          (update_reservations client cond f) k
          (record { holds = λ n out e. update_reservations-eq-ok client cond f db e })
          λ n mid same. rw (same.0, same.1) rest

    pub ensures_update_storage :
        (key : String) (f : Storage → Storage) (k : Unit {0} → Tx A)
        → Ensures (k tt) (record db { storages = patch (λ r. r.id == key) f db.storages }) Q
        → Ensures (update_storage client key f >>= k) db Q
    ensures_update_storage key f k rest =
        ensures_bind
          (λ _ mid. mid ≡ record db { storages = patch (λ r. r.id == key) f db.storages })
          (update_storage client key f) k
          (record { holds = λ u out e. update_storage-eq-ok client key f db e })
          λ u mid same. subst (λ d. Ensures (k tt) d Q) (sym same) rest

    pub ensures_update_storages :
        (cond : Storage → Bool) (f : Storage → Storage) (k : ℕ → Tx A)
        → ((n : ℕ) → Ensures (k n) (record db { storages = patch cond f db.storages }) Q)
        → Ensures (update_storages client cond f >>= k) db Q
    ensures_update_storages cond f k rest =
        ensures_bind (λ _ mid. mid ≡ record db { storages = patch cond f db.storages })
          (update_storages client cond f) k
          (record { holds = λ n out e. update_storages-eq-ok client cond f db e })
          λ n mid same. subst (λ d. Ensures (k n) d Q) (sym same) (rest n)

    pub ensures_create :
        (new : List Reservation) (k : Unit {0} → Tx A)
        → Ensures (k tt) (record db { reservations = db.reservations ++ new }) Q
        → Ensures (create_reservations client new >>= k) db Q
    ensures_create new k rest =
        ensures_bind (λ _ mid. mid ≡ record db { reservations = db.reservations ++ new })
          (create_reservations client new) k
          (record { holds = λ u out e. create_reservations-eq-ok client new db e })
          λ u mid same. subst (λ d. Ensures (k tt) d Q) (sym same) rest
