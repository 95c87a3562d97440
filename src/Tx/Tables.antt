-- ===== src/Tx/Tables.antt =====
-- The operations of the database client on one table of a state of tables, and what a transaction
-- that starts with one of them ensures.
use lit_server_nest.Prelude.{
  ℕ, Bool, true, Option, none, some, List, [], ◌∷◌, ◌++◌, ok, err, Error, ◌≡◌, refl, sym, count,
  has, patch, select, not, Bool-cases, inl, inr, record_to_update_not_found, Memᴰ, if◌then◌else◌,
}
use lit_server_nest.Prisma.{Table}
use lit_server_nest.Tx.{On, ◌>>=◌, or_throw}
use lit_server_nest.Tx.Ensures.{Ensures, ensures_present}

-- One table among others: its operations, and where its rows stand in the state.
pub record Entity (S Row : Type 0) : Type 0 where
  pub table : Table Row
  pub rows : S → List Row
  pub with_rows : List Row → S → S

module _ {S Row : Type 0} (e : Entity S Row) where
  abbrev pub find_row : (Row → Bool) → On S (Option Row)
  find_row cond db = ok (e.table.find_first cond (e.rows db), db)

  abbrev pub find_rows : (Row → Bool) → On S (List Row)
  find_rows cond db = ok (e.table.find_many cond (e.rows db), db)

  abbrev pub count_rows : (Row → Bool) → On S ℕ
  count_rows cond db = ok (e.table.tally cond (e.rows db), db)

  unfoldable pub update_row : (Row → Bool) → (Row → Row) → On S (Unit {0})
  update_row cond f db = elim (e.table.update cond f (e.rows db)) [
    | none ↦ err record_to_update_not_found
    | some rows ↦ ok (tt, e.with_rows rows db)
  ]

  abbrev pub update_rows : (Row → Bool) → (Row → Row) → On S ℕ
  update_rows cond f db =
      let (n, rows) = e.table.update_many cond f (e.rows db) in ok (n, e.with_rows rows db)

  abbrev pub create_row : Row → On S (Unit {0})
  create_row row db = ok (tt, e.with_rows (e.table.create_many (row ∷ []) (e.rows db)) db)

  abbrev pub delete_rows : (Row → Bool) → On S (Unit {0})
  delete_rows cond db = ok (tt, e.with_rows (e.table.delete_many cond (e.rows db)) db)

  pub update_row_lem :
      (cond : Row → Bool) (f : Row → Row) (db : S)
      → update_row cond f db ≡ (
          if has cond (e.rows db)
          then ok (tt, e.with_rows (patch cond f (e.rows db)) db)
          else err record_to_update_not_found)
  unfolding update_row
  update_row_lem cond f db =
      rw (update_row, e.table.update_lem cond f (e.rows db))
        (elim (Bool-cases (has cond (e.rows db))) [ inl y ↦ rw y refl | inr y ↦ rw y refl ])

  -- What one statement has done when it succeeds.
  pub update_rows-eq-ok :
      (cond : Row → Bool) (f : Row → Row) (db out : S) (n : ℕ)
      → update_rows cond f db ≡ ok (n, out)
      → (n ≡ count cond (e.rows db)) × (out ≡ e.with_rows (patch cond f (e.rows db)) db)
  update_rows-eq-ok cond f db out n h = let g = rw e.table.update_many_lem at h in (cc, cc)

  pub update_row-eq-ok :
      (cond : Row → Bool) (f : Row → Row) (db out : S)
      → update_row cond f db ≡ ok (tt, out)
      → out ≡ e.with_rows (patch cond f (e.rows db)) db
  update_row-eq-ok cond f db out h =
      let g = rw update_row_lem at h in
      elim (Bool-cases (has cond (e.rows db))) [
        | inl y ↦ let z = rw y at g in cc
        | inr y ↦ let z = rw y at g in cc
      ]

  module _ {ℓ} {A : Type ℓ} {Q : A → S → Type 0} {db : S} where
    pub ensures_find_or_throw :
        (cond : Row → Bool) (x : Error) (k : Row → On S A)
        → ((r : Row) → Memᴰ r (e.rows db) → cond r ≡ true → Ensures (k r) db Q)
        → Ensures (find_row cond >>= λ o. or_throw o x >>= k) db Q
    unfolding ◌>>=◌
    ensures_find_or_throw cond x k rest = record {
      holds = λ a out h.
          (ensures_present (e.table.find_first cond (e.rows db)) x k λ r found.
              let (at, q) = e.table.find_first-some cond (e.rows db) r found in rest r at q).holds
            a out h;
    }

    pub ensures_count :
        (cond : Row → Bool) (k : ℕ → On S A)
        → Ensures (k (count cond (e.rows db))) db Q
        → Ensures (count_rows cond >>= k) db Q
    unfolding ◌>>=◌
    ensures_count cond k rest = record {
      holds = λ a out h. rest.holds a out (rw (sym (e.table.tally_lem cond (e.rows db))) h);
    }

    pub ensures_update_row :
        (cond : Row → Bool) (f : Row → Row) (k : Unit {0} → On S A)
        → Ensures (k tt) (e.with_rows (patch cond f (e.rows db)) db) Q
        → Ensures (update_row cond f >>= k) db Q
    unfolding ◌>>=◌
    ensures_update_row cond f k rest = record {
      holds = λ a out h.
          let g = rw (◌>>=◌, update_row_lem cond f db) at h in
          elim (Bool-cases (has cond (e.rows db))) [
            | inl y ↦ rest.holds a out (rw y at g)
            | inr y ↦ let z = rw y at g in cc
          ];
    }

    pub ensures_update_rows :
        (cond : Row → Bool) (f : Row → Row) (k : ℕ → On S A)
        → Ensures (k (count cond (e.rows db))) (e.with_rows (patch cond f (e.rows db)) db) Q
        → Ensures (update_rows cond f >>= k) db Q
    unfolding ◌>>=◌
    ensures_update_rows cond f k rest = record {
      holds = λ a out h. rest.holds a out (rw e.table.update_many_lem at h);
    }

    pub ensures_create_row :
        (row : Row) (k : Unit {0} → On S A)
        → Ensures (k tt) (e.with_rows (e.rows db ++ (row ∷ [])) db) Q
        → Ensures (create_row row >>= k) db Q
    unfolding ◌>>=◌
    ensures_create_row row k rest = record {
      holds = λ a out h. rest.holds a out (rw e.table.create_many_lem at h);
    }

    pub ensures_delete_rows :
        (cond : Row → Bool) (k : Unit {0} → On S A)
        → Ensures (k tt) (e.with_rows (select (λ r. not (cond r)) (e.rows db)) db) Q
        → Ensures (delete_rows cond >>= k) db Q
    unfolding ◌>>=◌
    ensures_delete_rows cond k rest = record {
      holds = λ a out h. rest.holds a out (rw e.table.delete_many_lem at h);
    }
