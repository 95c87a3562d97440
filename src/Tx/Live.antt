-- ===== src/Tx/Live.antt =====
-- A handler that runs no transaction of its own: each statement commits by itself, so a throw leaves
-- what was written before it.
pub mod Moves
pub mod Answers
use lit_server_nest.Prelude.{
  Bool, true, false, Option, none, some, Result, ok, err, Error, ◌≡◌, refl, ap, if◌then◌else◌,
}
use lit_server_nest.Tx.{On}

abbrev pub Live {ℓ} : Type 0 → Type ℓ → Type ℓ
Live S A = S → Result A × S

abbrev pub continue {ℓ κ} :
    {S : Type 0} {A : Type ℓ} {B : Type κ} → Result A × S → (A → Live S B) → Result B × S
continue (ok a, db) f = f a db
continue (err e, db) f = (err e, db)

infixl 5 ◌>>=◌ ◌>>◌
unfoldable pub ◌>>=◌ {ℓ κ} :
    {S : Type 0} {A : Type ℓ} {B : Type κ} → Live S A → (A → Live S B) → Live S B
◌>>=◌ m f db = continue (m db) f

abbrev pub ◌>>◌ {ℓ κ} : {S : Type 0} {A : Type ℓ} {B : Type κ} → Live S A → Live S B → Live S B
m >> k = m >>= λ _. k

abbrev pub pure {ℓ} : {S : Type 0} {A : Type ℓ} → A → Live S A
pure a db = (ok a, db)

abbrev pub throw {ℓ} : {S : Type 0} {A : Type ℓ} → Error → Live S A
throw e db = (err e, db)

abbrev pub throw_if : {S : Type 0} → Bool → Error → Live S (Unit {0})
throw_if c e db = if c then (err e, db) else (ok tt, db)

-- An assertion, which throws or returns.
abbrev pub lift {ℓ} : {S : Type 0} {A : Type ℓ} → Result A → Live S A
lift r db = (r, db)

abbrev pub require {ℓ} : {S : Type 0} {A : Type ℓ} → Option A → Error → Live S A
require none e db = (err e, db)
require (some a) e db = (ok a, db)

-- One statement or one transaction, which is rolled back if it throws.
unfoldable pub commit {ℓ} : {S : Type 0} {A : Type ℓ} → On S A → Live S A
commit m db = elim (m db) [ ok r ↦ (ok r.0, r.1) | err e ↦ (err e, db) ]
