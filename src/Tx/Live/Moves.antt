-- ===== src/Tx/Live/Moves.antt =====
-- How a handler without a transaction moves the tables, whether it answers or throws: a relation that
-- every statement respects, and that composes, holds from the first to the last.
use lit_server_nest.Prelude.{
  Bool, true, false, Option, none, some, Result, ok, err, Error, ◌≡◌, refl,
}
use lit_server_nest.Tx.{On}
use lit_server_nest.Tx.Live.{Live, ◌>>=◌, continue, pure, throw, throw_if, lift, require, commit}

pub record Moves {ℓ} {S : Type 0} {A : Type ℓ} (R : S → S → Type 0) (m : Live S A) : Type ℓ where
  pub holds : (w : S) → R w (m w).1

module _ {S : Type 0} (R : S → S → Type 0) (stay : (w : S) → R w w)
    (compose : (w v u : S) → R w v → R v u → R w u) where
  continue-moves {ℓ κ} :
      {A : Type ℓ} {B : Type κ} (w : S) (r : Result A × S) (f : A → Live S B)
      → R w (r.1)
      → ((a : A) → Moves R (f a))
      → R w (continue r f).1
  continue-moves w (ok a, v) f first rest = compose w v _ first ((rest a).holds v)
  continue-moves w (err e, v) f first rest = first

  pub Moves-bind {ℓ κ} :
      {A : Type ℓ} {B : Type κ} (m : Live S A) (f : A → Live S B)
      → Moves R m
      → ((a : A) → Moves R (f a))
      → Moves R (m >>= f)
  unfolding ◌>>=◌
  Moves-bind m f first rest = record { holds = λ w. continue-moves w (m w) f (first.holds w) rest }

  pub Moves-pure {ℓ} : {A : Type ℓ} (a : A) → Moves R (pure a)
  Moves-pure a = record { holds = λ w. stay w }

  pub Moves-throw {ℓ} : {A : Type ℓ} (e : Error) → Moves {A = A} R (throw e)
  Moves-throw e = record { holds = λ w. stay w }

  pub Moves-lift {ℓ} : {A : Type ℓ} (r : Result A) → Moves R (lift r)
  Moves-lift r = record { holds = λ w. stay w }

  pub Moves-throw_if : (c : Bool) (e : Error) → Moves R (throw_if c e)
  Moves-throw_if true e = record { holds = λ w. stay w }
  Moves-throw_if false e = record { holds = λ w. stay w }

  pub Moves-require {ℓ} : {A : Type ℓ} (o : Option A) (e : Error) → Moves R (require o e)
  Moves-require none e = record { holds = λ w. stay w }
  Moves-require (some a) e = record { holds = λ w. stay w }

  committed {ℓ} :
      {A : Type ℓ} (w : S) (r : Result (A × S))
      → ((a : A) (out : S) → r ≡ ok (a, out) → R w out)
      → R w (elim r as (λ _. Result A × S) [ ok p ↦ (ok p.0, p.1) | err e ↦ (err e, w) ]).1
  committed w (ok (a, out)) step = step a out refl
  committed w (err e) step = stay w

  pub Moves-commit {ℓ} :
      {A : Type ℓ} (m : On S A)
      → ((w : S) (a : A) (out : S) → m w ≡ ok (a, out) → R w out)
      → Moves R (commit m)
  unfolding commit
  Moves-commit m step = record { holds = λ w. committed w (m w) (step w) }
