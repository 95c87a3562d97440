-- ===== src/Tx/Live/Answers.antt =====
-- What holds when a handler without a transaction answers, with one rule for each form of a step.
use lit_server_nest.Prelude.{
  Bool, true, false, Option, none, some, Result, ok, err, Error, ◌≡◌, refl, ap, subst, Memᴰ, inl,
  inr, Option-cases,
}
use lit_server_nest.Tx.{On}
use lit_server_nest.Tx.Tables.{Entity, find_row}
use lit_server_nest.Tx.Live.{Live, ◌>>=◌, continue, pure, throw, throw_if, lift, require, commit}

-- If `m` answers from the tables `w`, its answer and the tables that it leaves satisfy `Q`.
pub record Answers {ℓ} {S : Type 0} {A : Type ℓ} (m : Live S A) (w : S) (Q : A → S → Type 0)
    : Type ℓ where
  pub holds : (a : A) (out : S) → m w ≡ (ok a, out) → Q a out

no_answer {ℓ κ} :
    {S : Type 0} {A : Type ℓ} {P : Type κ} (e : Error) (w out : S) (a : A)
    → ◌≡◌ {A = Result A × S} (err e, w) (ok a, out)
    → P
no_answer {A = A} e w out a h = let z : err e ≡ ok a = ap (λ (p : Result A × _). p.0) h in cc

answer_inj {ℓ} :
    {S : Type 0} {A : Type ℓ} (a b : A) (w out : S)
    → ◌≡◌ {A = Result A × S} (ok a, w) (ok b, out)
    → (a ≡ b) × (w ≡ out)
answer_inj {S} {A} a b w out h =
    let z : ok a ≡ ok b = ap (λ (p : Result A × S). p.0) h in (cc, ap (λ (p : Result A × S). p.1) h)

after {ℓ κ} :
    {S : Type 0} {A : Type ℓ} {B : Type κ} (r : Result B × S) (k : B → Live S A) (a : A) (out : S)
    → continue r k ≡ (ok a, out)
    → (b : B) × (mid : S) × (r ≡ (ok b, mid)) × (k b mid ≡ (ok a, out))
after (ok b, mid) k a out h = (b, mid, refl, h)
after (err e, mid) k a out h = no_answer e mid out a h

committed {ℓ κ} :
    {S : Type 0} {A : Type ℓ} {B : Type κ} (r : Result (B × S)) (k : B → Live S A) (w : S) (a : A)
    (out : S)
    → continue (elim r as (λ _. Result B × S) [ ok p ↦ (ok p.0, p.1) | err e ↦ (err e, w) ]) k
      ≡ (ok a, out)
    → (b : B) × (mid : S) × (r ≡ ok (b, mid)) × (k b mid ≡ (ok a, out))
committed (ok p) k w a out h = (p.0, p.1, refl, h)
committed (err e) k w a out h = no_answer e w out a h

module _ {ℓ} {A : Type ℓ} {S : Type 0} {Q : A → S → Type 0} {w : S} where
  pub answers_pure : (a : A) → Q a w → Answers (pure a) w Q
  answers_pure a q = record {
    holds = λ b out h.
        let (same, left) = answer_inj a b w out h in subst (λ x. Q x out) same (subst (Q a) left q);
  }

  pub answers_throw : (e : Error) → Answers (throw e) w Q
  answers_throw e = record { holds = λ a out h. no_answer e w out a h }

  pub answers_bind {κ} :
      {B : Type κ} (P : B → S → Type 0) (m : Live S B) (k : B → Live S A)
      → Answers m w P
      → ((b : B) (mid : S) → P b mid → Answers (k b) mid Q)
      → Answers (m >>= k) w Q
  unfolding ◌>>=◌
  answers_bind P m k first rest = record {
    holds = λ a out h.
        let (b, mid, e, more) = after (m w) k a out h in
        (rest b mid (first.holds b mid e)).holds a out more;
  }

  -- A part of which only its answer is known.
  pub answers_run {κ} :
      {B : Type κ} (m : Live S B) (k : B → Live S A)
      → ((b : B) (mid : S) → m w ≡ (ok b, mid) → Answers (k b) mid Q)
      → Answers (m >>= k) w Q
  unfolding ◌>>=◌
  answers_run m k rest = record {
    holds =
        λ a out h. let (b, mid, e, more) = after (m w) k a out h in (rest b mid e).holds a out more;
  }

  pub answers_throw_if :
      (c : Bool) (e : Error) (k : Unit {0} → Live S A)
      → (c ≡ false → Answers (k tt) w Q)
      → Answers (throw_if c e >>= k) w Q
  unfolding ◌>>=◌
  answers_throw_if true e k rest = record { holds = λ a out h. no_answer e w out a h }
  answers_throw_if false e k rest = record { holds = λ a out h. (rest refl).holds a out h }

  pub answers_lift {κ} :
      {B : Type κ} (r : Result B) (k : B → Live S A)
      → ((b : B) → r ≡ ok b → Answers (k b) w Q)
      → Answers (lift r >>= k) w Q
  unfolding ◌>>=◌
  answers_lift (ok b) k rest = record { holds = λ a out h. (rest b refl).holds a out h }
  answers_lift (err e) k rest = record { holds = λ a out h. no_answer e w out a h }

  pub answers_require {κ} :
      {B : Type κ} (o : Option B) (e : Error) (k : B → Live S A)
      → ((b : B) → o ≡ some b → Answers (k b) w Q)
      → Answers (require o e >>= k) w Q
  unfolding ◌>>=◌
  answers_require none e k rest = record { holds = λ a out h. no_answer e w out a h }
  answers_require (some b) e k rest = record { holds = λ a out h. (rest b refl).holds a out h }

  pub answers_commit {κ} :
      {B : Type κ} (m : On S B) (k : B → Live S A)
      → ((b : B) (mid : S) → m w ≡ ok (b, mid) → Answers (k b) mid Q)
      → Answers (commit m >>= k) w Q
  unfolding ◌>>=◌ commit
  answers_commit m k rest = record {
    holds = λ a out h.
        let (b, mid, e, more) = committed (m w) k w a out h in (rest b mid e).holds a out more;
  }

  pub answers_find_or_throw :
      {Row : Type 0} (e : Entity S Row) (cond : Row → Bool) (x : Error) (k : Row → Live S A)
      → ((r : Row) → Memᴰ r (e.rows w) → cond r ≡ true → Answers (k r) w Q)
      → Answers (commit (find_row e cond) >>= λ o. require o x >>= k) w Q
  unfolding ◌>>=◌ commit
  answers_find_or_throw e cond x k rest = record {
    holds = λ a out h.
        (answers_require (e.table.find_first cond (e.rows w)) x k λ r found.
            let (at, q) = e.table.find_first-some cond (e.rows w) r found in rest r at q).holds
          a out h;
  }

-- A read at the end of a handler.
pub answers_last_find :
    {S Row : Type 0} {Q : Row → S → Type 0} {w : S} (e : Entity S Row) (cond : Row → Bool)
    (x : Error)
    → ((r : Row) → Memᴰ r (e.rows w) → cond r ≡ true → Q r w)
    → Answers (commit (find_row e cond) >>= λ o. require o x) w Q
unfolding ◌>>=◌ commit
answers_last_find {S} {Row} {Q} {w} e cond x rest = record {
  holds = λ a out h. elim (Option-cases (e.table.find_first cond (e.rows w))) [
    | inl missing ↦ no_answer x w out a (rw missing at h)
    | inr (r, found) ↦
        let (same, left) = answer_inj r a w out (rw found at h) in
        let (at, q) = e.table.find_first-some cond (e.rows w) r found in
        subst (λ y. Q y out) same (subst (Q r) left (rest r at q))
  ];
}
