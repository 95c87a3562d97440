-- ===== src/Prelude/Lists.antt =====
-- Lists: counting and patching by a Boolean test, membership through them, and predicates.
use Prim.Native.Nat.{ℕ, suc, ◌+◌, ◌≤◌}
use mathlib.Core.Path.{◌≡◌, refl, sym, ◌∙◌, ap, subst}
use mathlib.Core.Logic.{◌⊎◌, inl, inr}
use mathlib.Core.Bool.{Bool, true, false}
use mathlib.Core.List.{List, [], ◌∷◌, ◌++◌, Memᴰ}
use native.Mathlib.Omega.{arith}
use lit_server_nest.Prelude.Tests.{if◌then◌else◌, Bool-cases}

module _ {ℓ} {A : Type ℓ} where
  abbrev pub length : List A → ℕ
  length [] = 0
  length (x ∷ xs) = suc (length xs)

  abbrev pub count : (A → Bool) → List A → ℕ
  count p [] = 0
  count p (x ∷ xs) = let rest = count p xs in if p x then suc rest else rest

  abbrev pub has : (A → Bool) → List A → Bool
  has p [] = false
  has p (x ∷ xs) = if p x then true else has p xs

  abbrev pub select : (A → Bool) → List A → List A
  select p [] = []
  select p (x ∷ xs) = let rest = select p xs in if p x then x ∷ rest else rest

  -- The rows that pass the test are changed; the others stay.
  abbrev pub step_row : (A → Bool) → (A → A) → A → A
  step_row p f x = if p x then f x else x

  pub step_row-hit : (p : A → Bool) (f : A → A) (x : A) → p x ≡ true → step_row p f x ≡ f x
  step_row-hit p f x e = rw e

  pub step_row-miss : (p : A → Bool) (f : A → A) (x : A) → p x ≡ false → step_row p f x ≡ x
  step_row-miss p f x e = rw e

  abbrev pub patch : (A → Bool) → (A → A) → List A → List A
  patch p f [] = []
  patch p f (x ∷ xs) = step_row p f x ∷ patch p f xs

  abbrev pub All {κ} : (A → Type κ) → List A → Type κ
  All P [] = Unit
  All P (x ∷ xs) = P x × All P xs

  pub All-mem {κ} : (P : A → Type κ) (xs : List A) {x : A} → All P xs → Memᴰ x xs → P x
  All-mem P [] h m = elim m [ ]
  All-mem P (y ∷ xs) h (Memᴰ.head e) = subst P (sym e) h.0
  All-mem P (y ∷ xs) h (Memᴰ.tail m) = All-mem P xs h.1 m

  pub All-of_mem {κ} : (P : A → Type κ) (xs : List A) → ((x : A) → Memᴰ x xs → P x) → All P xs
  All-of_mem P [] h = tt
  All-of_mem P (x ∷ xs) h = (h x (Memᴰ.head refl), All-of_mem P xs (λ y m. h y (Memᴰ.tail m)))

  -- A row of the patched list comes from a row of the list.
  pub mem-patch :
      (p : A → Bool) (f : A → A) (xs : List A) {y : A}
      → Memᴰ y (patch p f xs)
      → (x : A) × Memᴰ x xs × (y ≡ step_row p f x)
  mem-patch p f [] m = elim m [ ]
  mem-patch p f (x ∷ xs) (Memᴰ.head e) = (x, Memᴰ.head refl, e)
  mem-patch p f (x ∷ xs) (Memᴰ.tail m) = let (z, at, e) = mem-patch p f xs m in (z, Memᴰ.tail at, e)

  pub patch-mem :
      (p : A → Bool) (f : A → A) (xs : List A) {x : A}
      → Memᴰ x xs
      → Memᴰ (step_row p f x) (patch p f xs)
  patch-mem p f [] m = elim m [ ]
  patch-mem p f (y ∷ xs) (Memᴰ.head e) = Memᴰ.head (ap (step_row p f) e)
  patch-mem p f (y ∷ xs) (Memᴰ.tail m) = Memᴰ.tail (patch-mem p f xs m)

  pub mem-append : (xs ys : List A) {x : A} → Memᴰ x (xs ++ ys) → Memᴰ x xs ⊎ Memᴰ x ys
  mem-append [] ys m = inr m
  mem-append (z ∷ xs) ys (Memᴰ.head e) = inl (Memᴰ.head e)
  mem-append (z ∷ xs) ys (Memᴰ.tail m) = elim (mem-append xs ys m) [
    | inl a ↦ inl (Memᴰ.tail a)
    | inr b ↦ inr b
  ]

  pub has-false : (p : A → Bool) (xs : List A) {x : A} → has p xs ≡ false → Memᴰ x xs → p x ≡ false
  has-false p [] h m = elim m [ ]
  has-false p (y ∷ xs) h (Memᴰ.head e) = ap p e ∙ ground arith
  has-false p (y ∷ xs) h (Memᴰ.tail m) = has-false p xs (ground arith) m

  pub has-true : (p : A → Bool) (xs : List A) → has p xs ≡ true → (x : A) × Memᴰ x xs × (p x ≡ true)
  has-true p [] h = cc
  has-true p (y ∷ xs) h = elim (Bool-cases (p y)) [
    | inl e ↦ (y, Memᴰ.head refl, e)
    | inr e ↦ let (x, at, q) = has-true p xs (rw e at h) in (x, Memᴰ.tail at, q)
  ]

  pub has-of_all_false :
      (p : A → Bool) (xs : List A) → ((x : A) → Memᴰ x xs → p x ≡ false) → has p xs ≡ false
  has-of_all_false p [] h = refl
  has-of_all_false p (y ∷ xs) h =
      rw (h y (Memᴰ.head refl)) (has-of_all_false p xs (λ x m. h x (Memᴰ.tail m)))

  pub count-le-length : (p : A → Bool) (xs : List A) → count p xs ≤ length xs
  count-le-length p [] = omega arith
  count-le-length p (x ∷ xs) = ground (arith, count-le-length p xs)

  mem-cons_of :
      (p : A → Bool) (y : A) (xs : List A) {x : A}
      → p y ≡ true
      → (ys : List A) → (Memᴰ x ys → Memᴰ x (y ∷ xs) × (p x ≡ true))
      → Memᴰ x (y ∷ ys)
      → Memᴰ x (y ∷ xs) × (p x ≡ true)
  mem-cons_of p y xs e ys h (Memᴰ.head q) = (Memᴰ.head q, ap p q ∙ e)
  mem-cons_of p y xs e ys h (Memᴰ.tail m) = h m

  pub mem-select :
      (p : A → Bool) (xs : List A) {x : A} → Memᴰ x (select p xs) → Memᴰ x xs × (p x ≡ true)
  mem-select p [] m = elim m [ ]
  mem-select p (y ∷ xs) {x} m =
      let later : Memᴰ x (select p xs) → Memᴰ x (y ∷ xs) × (p x ≡ true) =
        λ t. (Memᴰ.tail (mem-select p xs t).0, (mem-select p xs t).1) in
      elim (Bool-cases (p y)) [
        | inl e ↦ mem-cons_of p y xs e (select p xs) later (rw e at m)
        | inr e ↦ later (rw e at m)
      ]

  pub count-mem : (p : A → Bool) (xs : List A) → count p xs ≡ 1 → (x : A) × Memᴰ x xs × (p x ≡ true)
  count-mem p [] e = absurd (omega arith)
  count-mem p (x ∷ xs) e = elim (Bool-cases (p x)) [
    | inl hit ↦ (x, Memᴰ.head refl, hit)
    | inr miss ↦ let (y, at, q) = count-mem p xs (rw miss at e) in (y, Memᴰ.tail at, q)
  ]

  pub count-none :
      (p : A → Bool) (xs : List A) → ((x : A) → Memᴰ x xs → p x ≡ false) → count p xs ≡ 0
  count-none p [] h = refl
  count-none p (y ∷ xs) h = rw (h y (Memᴰ.head refl)) (count-none p xs (λ x m. h x (Memᴰ.tail m)))

  pub count-patch-le :
      (q p : A → Bool) (f : A → A) (xs : List A)
      → ((x : A) → q (f x) ≡ true → q x ≡ true)
      → count q (patch p f xs) ≤ count q xs
  count-patch-le q p f [] h = omega arith
  count-patch-le q p f (x ∷ xs) h = ground (arith, count-patch-le q p f xs h, h x)

  pub count-append : (q : A → Bool) (xs ys : List A) → count q (xs ++ ys) ≡ count q xs + count q ys
  count-append q [] ys = omega arith
  count-append q (x ∷ xs) ys = ground (arith, count-append q xs ys)
