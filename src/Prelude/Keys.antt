-- ===== src/Prelude/Keys.antt =====
-- Unique columns of a table: they stay unique when rows are changed elsewhere, or a new key is added.
use mathlib.Core.Path.{◌≡◌, refl, sym, ◌∙◌, ap}
use mathlib.Core.Logic.{◌≢◌, inl, inr}
use mathlib.Core.Bool.{Bool}
use mathlib.Core.List.{List, [], ◌∷◌, ◌++◌, Memᴰ}
use lit_server_nest.Prelude.Tests.{Bool-cases}
use lit_server_nest.Prelude.Lists.{
  step_row, step_row-hit, step_row-miss, patch, mem-patch, mem-append,
}

module _ {ℓ} {A : Type ℓ} where
  pub mem-append-left : (xs ys : List A) {x : A} → Memᴰ x xs → Memᴰ x (xs ++ ys)
  mem-append-left [] ys m = elim m [ ]
  mem-append-left (z ∷ xs) ys (Memᴰ.head e) = Memᴰ.head e
  mem-append-left (z ∷ xs) ys (Memᴰ.tail m) = Memᴰ.tail (mem-append-left xs ys m)

  pub mem-append-right : (xs ys : List A) {x : A} → Memᴰ x ys → Memᴰ x (xs ++ ys)
  mem-append-right [] ys m = m
  mem-append-right (z ∷ xs) ys m = Memᴰ.tail (mem-append-right xs ys m)

  pub mem-singleton : {x y : A} → Memᴰ x (y ∷ []) → x ≡ y
  mem-singleton (Memᴰ.head e) = e
  mem-singleton (Memᴰ.tail m) = elim m [ ]

  module _ {κ} {K : Type κ} (key : A → K) where
    -- No two rows have one key.
    abbrev pub IsKey : List A → Type (ℓ ⊔ κ)
    IsKey xs = (x y : A) → Memᴰ x xs → Memᴰ y xs → key x ≡ key y → x ≡ y

    -- A column that a change of the rows that pass the test leaves alone.
    pub key-step_row :
        (p : A → Bool) (f : A → A) (x : A)
        → ((z : A) → key (f z) ≡ key z)
        → key (step_row p f x) ≡ key x
    key-step_row p f x keeps = elim (Bool-cases (p x)) [
      | inl e ↦ rw (step_row-hit p f x e) (keeps x)
      | inr e ↦ rw (step_row-miss p f x e) refl
    ]

    pub IsKey-patch :
        (p : A → Bool) (f : A → A) (xs : List A)
        → ((z : A) → key (f z) ≡ key z)
        → IsKey xs
        → IsKey (patch p f xs)
    IsKey-patch p f xs keeps unique x y mx my e =
        let (x0, mx0, ex) = mem-patch p f xs mx in
        let (y0, my0, ey) = mem-patch p f xs my in
        let same : key x0 ≡ key y0 =
          sym (key-step_row p f x0 keeps)
          ∙ (ap key (sym ex) ∙ (e ∙ (ap key ey ∙ key-step_row p f y0 keeps))) in
        ex ∙ (ap (step_row p f) (unique x0 y0 mx0 my0 same) ∙ sym ey)

    pub IsKey-append :
        (xs : List A) (new : A)
        → ((x : A) → Memᴰ x xs → key x ≢ key new)
        → IsKey xs
        → IsKey (xs ++ (new ∷ []))
    IsKey-append xs new fresh unique x y mx my e = elim (mem-append xs (new ∷ []) mx) [
      | inl ax ↦ elim (mem-append xs (new ∷ []) my) [
        | inl ay ↦ unique x y ax ay e
        | inr ay ↦ elim (fresh x ax (e ∙ ap key (mem-singleton ay))) [ ]
      ]
      | inr ax ↦ elim (mem-append xs (new ∷ []) my) [
        | inl ay ↦ elim (fresh y ay (sym e ∙ ap key (mem-singleton ax))) [ ]
        | inr ay ↦ mem-singleton ax ∙ sym (mem-singleton ay)
      ]
    ]
