-- ===== src/Prelude/Carrying.antt =====
-- How the rows of a table carry over: each keeps its key and label, and a row that is on now was on
-- before, or has a new key.
use mathlib.Core.Path.{◌≡◌, refl, sym, ◌∙◌, ap}
use mathlib.Core.Logic.{◌≢◌, ◌⊎◌, inl, inr}
use mathlib.Core.Bool.{Bool, true, false}
use mathlib.Core.List.{List, [], ◌∷◌, ◌++◌, Memᴰ}
use lit_server_nest.Prelude.Tests.{Bool-cases}
use lit_server_nest.Prelude.Lists.{
  step_row, step_row-hit, step_row-miss, patch, mem-patch, patch-mem, mem-append,
}
use lit_server_nest.Prelude.Keys.{mem-append-left, mem-singleton, key-step_row}

module _ {A K L : Type 0} (key : A → K) (label : A → L) (on : A → Bool) where
  pub record Carried (before after : List A) : Type 0 where
    pub kept : (x : A) → Memᴰ x before → (y : A) × Memᴰ y after × (key y ≡ key x)
    pub origin :
        (y : A)
        → Memᴰ y after
        → on y ≡ true
        → ((x : A) × Memᴰ x before × (key x ≡ key y) × (label x ≡ label y) × (on x ≡ true))
          ⊎ ((x : A) → Memᴰ x before → key x ≢ key y)

  pub Carried-refl : (xs : List A) → Carried xs xs
  Carried-refl xs = record {
    kept = λ x at. (x, at, refl);
    origin = λ y at h. inl (y, at, refl, refl, h);
  }

  pub Carried-patch :
      (p : A → Bool) (f : A → A) (xs : List A)
      → ((x : A) → key (f x) ≡ key x)
      → ((x : A) → label (f x) ≡ label x)
      → ((x : A) → on (f x) ≡ true → on x ≡ true)
      → Carried xs (patch p f xs)
  Carried-patch p f xs same_key same_label same_on = record {
    kept = λ x at. (step_row p f x, patch-mem p f xs at, key-step_row key p f x same_key);
    origin = λ y at h.
        let (x, x_in, step) = mem-patch p f xs at in
        elim (Bool-cases (p x)) [
          | inl hit ↦
              let q : f x ≡ y = sym (step ∙ step_row-hit p f x hit) in
              inl (
                x,
                x_in,
                sym (same_key x) ∙ ap key q,
                sym (same_label x) ∙ ap label q,
                same_on x (ap on q ∙ h),
              )
          | inr miss ↦
              let q : x ≡ y = sym (step ∙ step_row-miss p f x miss) in
              inl (x, x_in, ap key q, ap label q, ap on q ∙ h)
        ];
  }

  pub Carried-append :
      (before after : List A) (new : A)
      → ((x : A) → Memᴰ x before → key x ≢ key new)
      → Carried before after
      → Carried before (after ++ (new ∷ []))
  Carried-append before after new fresh carried = record {
    kept = λ x at.
        let (y, y_in, e) = carried.kept x at in (y, mem-append-left after (new ∷ []) y_in, e);
    origin = λ y at h. elim (mem-append after (new ∷ []) at) [
      | inl old ↦ carried.origin y old h
      | inr last ↦ inr (λ x x_in e. fresh x x_in (e ∙ ap key (mem-singleton last)))
    ];
  }

  -- There is a row with the key, and every one is off.
  abbrev pub IsOff : K → List A → Type 0
  IsOff k xs =
      ((x : A) × Memᴰ x xs × (key x ≡ k)) × ((x : A) → Memᴰ x xs → key x ≡ k → on x ≡ false)

  pub Carried-IsOff :
      (k : K) (before after : List A) → Carried before after → IsOff k before → IsOff k after
  Carried-IsOff k before after carried off =
      let (x0, x0_in, x0_key) = off.0 in
      let (y0, y0_in, y0_key) = carried.kept x0 x0_in in
      (
        (y0, y0_in, y0_key ∙ x0_key),
        λ y y_in y_key. elim (Bool-cases (on y)) [
          | inr no_more ↦ no_more
          | inl again ↦ elim (carried.origin y y_in again) [
            | inl found ↦
                let (x, x_in, x_key, _, x_on) = found in
                let shut = off.1 x x_in (x_key ∙ y_key) in
                let z : true ≡ false = sym x_on ∙ shut in cc
            | inr fresh ↦ elim (fresh x0 x0_in (x0_key ∙ sym y_key)) [ ]
          ]
        ],
      )
