-- ===== src/Prisma/Listed.antt =====
-- A table kept as a plain list, searched from its head: an implementation of the interface. Texts
-- collate by the codes of their characters.
use lit_server_nest.Prelude.{
  ℕ, String, ltb, nat_eq, ◌&&◌, ◌||◌, ◌⊎◌, not, Bool, true, Option, none, some, List, [], ◌∷◌, ◌++◌,
  ◌≡◌, refl, sym, ap, ◌∙◌, Memᴰ, length, count, has, select, patch, if◌then◌else◌, Bool-cases,
  Option-cases, subst, mem-select, arith, false, inl, inr,
}
use Prim.Native.Char.{code}
use lit_server_nest.Prisma.{Table}

abbrev pub letters : String → List ℕ
letters String.[] = []
letters (String.◌∷◌ c s) = code c ∷ letters s

abbrev pub before_or_same : List ℕ → List ℕ → Bool
before_or_same [] ys = true
before_or_same (x ∷ xs) [] = false
before_or_same (x ∷ xs) (y ∷ ys) = ltb x y || (nat_eq x y && before_or_same xs ys)

abbrev pub by_codes : String → String → Bool
by_codes a b = before_or_same (letters a) (letters b)

pub before_or_same_total :
    (xs ys : List ℕ) → before_or_same xs ys ≡ false → before_or_same ys xs ≡ true
before_or_same_total [] ys h = cc
before_or_same_total (x ∷ xs) [] h = refl
before_or_same_total (x ∷ xs) (y ∷ ys) h = ground (arith, before_or_same_total xs ys)

pub before_or_same_trans :
    (xs ys zs : List ℕ)
    → before_or_same xs ys ≡ true
    → before_or_same ys zs ≡ true
    → before_or_same xs zs ≡ true
before_or_same_trans [] ys zs h k = refl
before_or_same_trans (x ∷ xs) [] zs h k = cc
before_or_same_trans (x ∷ xs) (y ∷ ys) [] h k = cc
before_or_same_trans (x ∷ xs) (y ∷ ys) (z ∷ zs) h k = ground (arith, before_or_same_trans xs ys zs)

by_codes_refl : (a : String) → by_codes a a ≡ true
by_codes_refl a = elim (Bool-cases (by_codes a a)) [
  | inl h ↦ h
  | inr h ↦ before_or_same_total (letters a) (letters a) h
]

module _ {Row : Type 0} where
  abbrev pub first : (Row → Bool) → List Row → Option Row
  first cond [] = none
  first cond (x ∷ xs) = if cond x then some x else first cond xs

  pub first-some :
      (cond : Row → Bool) (rows : List Row) (r : Row)
      → first cond rows ≡ some r
      → Memᴰ r rows × (cond r ≡ true)
  first-some cond [] r e = cc
  first-some cond (x ∷ xs) r e = elim (Bool-cases (cond x)) [
    | inl h ↦ let same : x ≡ r = ground arith in (Memᴰ.head (sym same), ap cond (sym same) ∙ h)
    | inr h ↦ let (at, q) = first-some cond xs r (rw h at e) in (Memᴰ.tail at, q)
  ]

  pub first-none :
      (cond : Row → Bool) (rows : List Row)
      → first cond rows ≡ none
      → (r : Row) → Memᴰ r rows
      → cond r ≡ false
  first-none cond [] e r m = elim m [ ]
  first-none cond (x ∷ xs) e r (Memᴰ.head h) = ap cond h ∙ ground arith
  first-none cond (x ∷ xs) e r (Memᴰ.tail m) = first-none cond xs (ground arith) r m

  pub select-mem :
      (cond : Row → Bool) (rows : List Row) (r : Row)
      → Memᴰ r rows
      → cond r ≡ true
      → Memᴰ r (select cond rows)
  select-mem cond [] r m e = elim m [ ]
  select-mem cond (x ∷ xs) r (Memᴰ.head h) e = rw (sym (ap cond h) ∙ e) (Memᴰ.head h)
  select-mem cond (x ∷ xs) r (Memᴰ.tail m) e = elim (Bool-cases (cond x)) [
    | inl h ↦ rw h (Memᴰ.tail (select-mem cond xs r m e))
    | inr h ↦ rw h (select-mem cond xs r m e)
  ]

  pub length-select :
      (cond : Row → Bool) (rows : List Row) → length (select cond rows) ≡ count cond rows
  length-select cond [] = refl
  length-select cond (x ∷ xs) = ground (arith, length-select cond xs)

  -- The row that comes first in the order of the key, among equals the first one.
  abbrev pub earlier : (Row → String) → Row → Option Row → Row
  earlier key x none = x
  earlier key x (some y) = if by_codes (key x) (key y) then x else y

  abbrev pub least : (Row → String) → (Row → Bool) → List Row → Option Row
  least key cond [] = none
  least key cond (x ∷ xs) =
      let rest = least key cond xs in if cond x then some (earlier key x rest) else rest

  pub least-none :
      (key : Row → String) (cond : Row → Bool) (rows : List Row)
      → least key cond rows ≡ none
      → (r : Row) → Memᴰ r rows
      → cond r ≡ false
  least-none key cond [] e r m = elim m [ ]
  least-none key cond (x ∷ xs) e r (Memᴰ.head h) = ap cond h ∙ ground arith
  least-none key cond (x ∷ xs) e r (Memᴰ.tail m) = least-none key cond xs (ground arith) r m

  earlier-cases :
      (key : Row → String) (x : Row) (o : Option Row)
      → (earlier key x o ≡ x) ⊎ (o ≡ some (earlier key x o))
  earlier-cases key x none = inl refl
  earlier-cases key x (some y) = elim (Bool-cases (by_codes (key x) (key y))) [
    | inl h ↦ inl (rw h refl)
    | inr h ↦ inr (rw h refl)
  ]

  pub least-some :
      (key : Row → String) (cond : Row → Bool) (rows : List Row) (r : Row)
      → least key cond rows ≡ some r
      → Memᴰ r rows × (cond r ≡ true)
  least-some key cond [] r e = cc
  least-some key cond (x ∷ xs) r e = elim (Bool-cases (cond x)) [
    | inl h ↦
        let same : earlier key x (least key cond xs) ≡ r = ground arith in
        elim (earlier-cases key x (least key cond xs)) [
          | inl own ↦ let e2 : r ≡ x = sym same ∙ own in (Memᴰ.head e2, ap cond e2 ∙ h)
          | inr old ↦
              let (at, q) = least-some key cond xs r (old ∙ ap some same) in (Memᴰ.tail at, q)
        ]
    | inr h ↦ let (at, q) = least-some key cond xs r (rw h at e) in (Memᴰ.tail at, q)
  ]

  earlier-first :
      (key : Row → String) (x : Row) (o : Option Row)
      → by_codes (key (earlier key x o)) (key x) ≡ true
  earlier-first key x none = by_codes_refl (key x)
  earlier-first key x (some y) = elim (Bool-cases (by_codes (key x) (key y))) [
    | inl h ↦ rw h (by_codes_refl (key x))
    | inr h ↦ rw h (before_or_same_total (letters (key x)) (letters (key y)) h)
  ]

  earlier-second :
      (key : Row → String) (x y : Row) → by_codes (key (earlier key x (some y))) (key y) ≡ true
  earlier-second key x y = elim (Bool-cases (by_codes (key x) (key y))) [
    | inl h ↦ rw h h
    | inr h ↦ rw h (by_codes_refl (key y))
  ]

  module _ (key : Row → String) (cond : Row → Bool) where
    earlier-before :
        (x : Row) (xs : List Row) (s : Row)
        → Memᴰ s (x ∷ xs)
        → cond s ≡ true
        → ((y : Row) → least key cond xs ≡ some y → Memᴰ s xs → by_codes (key y) (key s) ≡ true)
        → by_codes (key (earlier key x (least key cond xs))) (key s) ≡ true
    earlier-before x xs s (Memᴰ.head e) c first_of =
        subst (λ q. by_codes (key (earlier key x (least key cond xs))) (key q) ≡ true) (sym e)
          (earlier-first key x (least key cond xs))
    earlier-before x xs s (Memᴰ.tail m) c first_of = elim (Option-cases (least key cond xs)) [
      | inl missing ↦ let z : true ≡ false = sym c ∙ least-none key cond xs missing s m in cc
      | inr (y, found) ↦ rw found (
          before_or_same_trans (letters (key (earlier key x (some y)))) (letters (key y))
            (letters (key s)) (earlier-second key x y) (first_of y found m))
    ]

    pub least_lem :
        (rows : List Row) (r : Row)
        → least key cond rows ≡ some r
        → (s : Row) → Memᴰ s rows
        → cond s ≡ true
        → by_codes (key r) (key s) ≡ true
    least_lem [] r e s m c = elim m [ ]
    least_lem (x ∷ xs) r e s m c = elim (Bool-cases (cond x)) [
      | inl h ↦
          let same : earlier key x (least key cond xs) ≡ r = ground arith in
          subst (λ q. by_codes (key q) (key s) ≡ true) same
            (earlier-before x xs s m c (λ y found at. least_lem xs y found s at c))
      | inr h ↦ elim m [
        | Memᴰ.head q ↦ let z : true ≡ false = sym c ∙ (ap cond q ∙ h) in cc
        | Memᴰ.tail at ↦ least_lem xs r (rw h at e) s at c
      ]
    ]

  abbrev pub listed : Table Row
  listed = record {
    find_first = first;
    find_first-some = first-some;
    find_first-none = first-none;
    collates = by_codes;
    collates_total = λ a b. before_or_same_total (letters a) (letters b);
    collates_trans = λ a b c. before_or_same_trans (letters a) (letters b) (letters c);
    find_first_by = least;
    find_first_by-some = least-some;
    find_first_by-none = least-none;
    find_first_by_least = least_lem;
    find_many = select;
    find_many-mem = λ cond rows r. mem-select cond rows {x = r};
    mem-find_many = select-mem;
    length-find_many = length-select;
    update_many = λ cond f rows. (count cond rows, patch cond f rows);
    update_many_lem = λ _ _ _. refl;
    update = λ cond f rows. if has cond rows then some (patch cond f rows) else none;
    update_lem = λ _ _ _. refl;
    create_many = λ new rows. rows ++ new;
    create_many_lem = λ _ _. refl;
    delete_many = λ cond rows. select (λ r. not (cond r)) rows;
    delete_many_lem = λ _ _. refl;
    tally = count;
    tally_lem = λ _ _. refl;
  }
