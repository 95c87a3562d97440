-- ===== src/Lifecycle/Patches.antt =====
-- Updates that leave the storage of a reservation alone, against the invariant.
use lit_server_nest.Prelude.{
  ◌<◌, Bool, true, false, Option, none, some, List, [], ◌∷◌, ◌≡◌, ◌⊎◌, inl, inr, refl, sym, ap, ◌∙◌,
  subst, String, ◌==◌, eq_iff, Memᴰ, step_row, patch, mem-patch, Bool-cases, arith,
}
use lit_server_nest.Reservation.{Reservation, Status}
use lit_server_nest.Status.Graph.{stage}
use lit_server_nest.Lifecycle.{Advance, Evolves, is_active, overlap, Preserves}

-- A row that advances and keeps its storage.
pub record Keeps (x y : Reservation) : Type 0 where
  pub advance : Advance x y
  pub same_storage : y.storage_id ≡ x.storage_id

pub Advance-refl : (x : Reservation) → Advance x x
Advance-refl x = record {
  same_id = refl;
  same_store = refl;
  same_group = refl;
  same_start = refl;
  same_end = refl;
  same_bags = refl;
  forward = inl refl;
}

later :
    (x y z : Option Status)
    → (y ≡ x) ⊎ (stage x < stage y)
    → (z ≡ y) ⊎ (stage y < stage z)
    → (z ≡ x) ⊎ (stage x < stage z)
later x y z (inl p) (inl q) = inl (q ∙ p)
later x y z (inl p) (inr q) = inr (subst (λ t. stage t < stage z) p q)
later x y z (inr p) (inl q) = inr (subst (λ t. stage x < stage t) (sym q) p)
later x y z (inr p) (inr q) = inr (omega arith)

pub Advance-trans : {x y z : Reservation} → Advance x y → Advance y z → Advance x z
Advance-trans {x} {y} {z} a b = record {
  same_id = b.same_id ∙ a.same_id;
  same_store = b.same_store ∙ a.same_store;
  same_group = b.same_group ∙ a.same_group;
  same_start = b.same_start ∙ a.same_start;
  same_end = b.same_end ∙ a.same_end;
  same_bags = b.same_bags ∙ a.same_bags;
  forward = later x.status y.status z.status a.forward b.forward;
}

pub Evolves-refl : (rows : List Reservation) → Evolves rows rows
Evolves-refl [] = tt
Evolves-refl (x ∷ xs) = (Advance-refl x, Evolves-refl xs)

pub Evolves-trans : (a b c : List Reservation) → Evolves a b → Evolves b c → Evolves a c
Evolves-trans [] b c h k = tt
Evolves-trans (x ∷ a) [] c h k = absurd h
Evolves-trans (x ∷ a) (y ∷ b) [] h k = absurd k
Evolves-trans (x ∷ a) (y ∷ b) (z ∷ c) h k = (Advance-trans h.0 k.0, Evolves-trans a b c h.1 k.1)

pub Preserves-refl : (rows : List Reservation) → Preserves rows rows
Preserves-refl rows inv = (inv, Evolves-refl rows)

pub Preserves-trans : (a b c : List Reservation) → Preserves a b → Preserves b c → Preserves a c
Preserves-trans a b c h k inv =
    let (inv_b, ab) = h inv in let (inv_c, bc) = k inv_b in (inv_c, Evolves-trans a b c ab bc)

module _ (cond : Reservation → Bool) (f : Reservation → Reservation) where
  pub Evolves-patch :
      (rows : List Reservation)
      → ((x : Reservation) → Memᴰ x rows → Advance x (step_row cond f x))
      → Evolves rows (patch cond f rows)
  Evolves-patch [] h = tt
  Evolves-patch (x ∷ xs) h = (h x (Memᴰ.head refl), Evolves-patch xs (λ y m. h y (Memᴰ.tail m)))

  step_row-Keeps : (x : Reservation) → (cond x ≡ true → Keeps x (f x)) → Keeps x (step_row cond f x)
  step_row-Keeps x h = elim (Bool-cases (cond x)) [
    | inl e ↦ rw e (h e)
    | inr e ↦ rw e (record { advance = Advance-refl x; same_storage = refl })
  ]

  pub patch-keyed :
      (rows : List Reservation)
      → ((x : Reservation) → Memᴰ x rows → Advance x (step_row cond f x))
      → ((a b : Reservation) → Memᴰ a rows → Memᴰ b rows → a.id ≡ b.id → a ≡ b)
      → (a b : Reservation) → Memᴰ a (patch cond f rows)
      → Memᴰ b (patch cond f rows)
      → a.id ≡ b.id
      → a ≡ b
  patch-keyed rows h keyed a b at bt e =
      let (a0, a_old, a_new) = mem-patch cond f rows at in
      let (b0, b_old, b_new) = mem-patch cond f rows bt in
      let same : a0.id ≡ b0.id =
        sym (h a0 a_old).same_id
        ∙ ap (λ r. r.id) (sym a_new)
        ∙ e
        ∙ ap (λ r. r.id) b_new
        ∙ (h b0 b_old).same_id in
      a_new ∙ ap (step_row cond f) (keyed a0 b0 a_old b_old same) ∙ sym b_new

still_unassigned :
    (x y : Reservation)
    → Keeps x y
    → (stage x.status ≡ 0 → x.storage_id ≡ none)
    → stage y.status ≡ 0
    → y.storage_id ≡ none
still_unassigned x y keeps free h = elim keeps.advance.forward [
  | inl same ↦ keeps.same_storage ∙ free (subst (λ t. stage t ≡ 0) same h)
  | inr later ↦ absurd (omega arith)
]

was_active :
    (x y : Reservation) (k : String)
    → Keeps x y
    → (stage x.status ≡ 0 → x.storage_id ≡ none)
    → is_active y ≡ true
    → y.storage_id ≡ some k
    → is_active x ≡ true
unfolding is_active
was_active x y k keeps free h s = ground (arith, keeps.advance.forward, keeps.same_storage)

overlap_kept :
    (a b a' b' : Reservation)
    → Advance a a'
    → Advance b b'
    → overlap a b ≡ false
    → overlap a' b' ≡ false
unfolding overlap
overlap_kept a b a' b' p q h = cc (p.same_start, p.same_end, q.same_start, q.same_end, h)

-- Rows that a test selects may advance, as long as they keep their storage.
pub patch-Preserves :
    (cond : Reservation → Bool) (f : Reservation → Reservation) (rows : List Reservation)
    → ((x : Reservation) → Memᴰ x rows → cond x ≡ true → Keeps x (f x))
    → Preserves rows (patch cond f rows)
patch-Preserves cond f rows h inv =
    let keeps : (x : Reservation) → Memᴰ x rows → Keeps x (step_row cond f x) =
      λ x m. step_row-Keeps cond f x (h x m) in
    let advances : (x : Reservation) → Memᴰ x rows → Advance x (step_row cond f x) =
      λ x m. (keeps x m).advance in
    (
      record {
        keyed = patch-keyed cond f rows advances inv.keyed;
        unassigned = λ a at h0.
            let (x, old, new) = mem-patch cond f rows at in
            still_unassigned x a (subst (Keeps x) (sym new) (keeps x old)) (inv.unassigned x old)
              h0;
        no_double = λ a b k at bt ne a_active b_active a_storage b_storage.
            let (x, x_old, x_new) = mem-patch cond f rows at in
            let (y, y_old, y_new) = mem-patch cond f rows bt in
            let p = subst (Keeps x) (sym x_new) (keeps x x_old) in
            let q = subst (Keeps y) (sym y_new) (keeps y y_old) in
            overlap_kept x y a b p.advance q.advance (
              inv.no_double x y k x_old y_old
                (λ e. ne (p.advance.same_id ∙ e ∙ sym q.advance.same_id))
                (was_active x a k p (inv.unassigned x x_old) a_active a_storage)
                (was_active y b k q (inv.unassigned y y_old) b_active b_storage)
                (sym p.same_storage ∙ a_storage) (sym q.same_storage ∙ b_storage));
      },
      Evolves-patch cond f rows advances,
    )

-- In particular the one row with a given id.
pub one-Preserves :
    (rows : List Reservation) (found : Reservation) (f : Reservation → Reservation)
    → Memᴰ found rows
    → Keeps found (f found)
    → Preserves rows (patch (λ r. r.id == found.id) f rows)
one-Preserves rows found f listed keeps inv =
    patch-Preserves (λ r. r.id == found.id) f rows
      (λ x m e.
        subst (λ r. Keeps r (f r)) (inv.keyed found x listed m (sym ((eq_iff x.id found.id).0 e)))
          keeps)
      inv
