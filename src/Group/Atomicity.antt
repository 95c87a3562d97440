-- ===== src/Group/Atomicity.antt =====
-- Which rows a change of a group (`markNoShow`, `transitionInTx`) reaches.
use lit_server_nest.Prelude.{
  Bool, true, false, Option, List, [], ◌∷◌, String, ◌==◌, ◌≡◌, refl, sym, subst, ◌∙◌, arith, ℕ,
  Memᴰ, has, has-true, has-false, patch, eq_iff, inl, inr, Bool-cases, length,
}
use lit_server_nest.Reservation.{Reservation, Db, Status, status_in}
use lit_server_nest.Tx.{Client, truthy}
use lit_server_nest.Tx.Ensures.{Ensures, ensures_update_many, ensures_last_throw_if}
use lit_server_nest.Group.Preservation.{Resolved, group_rows-mem}
use lit_server_nest.Group.{blocked_by, is_member, swap_group, swap_where}

-- The id is a key of the rows.
abbrev pub Keyed : List Reservation → Type 0
Keyed rows = (a b : Reservation) → Memᴰ a rows → Memᴰ b rows → a.id ≡ b.id → a ≡ b

unblocked :
    (allowed_from : List Status) (m : Reservation)
    → blocked_by allowed_from m ≡ false
    → status_in allowed_from m.status ≡ true
unblocked allowed_from m h = ground arith

-- A row with the id of a member is that member, so it has an allowed status.
pub member_allowed :
    (rows members : List Reservation) (allowed_from : List Status) (x : Reservation)
    → Keyed rows
    → ((m : Reservation) → Memᴰ m members → Memᴰ m rows)
    → ((m : Reservation) → Memᴰ m members → blocked_by allowed_from m ≡ false)
    → Memᴰ x rows
    → is_member members x.id ≡ true
    → status_in allowed_from x.status ≡ true
member_allowed rows members allowed_from x keyed inside free at chosen =
    let (m, listed, same) = has-true (λ (r : Reservation). r.id == x.id) members chosen in
    let e = keyed m x (inside m listed) at ((eq_iff m.id x.id).0 same) in
    subst (λ r. status_in allowed_from r.status ≡ true) e (unblocked allowed_from m (free m listed))

patch-cong :
    (p q : Reservation → Bool) (f : Reservation → Reservation) (rows : List Reservation)
    → ((x : Reservation) → Memᴰ x rows → p x ≡ q x)
    → patch p f rows ≡ patch q f rows
patch-cong p q f [] h = refl
patch-cong p q f (x ∷ xs) h =
    rw (h x (Memᴰ.head refl), patch-cong p q f xs (λ y m. h y (Memᴰ.tail m)))

narrowed :
    (members : List Reservation) (allowed_from : List Status) (x : Reservation)
    → (is_member members x.id ≡ true → status_in allowed_from x.status ≡ true)
    → swap_where members allowed_from x ≡ is_member members x.id
narrowed members allowed_from x h = elim (Bool-cases (is_member members x.id)) [
  | inl e ↦ rw (e, h e)
  | inr e ↦ rw e
]

-- Once no member is blocked, the swap changes all the members and no other row.
pub swap_group-exact :
    (client : Client) (members : List Reservation) (allowed_from : List Status)
    (f : Reservation → Reservation) (db : Db)
    → Keyed db.reservations
    → ((m : Reservation) → Memᴰ m members → Memᴰ m db.reservations)
    → ((m : Reservation) → Memᴰ m members → blocked_by allowed_from m ≡ false)
    → Ensures
        (swap_group client members allowed_from f)
        db
        (λ _ out. out.reservations ≡ patch (λ x. is_member members x.id) f db.reservations)
unfolding swap_group
swap_group-exact client members allowed_from f db keyed inside free =
    ensures_update_many client (swap_where members allowed_from) f _ (
      ensures_last_throw_if _ _ (
        patch-cong (swap_where members allowed_from) (λ x. is_member members x.id) f db.reservations
          (λ x m.
            narrowed members allowed_from x
              (member_allowed db.reservations members allowed_from x keyed inside free m))))

-- What a change of the group of a reservation has done: the group was found, none of its members was
-- blocked, exactly its members have changed, and they were counted.
pub record GroupChanged (client : Client) (reservation_id : String) (store_id : Option String)
    (allowed_from : List Status) (f : Reservation → Reservation → Reservation) (db : Db)
    (representative : Reservation) (members : List Reservation) (updated_count : ℕ) (out : Db)
    : Type 0 where
  pub resolved :
      Resolved client db.reservations reservation_id (truthy store_id) representative members
  pub unblocked : (m : Reservation) → Memᴰ m members → blocked_by allowed_from m ≡ false
  pub exact :
      out.reservations ≡ patch (λ x. is_member members x.id) (f representative) db.reservations
  pub counted : updated_count ≡ length members

module _ (client : Client) (reservation_id : String) (store_id : Option String)
    (allowed_from : List Status) (f : Reservation → Reservation → Reservation) (db mid : Db)
    (representative : Reservation) (members : List Reservation)
    (resolved : (mid ≡ db)
      × Resolved client db.reservations reservation_id (truthy store_id) representative members)
    (free : has (blocked_by allowed_from) members ≡ false) where
  pub resolved_swap :
      Keyed db.reservations
      → Ensures (swap_group client members allowed_from (f representative)) mid (λ _ out.
        out.reservations ≡ patch (λ x. is_member members x.id) (f representative) db.reservations)
  resolved_swap keyed =
      let target = resolved.1.target in
      let inside : (m : Reservation) → Memᴰ m members → Memᴰ m db.reservations = λ m t.
        group_rows-mem client db.reservations target (truthy store_id)
          (truthy target.reservation_group_id) resolved.1.listed m
          (subst (Memᴰ m) resolved.1.whole t) in
      subst
        (λ (d : Db). Ensures (swap_group client members allowed_from (f representative)) d (λ _ out.
          out.reservations
          ≡ patch (λ x. is_member members x.id) (f representative) db.reservations))
        (sym resolved.0)
        (swap_group-exact client members allowed_from (f representative) db keyed inside
          (λ m t. has-false (blocked_by allowed_from) members free t))

  pub resolved_changed :
      (swapped out : Db)
      → swapped.reservations
        ≡ patch (λ x. is_member members x.id) (f representative) db.reservations
      → out.reservations ≡ swapped.reservations
      → GroupChanged client reservation_id store_id allowed_from f db representative members
          (length members)
          out
  resolved_changed swapped out exact same = record {
    resolved = resolved.1;
    unblocked = λ m t. has-false (blocked_by allowed_from) members free t;
    exact = same ∙ exact;
    counted = refl;
  }
