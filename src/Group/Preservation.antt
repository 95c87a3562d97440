-- ===== src/Group/Preservation.antt =====
-- Changes of a whole group against the invariant of the reservations.
use lit_server_nest.Prelude.{
  true, subst, sym, List, [], ◌∷◌, Option, String, ◌≡◌, refl, ◌∙◌, arith, Memᴰ, none, some, get_or,
}
use lit_server_nest.Reservation.{Reservation, Db, Status, status_in}
use lit_server_nest.Tx.{Client, Tx, truthy}
use lit_server_nest.Tx.Ensures.{
  Ensures, ensures_pure, ensures_bind, ensures_read_one, ensures_update_many, ensures_last_throw_if,
}
use lit_server_nest.Lifecycle.{Preserves}
use lit_server_nest.Lifecycle.Patches.{Keeps, patch-Preserves}
use lit_server_nest.Group.{
  members_of, resolve_group, swap_group, swap_where, for_each, reservation_where, group_where,
  find_representative,
}

-- The reservations are those of `db`.
abbrev pub Same {ℓ} : {A : Type ℓ} → Db → A → Db → Type 0
Same db _ out = out.reservations ≡ db.reservations

pub for_each-Same :
    (act : Option String → Tx (Unit {0}))
    → ((db : Db) (o : Option String) → Ensures (act o) db (Same db))
    → (members : List Reservation) (db : Db) → Ensures (for_each act members) db (Same db)
unfolding for_each
for_each-Same act h [] db = ensures_pure tt refl
for_each-Same act h (r ∷ rs) db =
    ensures_bind (Same db) _ _ (h db r.storage_id)
      λ u mid same. record { holds = λ v out e. (for_each-Same act h rs mid).holds v out e ∙ same }

-- Reading before and the storages after do not count.
pub carried :
    (db mid swapped out : Db)
    → mid ≡ db
    → Preserves mid.reservations swapped.reservations
    → out.reservations ≡ swapped.reservations
    → Preserves db.reservations out.reservations
carried db mid swapped out p kept q =
    subst (λ rows. Preserves db.reservations rows) (sym q)
      (subst (λ (d : Db). Preserves d.reservations swapped.reservations) p kept)

selected :
    (members : List Reservation) (allowed_from : List Status) (x : Reservation)
    → swap_where members allowed_from x ≡ true
    → status_in allowed_from x.status ≡ true
selected members allowed_from x h = ground arith

module _ (client : Client) where
  abbrev pub group_rows :
      List Reservation → Reservation → Option String → Option String → List Reservation
  group_rows rows r scope none = r ∷ []
  group_rows rows r scope (some group) =
      client.reservations.find_many (group_where group scope) rows

  -- The row that was asked for, and the rows of its group.
  pub record Resolved (rows : List Reservation) (reservation_id : String) (scope : Option String)
      (representative : Reservation) (members : List Reservation) : Type 0 where
    pub target : Reservation
    pub listed : Memᴰ target rows
    pub matched : reservation_where reservation_id scope target ≡ true
    pub whole : members ≡ group_rows rows target scope (truthy target.reservation_group_id)
    pub first : representative ≡ get_or (find_representative members) target

  -- The members are rows of the table, in scope and of the group.
  pub group_rows-mem :
      (rows : List Reservation) (r : Reservation) (scope o : Option String)
      → Memᴰ r rows
      → (m : Reservation) → Memᴰ m (group_rows rows r scope o)
      → Memᴰ m rows
  group_rows-mem rows r scope none at m (Memᴰ.head e) = subst (λ q. Memᴰ q rows) (sym e) at
  group_rows-mem rows r scope none at m (Memᴰ.tail t) = elim t [ ]
  group_rows-mem rows r scope (some group) at m t =
      (client.reservations.find_many-mem (group_where group scope) rows m t).0

  pub members_of-rows :
      (r : Reservation) (scope o : Option String) (db : Db)
      → Ensures
          (members_of client r scope o)
          db
          (λ members out. (out ≡ db) × (members ≡ group_rows db.reservations r scope o))
  unfolding members_of
  members_of-rows r scope none db = ensures_pure _ (refl, refl)
  members_of-rows r scope (some group) db = record { holds = λ members out e. (cc, cc) }

  -- Finding the group reads only.
  pub resolve_group-Resolved :
      (reservation_id : String) (store_id : Option String) (db : Db)
      → Ensures
          (resolve_group client reservation_id store_id)
          db
          (λ p out. (out ≡ db) × Resolved db.reservations reservation_id (truthy store_id) p.0 p.1)
  unfolding resolve_group
  resolve_group-Resolved reservation_id store_id db =
      ensures_read_one client (reservation_where reservation_id (truthy store_id)) _ _ λ r at mine.
        ensures_bind _ _ _ (members_of-rows r (truthy store_id) (truthy r.reservation_group_id) db)
          λ members mid found. ensures_pure _ (
            found.0,
            record { target = r; listed = at; matched = mine; whole = found.1; first = refl },
          )

  pub swap_group-Preserves :
      (members : List Reservation) (allowed_from : List Status) (f : Reservation → Reservation)
      (db : Db)
      → ((x : Reservation) → status_in allowed_from x.status ≡ true → Keeps x (f x))
      → Ensures
          (swap_group client members allowed_from f)
          db
          (λ _ out. Preserves db.reservations out.reservations)
  unfolding swap_group
  swap_group-Preserves members allowed_from f db keeps =
      ensures_update_many client (swap_where members allowed_from) f _ (
        ensures_last_throw_if _ _ (
          patch-Preserves (swap_where members allowed_from) f db.reservations
            (λ x m e. keeps x (selected members allowed_from x e))))
