-- ===== src/Command/Approval.antt =====
-- `approveReservation` against the invariant of the reservations: the storage that is attached
-- already, and the one that is picked.
use lit_server_nest.Prelude.{
  ℕ, true, false, Option, none, some, List, String, ◌==◌, ◌≡◌, ◌≢◌, refl, sym, subst, ◌∙◌, ok,
  arith, Memᴰ, patch,
}
use lit_server_nest.Reservation.{Reservation, Storage, StorageType, Db}
use lit_server_nest.Status.{assert_can_approve}
use lit_server_nest.Status.Graph.{stage}
use lit_server_nest.Tx.{Client, truthy}
use lit_server_nest.Tx.Ensures.{
  Ensures, ensures_pure, ensures_bind, ensures_read_one, ensures_assert, ensures_present,
  ensures_update,
}
use lit_server_nest.ReservationStorage.{find_storage_for_reservation}
use lit_server_nest.ReservationStorage.Assignment.{
  find_storage-Suitable, find_storage_unchanged, is_active-blocks,
}
use lit_server_nest.Lifecycle.{Advance, Evolves, Inv, is_active, overlap}
use lit_server_nest.Lifecycle.Assigning.{assign_kept}
use lit_server_nest.Command.{
  approve_reservation, choose_storage, storage_for, hours_of, assigned_pair, approved,
}

-- No other active reservation of the chosen storage meets the hours of the reservation.
abbrev Chosen : List Reservation → Reservation → Option String → Type 0
Chosen rows r key =
    (b : Reservation) (k : String)
    → Memᴰ b rows
    → b.id ≢ r.id
    → is_active b ≡ true
    → key ≡ some k
    → b.storage_id ≡ some k
    → overlap r b ≡ false

truthy-eq-some : (o : Option String) (k : String) → truthy o ≡ some k → o ≡ some k
truthy-eq-some none k h = cc
truthy-eq-some (some a) k h = ground arith

active_of_stage :
    (r : Reservation)
    → assert_can_approve r.status ≡ ok tt
    → stage r.status ≢ 0
    → is_active r ≡ true
unfolding assert_can_approve is_active
active_of_stage r can late = ground arith

approved-Advance :
    (now : ℕ) (r : Reservation) (a b : Option String)
    → assert_can_approve r.status ≡ ok tt
    → Advance r (approved now r a b r)
unfolding assert_can_approve
approved-Advance now r a b can = record {
  same_id = refl;
  same_store = refl;
  same_group = refl;
  same_start = refl;
  same_end = refl;
  same_bags = refl;
  forward = ground arith;
}

module _ (client : Client) (store_id : String) where
  found-Chosen :
      (db : Db) (r : Reservation) (type : StorageType) (found : Option Storage)
      → find_storage_for_reservation client (hours_of store_id r type) db ≡ ok (found, db)
      → Chosen db.reservations r (assigned_pair found).0
  found-Chosen db r type none h b k m ne act q s = cc
  found-Chosen db r type (some t) h b k m ne act q s =
      (find_storage-Suitable client (hours_of store_id r type) db r t (refl, refl) h).1.free b m
        (is_active-blocks b act) (s ∙ sym q)

  storage_for-Chosen :
      (db : Db) (r : Reservation) (type : StorageType) (o : Option String)
      → Inv db.reservations
      → Memᴰ r db.reservations
      → assert_can_approve r.status ≡ ok tt
      → truthy r.storage_id ≡ o
      → Ensures
          (storage_for client store_id r type o)
          db
          (λ c mid. (mid ≡ db) × Chosen db.reservations r c.0)
  unfolding storage_for
  storage_for-Chosen db r type (some key) inv at can e = ensures_pure _ (
    refl,
    λ b k m ne act q s.
        let mine = truthy-eq-some r.storage_id key e in
        inv.no_double r b key at m (λ h. ne (sym h))
          (active_of_stage r can (λ z. cc (inv.unassigned r at z, mine))) act mine (s ∙ sym q),
  )
  storage_for-Chosen db r type none inv at can e =
      ensures_bind (λ found mid. (mid ≡ db) × Chosen db.reservations r (assigned_pair found).0)
        (find_storage_for_reservation client (hours_of store_id r type)) _
        (record {
          holds = λ found mid h.
              let (same, found_here) =
                find_storage_unchanged client (hours_of store_id r type) db found mid h in
              (same, found-Chosen db r type found found_here);
        })
        λ found mid h. ensures_pure _ h

-- Approval keeps the invariant and moves reservations only forwards.
pub approve_reservation-Preserves :
    (client : Client) (now : ℕ) (store_id reservation_id : String) (db : Db)
    → Inv db.reservations
    → Ensures
        (approve_reservation client now store_id reservation_id)
        db
        (λ _ out. Inv out.reservations × Evolves db.reservations out.reservations)
unfolding approve_reservation choose_storage
approve_reservation-Preserves client now store_id reservation_id db inv =
    ensures_read_one client _ _ _ λ r at mine. ensures_assert _ _ λ can.
      ensures_present _ _ _ λ type has_type.
        ensures_bind _ _ _
          (storage_for-Chosen client store_id db r type (truthy r.storage_id) inv at can refl)
          λ chosen mid picked. ensures_update client _ _ _ (
            ensures_pure _ (
              let f = approved now r chosen.0 chosen.1 in
              subst
                (λ (d : Db).
                  Inv (patch (λ q. q.id == r.id) f d.reservations)
                  × Evolves db.reservations (patch (λ q. q.id == r.id) f d.reservations))
                (sym picked.0)
                (assign_kept db.reservations r f inv at
                  (approved-Advance now r chosen.0 chosen.1 can) (omega arith) picked.1)))
