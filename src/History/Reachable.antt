-- ===== src/History/Reachable.antt =====
-- The states that the booking core can reach.
use lit_server_nest.Prelude.{
  ◌<◌, ◌≤◌, true, false, Option, some, List, [], ◌∷◌, String, ◌≡◌, ◌≢◌, ◌⊎◌, inl, inr, Memᴰ, subst,
  sym, arith, refl,
}
use lit_server_nest.Reservation.{Reservation, Db, Status}
use lit_server_nest.Status.Graph.{stage}
use lit_server_nest.Tx.{Client}
use lit_server_nest.Lifecycle.{Advance, Inv, Evolves, Preserves, is_active, overlap}
use lit_server_nest.Lifecycle.Patches.{Preserves-refl, Preserves-trans}
use lit_server_nest.History.{Reach, start, after}
use lit_server_nest.History.Steps.{Step-Preserves}

-- Any number of steps keeps the invariant, and moves reservations only forwards.
pub Reach-Preserves :
    (client : Client) {db out : Db}
    → Reach client db out
    → Preserves db.reservations out.reservations
Reach-Preserves client {db} start = Preserves-refl db.reservations
Reach-Preserves client {db} {out} (after {mid = mid} s r) =
    Preserves-trans db.reservations mid.reservations out.reservations
      (Step-Preserves client db mid s) (Reach-Preserves client r)

-- Where a reservation of the old table is in the new one.
pub successor :
    (old new : List Reservation)
    → Evolves old new
    → (x : Reservation) → Memᴰ x old
    → (y : Reservation) × Memᴰ y new × Advance x y
successor [] new h x m = elim m [ ]
successor (z ∷ old) [] h x m = absurd h
successor (z ∷ old) (y ∷ new) h x (Memᴰ.head e) =
    (y, Memᴰ.head refl, subst (λ q. Advance q y) (sym e) h.0)
successor (z ∷ old) (y ∷ new) h x (Memᴰ.tail m) =
    let (w, at, adv) = successor old new h.1 x m in (w, Memᴰ.tail at, adv)

stage-le : (o : Option Status) → stage o ≤ 3
stage-le o = ground arith

final_kept : (x y : Option Status) → stage x ≡ 3 → (y ≡ x) ⊎ (stage x < stage y) → y ≡ x
final_kept x y h (inl e) = e
final_kept x y h (inr k) = absurd (omega (arith, stage-le y))

module _ (client : Client) (db out : Db) (path : Reach client db out)
    (inv : Inv db.reservations) where
  -- In every state that can be reached from one where the invariant holds, no storage is promised to
  -- two different active reservations whose hours meet.
  pub reachable-no_double :
      (a b : Reservation) (k : String)
      → Memᴰ a out.reservations
      → Memᴰ b out.reservations
      → a.id ≢ b.id
      → is_active a ≡ true
      → is_active b ≡ true
      → a.storage_id ≡ some k
      → b.storage_id ≡ some k
      → overlap a b ≡ false
  reachable-no_double = (Reach-Preserves client path inv).0.no_double

  -- From a state where the invariant holds, a reservation whose status is final (rejected, completed,
  -- cancelled, no-show or NULL) is still there after any number of steps, with the same status.
  pub reachable-final :
      (x : Reservation)
      → Memᴰ x db.reservations
      → stage x.status ≡ 3
      → (y : Reservation) × Memᴰ y out.reservations × (y.id ≡ x.id) × (y.status ≡ x.status)
  reachable-final x m h =
      let (y, at, adv) =
        successor db.reservations out.reservations (Reach-Preserves client path inv).1 x m in
      (y, at, adv.same_id, final_kept x.status y.status h adv.forward)

  -- From a state where the invariant holds, a reservation keeps its store, its group, its hours and its
  -- number of bags through any number of steps, and its status never goes back to an earlier stage.
  pub reachable-forward :
      (x : Reservation)
      → Memᴰ x db.reservations
      → (y : Reservation) × Memᴰ y out.reservations
        × Advance x y
        × (stage x.status ≤ stage y.status)
  reachable-forward x m =
      let (y, at, adv) =
        successor db.reservations out.reservations (Reach-Preserves client path inv).1 x m in
      (y, at, adv, not_back x.status y.status adv.forward)
    where
      not_back : (p q : Option Status) → (q ≡ p) ⊎ (stage p < stage q) → stage p ≤ stage q
      not_back p q (inl e) = subst (λ t. stage p ≤ stage t) (sym e) (omega arith)
      not_back p q (inr k) = omega arith
