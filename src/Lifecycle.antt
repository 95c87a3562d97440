-- ===== src/Lifecycle.antt =====
-- What must hold of the reservations between two transactions, and how one transaction may change
-- them, whichever service it belongs to.
pub mod Patches
pub mod Assigning
use lit_server_nest.Prelude.{
  ℕ, ◌<◌, Bool, true, false, ◌&&◌, Option, none, some, List, [], ◌∷◌, ◌≡◌, ◌≢◌, ◌⊎◌, String, Memᴰ,
  ltb,
}
use lit_server_nest.Reservation.{
  Reservation, Status, is_status, status_in, active_reservation_statuses,
}
use lit_server_nest.Status.Graph.{stage}

-- The identity of a reservation, its owner, its group and its hours never change, and its status
-- stays or goes to a later stage.
pub record Advance (x y : Reservation) : Type 0 where
  pub same_id : y.id ≡ x.id
  pub same_store : y.store_id ≡ x.store_id
  pub same_group : y.reservation_group_id ≡ x.reservation_group_id
  pub same_start : y.start_time ≡ x.start_time
  pub same_end : y.end_time ≡ x.end_time
  pub same_bags : y.bag_count ≡ x.bag_count
  pub forward : (y.status ≡ x.status) ⊎ (stage x.status < stage y.status)

-- Every reservation of the old table is in the new one and has advanced; new ones may follow.
abbrev pub Evolves : List Reservation → List Reservation → Type 0
Evolves [] new = Unit
Evolves (x ∷ old) [] = ⊥
Evolves (x ∷ old) (y ∷ new) = Advance x y × Evolves old new

unfoldable pub is_active : Reservation → Bool
unfolding is_status
is_active r = status_in active_reservation_statuses r.status

-- Two stays with an end each have a moment in common.
unfoldable pub hours_meet : ℕ → Option ℕ → ℕ → Option ℕ → Bool
hours_meet a_start (some a_end) b_start (some b_end) = ltb a_start b_end && ltb b_start a_end
hours_meet _ _ _ _ = false

unfoldable pub overlap : Reservation → Reservation → Bool
overlap a b = hours_meet a.start_time a.end_time b.start_time b.end_time

pub record Inv (rows : List Reservation) : Type 0 where
  -- The id is a key.
  pub keyed : (a b : Reservation) → Memᴰ a rows → Memᴰ b rows → a.id ≡ b.id → a ≡ b
  -- A reservation that is not approved yet has no storage.
  pub unassigned : (a : Reservation) → Memᴰ a rows → stage a.status ≡ 0 → a.storage_id ≡ none
  -- No storage is promised to two active reservations at the same time.
  pub no_double :
      (a b : Reservation) (k : String)
      → Memᴰ a rows
      → Memᴰ b rows
      → a.id ≢ b.id
      → is_active a ≡ true
      → is_active b ≡ true
      → a.storage_id ≡ some k
      → b.storage_id ≡ some k
      → overlap a b ≡ false

-- A change of the reservations that keeps the invariant.
abbrev pub Preserves : List Reservation → List Reservation → Type 0
Preserves old new = Inv old → Inv new × Evolves old new
