-- ===== src/Status/Graph.antt =====
-- The life of a reservation as a relation between statuses, and what the assertions decide of it.
use lit_server_nest.Prelude.{
  ℕ, suc, ◌+◌, ◌≤◌, ◌<◌, ◌≡◌, ◌≢◌, ◌↔◌, ◌⊎◌, inl, inr, refl, ap, Option, none, some, ok, arith,
}
use lit_server_nest.Reservation.{
  Status, pending, pending_approval, confirmed, rejected, in_progress, completed, cancelled,
}
use lit_server_nest.Status.{assert_can_transition}

infix 40 ◌⟶◌
-- The graph of the changes to another status.
pub data ◌⟶◌ : Status → Status → Type 0 where
  approve : pending ⟶ confirmed
  refuse : pending ⟶ rejected
  withdraw : pending ⟶ cancelled
  approve_waiting : pending_approval ⟶ confirmed
  refuse_waiting : pending_approval ⟶ rejected
  withdraw_waiting : pending_approval ⟶ cancelled
  check_in : confirmed ⟶ in_progress
  skip : confirmed ⟶ completed
  cancel : confirmed ⟶ cancelled
  check_out : in_progress ⟶ completed
  abort : in_progress ⟶ cancelled

ruleset edges = (
  approve, refuse, withdraw, approve_waiting, refuse_waiting, withdraw_waiting, check_in, skip,
  cancel, check_out, abort,
)

not_from_null : (y : Status) → assert_can_transition none y ≢ ok tt
unfolding assert_can_transition
not_from_null y h = cc

no_edge : (y : Status) → ¬ ((none ≡ some y) ⊎ ((x : Status) × (none ≡ some x) × (x ⟶ y)))
no_edge y (inl e) = cc
no_edge y (inr (x, e, _)) = cc

allowed-⟶ : (x y : Status) → assert_can_transition (some x) y ≡ ok tt → (x ≡ y) ⊎ (x ⟶ y)
unfolding assert_can_transition
allowed-⟶ x y h = grind (arith, edges)

-- How far a status is along its life; the final statuses and NULL stand at 3.
abbrev pub stage : Option Status → ℕ
stage (some pending) = 0
stage (some pending_approval) = 0
stage (some confirmed) = 1
stage (some in_progress) = 2
stage _ = 3

accepted :
    (x y : Status)
    → assert_can_transition (some x) y ≡ ok tt
    → (some x ≡ some y) ⊎ ((z : Status) × (some x ≡ some z) × (z ⟶ y))
accepted x y h = elim (allowed-⟶ x y h) [ inl e ↦ inl (ap some e) | inr edge ↦ inr (x, refl, edge) ]

stays : (x y : Status) → some x ≡ some y → assert_can_transition (some x) y ≡ ok tt
unfolding assert_can_transition
stays x y e = ground arith

edge_allowed : {x y : Status} → x ⟶ y → assert_can_transition (some x) y ≡ ok tt
unfolding assert_can_transition
edge_allowed approve = refl
edge_allowed _ = refl

follows : (x z y : Status) → some x ≡ some z → z ⟶ y → assert_can_transition (some x) y ≡ ok tt
follows x z y e edge = rw e (edge_allowed edge)

-- `assertCanTransition` accepts a change exactly when the status stays as it is or the change is
-- one of the graph: from pending or awaiting approval to confirmed, rejected or cancelled, from
-- confirmed to in progress, completed or cancelled, and from in progress to completed or
-- cancelled. From a NULL status it accepts nothing.
pub assert_can_transition_iff :
    (current : Option Status) (y : Status)
    → (assert_can_transition current y ≡ ok tt)
      ↔ ((current ≡ some y) ⊎ ((x : Status) × (current ≡ some x) × (x ⟶ y)))
assert_can_transition_iff none y = (λ h. absurd (not_from_null y h), λ h. absurd (no_edge y h))
assert_can_transition_iff (some x) y =
    (accepted x y, λ h. elim h [ inl e ↦ stays x y e | inr (z, e, edge) ↦ follows x z y e edge ])

-- An edge leads to a strictly later stage.
pub stage-⟶ : {x y : Status} → x ⟶ y → stage (some x) < stage (some y)
stage-⟶ approve = omega arith
stage-⟶ _ = omega arith

-- Changes in a row, each to another status, that `assertCanTransition` accepts.
pub data Accepted : Status → Status → Type 0 where
  here : {x : Status} → Accepted x x
  next :
      {x y z : Status}
      → x ≢ y
      → assert_can_transition (some x) y ≡ ok tt
      → Accepted y z
      → Accepted x z

abbrev pub steps : {x y : Status} → Accepted x y → ℕ
steps here = 0
steps (next n e p) = suc (steps p)

later_stage :
    (x y : Status)
    → x ≢ y
    → assert_can_transition (some x) y ≡ ok tt
    → stage (some x) < stage (some y)
later_stage x y n e = elim (allowed-⟶ x y e) [
  | inl same ↦ absurd (n same)
  | inr edge ↦ stage-⟶ edge
]

-- Changes in a row that `assertCanTransition` accepts, each to another status, are at most as many
-- as there are stages between the first status and the last one, so three at most: a waiting
-- status is at stage 0, confirmed at 1, in progress at 2, and every other one at 3.
pub steps-le : {x y : Status} (p : Accepted x y) → steps p + stage (some x) ≤ stage (some y)
steps-le here = omega arith
steps-le (next {x} {y} n e p) = omega (arith, later_stage x y n e, steps-le p)

other : {x y : Status} → x ⟶ y → x ≢ y
other {x} {y} edge e = absurd (omega (arith, stage-⟶ edge, ap (λ (s : Status). stage (some s)) e))

pub follow : {x y z : Status} → x ⟶ y → Accepted y z → Accepted x z
follow edge p = next (other edge) (edge_allowed edge) p

-- From pending, awaiting approval, confirmed and in progress, changes that `assertCanTransition` accepts lead to completed.
pub Accepted-completed : (x : Status) → stage (some x) < 3 → Accepted x completed
Accepted-completed pending h = search (here, follow, edges)
Accepted-completed pending_approval h = search (here, follow, edges)
Accepted-completed confirmed h = search (here, follow, edges)
Accepted-completed in_progress h = search (here, follow, edges)
Accepted-completed _ h = absurd (omega arith)
