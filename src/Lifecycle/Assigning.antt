-- ===== src/Lifecycle/Assigning.antt =====
-- Two changes of the reservations against their invariant: one reservation is given a storage, and
-- new reservations that are not approved yet are added.
use lit_server_nest.Prelude.{
  ◌<◌, Bool, true, false, none, some, List, [], ◌∷◌, ◌++◌, ◌≡◌, ◌≢◌, inl, inr, sym, ap, ◌∙◌, subst,
  String, ◌==◌, Memᴰ, step_row, step_row-hit, step_row-miss, patch, mem-patch, mem-append,
  Bool-cases, arith, eq_iff,
}
use lit_server_nest.Reservation.{Reservation}
use lit_server_nest.Status.Graph.{stage}
use lit_server_nest.Lifecycle.{Advance, Evolves, Inv, is_active, overlap, hours_meet, Preserves}
use lit_server_nest.Lifecycle.Patches.{Advance-refl, Evolves-patch, patch-keyed}

pub overlap_comm : (a b : Reservation) → overlap a b ≡ overlap b a
unfolding overlap hours_meet
overlap_comm a b = ground arith

differs : (a b : String) → (a == b) ≡ false → a ≢ b
differs a b e q = cc ((eq_iff a b).1 q, e)

same_hours : (a a' b : Reservation) → Advance a a' → overlap a b ≡ false → overlap a' b ≡ false
unfolding overlap
same_hours a a' b p h = cc (p.same_start, p.same_end, h)

module _ (rows : List Reservation) (found : Reservation) (f : Reservation → Reservation) where
  abbrev pub named : Reservation → Bool
  named r = r.id == found.id

  -- A row of the new table is the assigned reservation or an untouched other one.
  data Origin (y : Reservation) : Type 0 where
    assigned : y ≡ f found → Origin y
    untouched : Memᴰ y rows → y.id ≢ found.id → Origin y

  origin : Inv rows → Memᴰ found rows → (y : Reservation) → Memᴰ y (patch named f rows) → Origin y
  origin inv here_ y m =
      let (x, old, new) = mem-patch named f rows m in
      elim (Bool-cases (x.id == found.id)) [
        | inl e ↦ assigned (
            new
            ∙ step_row-hit named f x e
            ∙ ap f (inv.keyed x found old here_ ((eq_iff x.id found.id).0 e)))
        | inr e ↦
            let same = new ∙ step_row-miss named f x e in
            untouched (subst (λ r. Memᴰ r rows) (sym same) old)
              (λ q. differs x.id found.id e (ap (λ r. r.id) (sym same) ∙ q))
      ]

  module _ (inv : Inv rows) (listed : Memᴰ found rows) (advance : Advance found (f found))
      (approved : 0 < stage (f found).status)
      (free : (b : Reservation) (k : String)
        → Memᴰ b rows
        → b.id ≢ found.id
        → is_active b ≡ true
        → (f found).storage_id ≡ some k
        → b.storage_id ≡ some k
        → overlap found b ≡ false) where
    advances : (x : Reservation) → Memᴰ x rows → Advance x (step_row named f x)
    advances x m = elim (Bool-cases (x.id == found.id)) [
      | inl e ↦
          let same = inv.keyed x found m listed ((eq_iff x.id found.id).0 e) in
          subst (Advance x) (sym (step_row-hit named f x e))
            (subst (λ r. Advance r (f r)) (sym same) advance)
      | inr e ↦ subst (Advance x) (sym (step_row-miss named f x e)) (Advance-refl x)
    ]

    assigned_unassigned : (a : Reservation) → Origin a → stage a.status ≡ 0 → a.storage_id ≡ none
    assigned_unassigned a (assigned e) h = absurd (never (subst (λ r. stage r.status ≡ 0) e h))
      where
        never : stage (f found).status ≡ 0 → ⊥
        never z = omega arith
    assigned_unassigned a (untouched m _) h = inv.unassigned a m h

    meets_not :
        (a b : Reservation) (k : String)
        → a ≡ f found
        → Memᴰ b rows
        → b.id ≢ found.id
        → is_active b ≡ true
        → a.storage_id ≡ some k
        → b.storage_id ≡ some k
        → overlap a b ≡ false
    meets_not a b k e m ne act s t =
        subst (λ r. overlap r b ≡ false) (sym e)
          (same_hours found (f found) b advance
            (free b k m ne act (ap (λ r. r.storage_id) (sym e) ∙ s) t))

    no_double_assigned :
        (a b : Reservation) (k : String)
        → Origin a
        → Origin b
        → a.id ≢ b.id
        → is_active a ≡ true
        → is_active b ≡ true
        → a.storage_id ≡ some k
        → b.storage_id ≡ some k
        → overlap a b ≡ false
    no_double_assigned a b k (assigned p) (assigned q) ne _ _ _ _ =
        absurd (ne (ap (λ r. r.id) (p ∙ sym q)))
    no_double_assigned a b k (assigned p) (untouched m other) ne _ act s t =
        meets_not a b k p m other act s t
    no_double_assigned a b k (untouched m other) (assigned q) ne act _ s t =
        overlap_comm a b ∙ meets_not b a k q m other act t s
    no_double_assigned a b k (untouched m _) (untouched n _) ne act act' s t =
        inv.no_double a b k m n ne act act' s t

    assign_Inv : Inv (patch named f rows)
    assign_Inv = record {
      keyed = patch-keyed named f rows advances inv.keyed;
      unassigned = λ a m. assigned_unassigned a (origin inv listed a m);
      no_double =
          λ a b k m n. no_double_assigned a b k (origin inv listed a m) (origin inv listed b n);
    }

    pub assign_kept : Inv (patch named f rows) × Evolves rows (patch named f rows)
    assign_kept = (assign_Inv, Evolves-patch named f rows advances)

Evolves-append : (rows new : List Reservation) → Evolves rows (rows ++ new)
Evolves-append [] new = tt
Evolves-append (x ∷ rows) new = (Advance-refl x, Evolves-append rows new)

-- New reservations under new ids, not approved and with no storage, keep the invariant.
pub append-Preserves :
    (rows new : List Reservation)
    → ((a : Reservation) → Memᴰ a new → (stage a.status ≡ 0) × (a.storage_id ≡ none))
    → ((a b : Reservation) → Memᴰ a new → Memᴰ b (rows ++ new) → a.id ≡ b.id → a ≡ b)
    → Preserves rows (rows ++ new)
append-Preserves rows new waiting fresh inv = (
  record {
    keyed = λ a b m n e. elim (mem-append rows new m) [
      | inr p ↦ fresh a b p n e
      | inl p ↦ elim (mem-append rows new n) [
        | inr q ↦ sym (fresh b a q m (sym e))
        | inl q ↦ inv.keyed a b p q e
      ]
    ];
    unassigned = λ a m h. elim (mem-append rows new m) [
      | inl p ↦ inv.unassigned a p h
      | inr p ↦ (waiting a p).1
    ];
    no_double = λ a b k m n ne act act' s t. elim (mem-append rows new m) [
      | inr p ↦ cc ((waiting a p).1, s)
      | inl p ↦ elim (mem-append rows new n) [
        | inr q ↦ cc ((waiting b q).1, t)
        | inl q ↦ inv.no_double a b k p q ne act act' s t
      ]
    ];
  },
  Evolves-append rows new,
)
