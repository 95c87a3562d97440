-- ===== src/Guest/Capacity/Counting.antt =====
-- `checkCapacityBatch` against the bags that are booked, whatever their sizes are called.
use lit_server_nest.Prelude.{
  ℕ, ◌+◌, ◌≤◌, Bool, true, false, ◌&&◌, ltb, get_or, has, has-false, Option, none, some, List, [],
  ◌∷◌, ◌≡◌, ◌↔◌, refl, sym, subst, ◌∙◌, Memᴰ, All, All-mem, All-of_mem, Bool-cases, Option-cases,
  inl, inr, arith, if◌then◌else◌,
}
use lit_server_nest.Reservation.{Reservation, StorageType, is_type}
use lit_server_nest.Pricing.{StoreSettings, normalize_storage_assignment_type}
use lit_server_nest.Guest.Items.{NormalizedReservationItem, add_to}
use lit_server_nest.Guest.Items.Merging.{same_type}
use lit_server_nest.Guest.Capacity.{
  TypeGroup, GroupBy, CapacityFailure, CapacityParams, sum_of_groups, bags_where, requests,
  among_types, counted_where, capacity_where, aggregate_counts, count_by_type, get_max_capacity,
  failures_of, check_capacity_batch,
}

-- The size is stored under `u`.
abbrev pub is_under : StorageType → Option StorageType → Bool
is_under u none = false
is_under u (some t) = is_type (normalize_storage_assignment_type t) u

-- The bags that already count against the size `u` during the hours of the request.
abbrev pub booked : CapacityParams → StorageType → List Reservation → ℕ
booked params u rows =
    bags_where (λ r. counted_where params r && is_under u r.requested_storage_type) rows

abbrev pick : Bool → ℕ → ℕ
pick b n = if b then n else 0

abbrev weighed : StorageType → (StorageType → ℕ) → List StorageType → ℕ
weighed u f [] = 0
weighed u f (t ∷ ts) = let rest = weighed u f ts in pick (is_under u (some t)) (f t) + rest

abbrev pub all_types : List StorageType
all_types =
    StorageType.s ∷ StorageType.m ∷ StorageType.l ∷ StorageType.xl ∷ StorageType.special
    ∷ StorageType.refrigeration ∷ []

-- A number for each size, added up over the sizes that are stored under `u`.
abbrev over_types : StorageType → (StorageType → ℕ) → ℕ
over_types u f = weighed u f all_types

abbrev sum_under : StorageType → List TypeGroup → ℕ
sum_under u [] = 0
sum_under u (g ∷ gs) =
    let rest = sum_under u gs in
    pick (is_under u g.requested_storage_type) (get_or g.sum_bag_count 0) + rest

type_swap : (t x : StorageType) → is_type x t ≡ false → is_type t x ≡ false
unfolding is_type
type_swap t x h = ground arith

other_type : (x t u : StorageType) → is_type x t ≡ false → is_type x u ≡ true → is_type t u ≡ false
unfolding is_type
other_type x t u h k = subst (λ v. is_type t v ≡ false) (same_type x u k) (type_swap t x h)

count_by_type-add_to :
    (t u : StorageType) (c : ℕ) (xs : List NormalizedReservationItem)
    → count_by_type u (add_to t c xs) ≡ pick (is_type t u) c + count_by_type u xs
unfolding add_to count_by_type
count_by_type-add_to t u c [] = ground arith
count_by_type-add_to t u c (x ∷ xs) = elim (Bool-cases (is_type x.storage_type t)) [
  | inl e ↦ rw (e, same_type x.storage_type t e) (ground arith)
  | inr e ↦ rw e (ground (arith, count_by_type-add_to t u c xs, other_type x.storage_type t u e))
]

count_by_type-aggregate_counts :
    (u : StorageType) (gs : List TypeGroup) (counts : List NormalizedReservationItem)
    → count_by_type u (aggregate_counts counts gs) ≡ sum_under u gs + count_by_type u counts
unfolding aggregate_counts
count_by_type-aggregate_counts u [] counts = omega arith
count_by_type-aggregate_counts u (g ∷ gs) counts = elim (Option-cases g.requested_storage_type) [
  | inl e ↦ rw e (count_by_type-aggregate_counts u gs counts ∙ omega arith)
  | inr (t, e) ↦
      let n = get_or g.sum_bag_count 0 in
      let k = normalize_storage_assignment_type t in
      rw e (
        count_by_type-aggregate_counts u gs (add_to k n counts)
        ∙ omega (arith, count_by_type-add_to k u n counts))
]

weighed-cong :
    (u : StorageType) (f g : StorageType → ℕ)
    → ((t : StorageType) → f t ≡ g t)
    → (ts : List StorageType) → weighed u f ts ≡ weighed u g ts
weighed-cong u f g h [] = refl
weighed-cong u f g h (t ∷ ts) = rw (h t, weighed-cong u f g h ts)

has-mem :
    (p : NormalizedReservationItem → Bool) (xs : List NormalizedReservationItem)
    {x : NormalizedReservationItem}
    → Memᴰ x xs
    → p x ≡ true
    → has p xs ≡ true
has-mem p xs m h = elim (Bool-cases (has p xs)) [ inl e ↦ e | inr e ↦ cc (has-false p xs e m, h) ]

pick-add : (b : Bool) (m n : ℕ) → pick b (m + n) ≡ pick b m + pick b n
pick-add b m n = ground arith

pick-zero : (b : Bool) → pick b 0 ≡ 0
pick-zero b = ground arith

weighed-add :
    (u : StorageType) (f g : StorageType → ℕ) (ts : List StorageType)
    → weighed u (λ t. f t + g t) ts ≡ weighed u f ts + weighed u g ts
weighed-add u f g [] = omega arith
weighed-add u f g (t ∷ ts) =
    omega (arith, weighed-add u f g ts, pick-add (is_under u (some t)) (f t) (g t))

over_types-add :
    (u : StorageType) (f g : StorageType → ℕ)
    → over_types u (λ t. f t + g t) ≡ over_types u f + over_types u g
over_types-add u f g = weighed-add u f g all_types

weighed-zero : (u : StorageType) (ts : List StorageType) → weighed u (λ _. 0) ts ≡ 0
weighed-zero u [] = refl
weighed-zero u (t ∷ ts) = omega (arith, weighed-zero u ts, pick-zero (is_under u (some t)))

over_types-zero : (u : StorageType) → over_types u (λ _. 0) ≡ 0
over_types-zero u = weighed-zero u all_types

over_types_key :
    (u k : StorageType) (n : ℕ)
    → over_types u (λ t. pick (is_type k t) n) ≡ pick (is_under u (some k)) n
unfolding is_type
over_types_key u StorageType.s n = omega (arith, pick-zero)
over_types_key u StorageType.m n = omega (arith, pick-zero)
over_types_key u StorageType.l n = omega (arith, pick-zero)
over_types_key u StorageType.xl n = omega (arith, pick-zero)
over_types_key u StorageType.special n = omega (arith, pick-zero)
over_types_key u StorageType.refrigeration n = omega (arith, pick-zero)

-- A number that one size alone has.
over_types-one :
    (u : StorageType) (o : Option StorageType) (n : ℕ)
    → over_types u (λ t. pick (requests t o) n) ≡ pick (is_under u o) n
unfolding is_type
over_types-one u none n = over_types-zero u
over_types-one u (some k) n = over_types_key u k n

sum_under-over_types :
    (u : StorageType) (gs : List TypeGroup)
    → sum_under u gs ≡ over_types u (λ t. sum_of_groups t gs)
sum_under-over_types u [] = sym (over_types-zero u)
sum_under-over_types u (g ∷ gs) =
    let n = get_or g.sum_bag_count 0 in
    let o = g.requested_storage_type in
    let one = over_types-one u o n in
    let rest = sum_under-over_types u gs in
    let both = over_types-add u (λ t. pick (requests t o) n) (λ t. sum_of_groups t gs) in
    omega arith

one_row :
    (u : StorageType) (b : Bool) (o : Option StorageType) (n : ℕ)
    → over_types u (λ t. pick (b && requests t o) n) ≡ pick (b && is_under u o) n
one_row u true o n = over_types-one u o n
one_row u false o n = over_types-zero u

over_types-bags_where :
    (u : StorageType) (cond : Reservation → Bool) (rows : List Reservation)
    → over_types u (λ t. bags_where (λ r. cond r && requests t r.requested_storage_type) rows)
      ≡ bags_where (λ r. cond r && is_under u r.requested_storage_type) rows
over_types-bags_where u cond [] = over_types-zero u
over_types-bags_where u cond (r ∷ rs) =
    let o = r.requested_storage_type in
    let one = one_row u (cond r) o r.bag_count in
    let rest = over_types-bags_where u cond rs in
    let both =
      over_types-add u (λ t. pick (cond r && requests t o) r.bag_count)
        (λ t. bags_where (λ x. cond x && requests t x.requested_storage_type) rs) in
    omega arith

-- The rows that are summed are all that count against a size of the request.
narrow :
    (params : CapacityParams) (item : NormalizedReservationItem) (r : Reservation)
    → Memᴰ item params.items
    → (capacity_where params r && is_under item.storage_type r.requested_storage_type)
      ≡ (counted_where params r && is_under item.storage_type r.requested_storage_type)
narrow params item r m = elim (Bool-cases (is_under item.storage_type r.requested_storage_type)) [
  | inr e ↦ rw e (both_false (capacity_where params r) (counted_where params r))
  | inl e ↦ rw (e, wanted r.requested_storage_type e) (drop_true (counted_where params r))
]
  where
    both_false : (a b : Bool) → (a && false) ≡ (b && false)
    both_false a b = ground arith

    drop_true : (a : Bool) → ((a && true) && true) ≡ (a && true)
    drop_true a = ground arith

    wanted :
        (o : Option StorageType)
        → is_under item.storage_type o ≡ true
        → among_types params.items o ≡ true
    wanted none e = cc
    wanted (some t) e =
        has-mem
          (λ (x : NormalizedReservationItem).
            is_type (normalize_storage_assignment_type t) x.storage_type)
          params.items m e

bags_where-cong :
    (p q : Reservation → Bool) (rows : List Reservation)
    → ((r : Reservation) → p r ≡ q r)
    → bags_where p rows ≡ bags_where q rows
bags_where-cong p q [] h = refl
bags_where-cong p q (r ∷ rs) h = rw (h r, bags_where-cong p q rs h)

-- The number that the check works with.
counted_lem :
    (db : GroupBy) (rows : List Reservation) (params : CapacityParams)
    (item : NormalizedReservationItem)
    → Memᴰ item params.items
    → count_by_type item.storage_type
        (aggregate_counts [] (db.group_by (capacity_where params) rows))
      ≡ booked params item.storage_type rows
unfolding count_by_type
counted_lem db rows params item m =
    let u = item.storage_type in
    let gs = db.group_by (capacity_where params) rows in
    count_by_type-aggregate_counts u gs []
    ∙ plus_zero (sum_under u gs)
    ∙ sum_under-over_types u gs
    ∙ weighed-cong u _ _ (db.sum_of_groups-group_by (capacity_where params) rows) all_types
    ∙ over_types-bags_where u (capacity_where params) rows
    ∙ bags_where-cong _ _ rows (λ r. narrow params item r m)
  where
    plus_zero : (n : ℕ) → n + 0 ≡ n
    plus_zero n = omega arith

-- Room for an item.
abbrev Fits :
    Option StoreSettings → List NormalizedReservationItem → NormalizedReservationItem → Type 0
Fits settings counts item =
    count_by_type item.storage_type counts + item.bag_count
    ≤ get_max_capacity settings item.storage_type

failures_of-eq-nil_iff :
    (settings : Option StoreSettings) (counts items : List NormalizedReservationItem)
    → (failures_of settings counts items ≡ []) ↔ All (Fits settings counts) items
unfolding failures_of
failures_of-eq-nil_iff settings counts [] = (λ _. tt, λ _. refl)
failures_of-eq-nil_iff settings counts (item ∷ items) =
    let (there, back) = failures_of-eq-nil_iff settings counts items in
    elim (Bool-cases (
      ltb (get_max_capacity settings item.storage_type)
        (count_by_type item.storage_type counts + item.bag_count))) [
          | inl e ↦ (λ h. absurd (cons_nil (rw e at h)), λ h. absurd (too_much e h.0))
          | inr e ↦ (λ h. (enough e, there (rw e at h)), λ h. rw e (back h.1))
        ]
  where
    cons_nil : {x : CapacityFailure} {xs : List CapacityFailure} → (x ∷ xs) ≡ [] → ⊥
    cons_nil h = cc

    too_much : {n k : ℕ} → ltb n k ≡ true → k ≤ n → ⊥
    too_much e h = ground arith

    enough : {n k : ℕ} → ltb n k ≡ false → k ≤ n
    enough e = ground arith

-- The check of the capacity finds no failure exactly if, for every item of the request, the bags that
-- are booked in the store during its hours for any size that is stored under the item's (pending,
-- awaiting approval, confirmed or in progress, and not refunded), with the item's own bags, are at
-- most the capacity of that size.
pub check_capacity_batch-eq-nil_iff :
    (db : GroupBy) (settings : Option StoreSettings) (rows : List Reservation)
    (params : CapacityParams)
    → (check_capacity_batch db settings rows params ≡ []) ↔ (
        (item : NormalizedReservationItem)
        → Memᴰ item params.items
        → booked params item.storage_type rows + item.bag_count
          ≤ get_max_capacity settings item.storage_type)
unfolding check_capacity_batch
check_capacity_batch-eq-nil_iff db settings rows params =
    let counts = aggregate_counts [] (db.group_by (capacity_where params) rows) in
    let (there, back) = failures_of-eq-nil_iff settings counts params.items in
    (
      λ h item m.
          subst (λ n. n + item.bag_count ≤ get_max_capacity settings item.storage_type)
            (counted_lem db rows params item m)
            (All-mem (Fits settings counts) params.items (there h) m),
      λ h. back (
          All-of_mem (Fits settings counts) params.items λ item m.
            subst (λ n. n + item.bag_count ≤ get_max_capacity settings item.storage_type)
              (sym (counted_lem db rows params item m)) (h item m)),
    )
