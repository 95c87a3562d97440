-- ===== src/Pricing/Amounts.antt =====
-- The price of a stay.
use lit_server_nest.Prelude.{ℕ, ◌+◌, ◌*◌, ◌≤◌, pos, sub_ℕ, ◌+ℤ◌, ◌*ℤ◌, ◌≤ℤ◌, ◌≡◌, ◌∙◌, ap, arith}
use lit_server_nest.Reservation.{StorageType}
use lit_server_nest.Pricing.{
  ReservationPricingInput, calculate_total_amount, get_frozen_price_per_bag_per_day,
  normalize_storage_assignment_type, day_ms,
}
use lit_server_nest.Pricing.Days.{count_storage_days_lem, stay_days}
use lit_server_nest.Pricing.Sizes.{price_bounds, price-normalize}

abbrev pub priced : StorageType → ℕ → ℕ → ℕ → ReservationPricingInput
priced type bags start end = record {
  storage_type = type;
  bag_count = bags;
  start_time = start;
  end_time = end;
}

scaled : (k n : ℕ) → sub_ℕ (k * n) (k * 0) ≡ pos (k * n)
scaled k n = ground arith

times_mono : (p : ℕ) {a b : ℕ} → a ≤ b → p * a + 0 ≤ p * b + 0
times_mono p h = grind arith

times_suc : (p d : ℕ) → pos (p * (d + 1)) ≡ sub_ℕ (p * d + p) (0 + 0)
times_suc p d = ground arith

times_le : {a b : ℕ} → a ≤ b → (c : ℕ) → a * c ≤ b * c
times_le h c = grind arith

regroup_low : (p b d : ℕ) → 4500 ≤ p → 4500 * (b * d) ≤ p * b * d
regroup_low p b d h = grind (arith, times_le h (b * d))

regroup_high : (p b d : ℕ) → p ≤ 8000 → p * b * d ≤ 8000 * (b * d)
regroup_high p b d h = grind (arith, times_le h (b * d))

-- The amount of a stay that does not end before it begins is a product of three numbers.
pub calculate_total_amount_lem :
    (t : StorageType) (bags start end : ℕ)
    → start ≤ end
    → calculate_total_amount (priced t bags start end)
      ≡ pos (get_frozen_price_per_bag_per_day t * bags * stay_days start end)
unfolding calculate_total_amount ◌*ℤ◌
calculate_total_amount_lem t bags start end h =
    rw (count_storage_days_lem start end h)
      (scaled (get_frozen_price_per_bag_per_day t * bags) (stay_days start end))

-- For the same size, bags and start, and ends that are not before it, a later end never costs less.
pub calculate_total_amount_mono :
    (t : StorageType) (bags start end later : ℕ)
    → start ≤ end
    → end ≤ later
    → calculate_total_amount (priced t bags start end)
      ≤ℤ calculate_total_amount (priced t bags start later)
calculate_total_amount_mono t bags start end later h k =
    rw
      (
        calculate_total_amount_lem t bags start end h,
        calculate_total_amount_lem t bags start later (omega arith),
      )
      (times_mono (get_frozen_price_per_bag_per_day t * bags) (omega arith))

-- For a stay that does not end before it begins, 24 more hours cost exactly the price of one day for
-- each bag.
pub calculate_total_amount_next_day :
    (t : StorageType) (bags start end : ℕ)
    → start ≤ end
    → calculate_total_amount (priced t bags start (end + day_ms))
      ≡ calculate_total_amount (priced t bags start end)
        +ℤ pos (get_frozen_price_per_bag_per_day t * bags)
unfolding ◌+ℤ◌
calculate_total_amount_next_day t bags start end h =
    let p = get_frozen_price_per_bag_per_day t * bags in
    let more : stay_days start (end + day_ms) ≡ stay_days start end + 1 = omega arith in
    rw
      (
        calculate_total_amount_lem t bags start end h,
        calculate_total_amount_lem t bags start (end + day_ms) (omega arith),
        more,
      )
      (times_suc p (stay_days start end))

-- For a stay that does not end before it begins, the amount lies between the price of the smallest and
-- of the largest size, for each bag and each billing day, and a legacy size costs what its assignment
-- size costs.
pub calculate_total_amount_bounds :
    (t : StorageType) (bags start end : ℕ)
    → start ≤ end
    → (n : ℕ) × (calculate_total_amount (priced t bags start end) ≡ pos n)
      × (4500 * (bags * stay_days start end) ≤ n)
      × (n ≤ 8000 * (bags * stay_days start end))
      × (calculate_total_amount (priced (normalize_storage_assignment_type t) bags start end)
          ≡ pos n)
calculate_total_amount_bounds t bags start end h =
    let p = get_frozen_price_per_bag_per_day t in
    let d = bags * stay_days start end in
    let same = ap (λ (q : ℕ). q * bags * stay_days start end) (price-normalize t) in
    (
      p * bags * stay_days start end,
      calculate_total_amount_lem t bags start end h,
      regroup_low p bags (stay_days start end) (price_bounds t).0,
      regroup_high p bags (stay_days start end) (price_bounds t).1,
      calculate_total_amount_lem (normalize_storage_assignment_type t) bags start end h
          ∙ ap pos same,
    )
