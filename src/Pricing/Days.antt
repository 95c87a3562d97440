-- ===== src/Pricing/Days.antt =====
-- How many billing days a stay takes.
use lit_server_nest.Prelude.{ℕ, ◌+◌, ◌-◌, ◌*◌, ◌/◌, ◌≤◌, ◌<◌, pos, ◌+ℤ◌, ◌≡◌, ◌↔◌, arith}
use lit_server_nest.Pricing.{to_billing_date_key, count_storage_days, day_ms, hour_ms}

-- For a stay that does not end before it begins, the number of days is one more than the number of
-- times that 06:00 in Seoul passes in between.
pub count_storage_days_lem :
    (start end : ℕ)
    → start ≤ end
    → count_storage_days start end
      ≡ pos ((end + 3 * hour_ms) / day_ms - (start + 3 * hour_ms) / day_ms + 1)
unfolding count_storage_days
count_storage_days_lem start end h = ground arith

abbrev pub stay_days : ℕ → ℕ → ℕ
stay_days start end = (end + 3 * hour_ms) / day_ms - (start + 3 * hour_ms) / day_ms + 1

-- Splitting a stay at a time between its start and its end counts the day of the split in both parts.
pub count_storage_days_split :
    (start middle end : ℕ)
    → start ≤ middle
    → middle ≤ end
    → count_storage_days start middle +ℤ count_storage_days middle end
      ≡ count_storage_days start end +ℤ pos 1
unfolding ◌+ℤ◌
count_storage_days_split start middle end h k =
    rw
      (
        count_storage_days_lem start middle h,
        count_storage_days_lem middle end k,
        count_storage_days_lem start end (omega arith),
      )
      (ground arith)

-- For a stay that does not end before it begins, the number of days is at least one, that many days are
-- longer than the time that has passed, and they exceed it by less than two days.
pub count_storage_days_bounds :
    (start end : ℕ)
    → start ≤ end
    → (n : ℕ) × (count_storage_days start end ≡ pos n)
      × (1 ≤ n)
      × (end - start < n * day_ms)
      × (n * day_ms < end - start + 2 * day_ms)
count_storage_days_bounds start end h =
    (stay_days start end, count_storage_days_lem start end h, omega arith, omega arith, omega arith)

-- A stay that does not end before it begins costs one day exactly when it begins and ends on the same
-- billing day.
pub count_storage_days-eq-one_iff :
    (start end : ℕ)
    → start ≤ end
    → (count_storage_days start end ≡ pos 1) ↔ (to_billing_date_key start ≡ to_billing_date_key end)
unfolding to_billing_date_key
count_storage_days-eq-one_iff start end h = rw (count_storage_days_lem start end h) (ground arith)
