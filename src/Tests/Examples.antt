-- ===== src/Tests/Examples.antt =====
-- The theorems at the tables of the examples.
use lit_server_nest.Prelude.{
  ◌+◌, ◌-◌, ◌*◌, ◌≤◌, ◌<◌, ℕ, true, false, pos, ◌+ℤ◌, ◌≤ℤ◌, none, some, [], ◌∷◌, ◌≡◌, ◌≢◌, ◌↔◌, ◌⊎◌,
  refl, Memᴰ, ok, err, validation_error, ◌++◌, arith,
}
use lit_server_nest.Reservation.{
  Reservation, Storage, Db, StorageType, Status, pending, confirmed, completed,
}
use lit_server_nest.Status.{assert_can_transition}
use lit_server_nest.Status.Graph.{
  ◌⟶◌, Accepted, here, approve, check_in, check_out, follow, steps, stage,
  assert_can_transition_iff, steps-le, Accepted-completed,
}
use lit_server_nest.Pricing.{
  calculate_total_amount, count_storage_days, get_frozen_price_per_bag_per_day,
  normalize_storage_assignment_type, to_billing_date_key, day_ms, hour_ms,
}
use lit_server_nest.Pricing.Days.{
  stay_days, count_storage_days_bounds, count_storage_days_split, count_storage_days-eq-one_iff,
}
use lit_server_nest.Pricing.Amounts.{
  priced, calculate_total_amount_bounds, calculate_total_amount_mono,
  calculate_total_amount_next_day,
}
use lit_server_nest.Lifecycle.{Advance, Evolves, Inv, is_active, overlap}
use lit_server_nest.ReservationStorage.{find_storage_for_reservation}
use lit_server_nest.Command.{checkout_review, hours_of}
use lit_server_nest.NoShow.Atomicity.{MarkedNoShow, mark_no_show-exact}
use lit_server_nest.OwnerActions.Atomicity.{CheckedIn, CheckedOut, check_in-exact, check_out-exact}
use lit_server_nest.History.{Step, Reach, approved_step, start, after}
use lit_server_nest.History.Steps.{Step-Preserves}
use lit_server_nest.History.Reachable.{reachable-no_double, reachable-final, reachable-forward}
use lit_server_nest.Command.Create.{create_store_reservation, create_customer_reservation}
use lit_server_nest.Command.Create.Confirmed.{
  Created, create_store_reservation-Created, create_customer_reservation-Created,
}
use lit_server_nest.Guest.Items.{NormalizedReservationItem, normalize_items}
use lit_server_nest.Guest.Items.Merging.{
  Merged, asked_for, normalize_items-Merged, normalize_items-refused_iff,
}
use lit_server_nest.Guest.Capacity.{check_capacity_batch, get_max_capacity}
use lit_server_nest.Guest.Capacity.Counting.{booked, check_capacity_batch-eq-nil_iff}
use lit_server_nest.Tests.Requests.{
  request, before-IsFresh, small_bags, large_bags, huge_bags, items_request, merges, by_type,
  wanted,
}
use lit_server_nest.Tests.Samples.{
  client, held, asking, past, storage_b, coming, before, now, approval, after_approval, approves,
  no_show_result, after_no_show, marks_no_show, before-Keyed, before-Inv, different, arrival_result,
  after_arrival, arrives, departure_result, after_departure, departs,
}

approving : Step client before after_approval
approving = approved_step now "store" "r2" approval approves

path : Reach client before after_approval
path = after approving start

Step-Preserves_example :
    Inv after_approval.reservations × Evolves before.reservations after_approval.reservations
Step-Preserves_example = Step-Preserves client before after_approval approving before-Inv

is_active-held : is_active held ≡ true
unfolding is_active
is_active-held = refl

is_active-coming : is_active coming ≡ true
unfolding is_active
is_active-coming = refl

apart_ids : held.id ≢ coming.id
apart_ids = different "r1" "r4" refl

reachable-no_double_example : overlap held coming ≡ false
reachable-no_double_example =
    reachable-no_double client before after_approval path before-Inv held coming "a"
      (Memᴰ.head refl) (Memᴰ.tail (Memᴰ.tail (Memᴰ.tail (Memᴰ.head refl)))) apart_ids is_active-held
      is_active-coming refl refl

reachable-final_example :
    (y : Reservation) × Memᴰ y after_approval.reservations
    × (y.id ≡ past.id)
    × (y.status ≡ past.status)
reachable-final_example =
    reachable-final client before after_approval path before-Inv past
      (Memᴰ.tail (Memᴰ.tail (Memᴰ.head refl))) refl

reachable-forward_example :
    (y : Reservation) × Memᴰ y after_approval.reservations
    × Advance asking y
    × (stage asking.status ≤ stage y.status)
reachable-forward_example =
    reachable-forward client before after_approval path before-Inv asking
      (Memᴰ.tail (Memᴰ.head refl))

-- Two storages are free, and the one with the earlier number stands later in the table.
abbrev storage_c : Storage
storage_c = record storage_b { id = "c"; number = "S0" }

abbrev roomy : Db
roomy = record before { storages = before.storages ++ (storage_c ∷ []) }

finds_c :
    find_storage_for_reservation client (hours_of "store" asking StorageType.s) roomy
    ≡ ok (some storage_c, roomy)
unfolding find_storage_for_reservation normalize_storage_assignment_type
finds_c = refl

mark_no_show-exact_example :
    MarkedNoShow client now "r1" (some "store") before no_show_result after_no_show
mark_no_show-exact_example =
    mark_no_show-exact client now "r1" (some "store") before before-Keyed no_show_result
      after_no_show marks_no_show

check_in-exact_example : CheckedIn client now "r1" before arrival_result after_arrival
check_in-exact_example =
    check_in-exact client now "r1" before before-Keyed arrival_result after_arrival arrives

check_out-exact_example :
    CheckedOut client now "r1" before departure_result (checkout_review held ∷ []) after_departure
check_out-exact_example =
    check_out-exact client now "r1" before before-Keyed departure_result (checkout_review held ∷ [])
      after_departure departs

assert_can_transition_iff_example : (assert_can_transition (some confirmed) completed ≡ ok tt) ↔ (
    (some confirmed ≡ some completed)
    ⊎ ((x : Status) × (some confirmed ≡ some x) × (x ⟶ completed)))
assert_can_transition_iff_example = assert_can_transition_iff (some confirmed) completed

visit : Accepted pending completed
visit = follow approve (follow check_in (follow check_out here))

steps-le_example : steps visit + stage (some pending) ≤ stage (some completed)
steps-le_example = steps-le visit

Accepted-completed_example : Accepted confirmed completed
Accepted-completed_example = Accepted-completed confirmed (omega arith)

-- From 23:00 in Seoul to 01:00, 07:00 and 07:00 of the day after.
abbrev evening : ℕ
evening = 14 * hour_ms

abbrev night : ℕ
night = 16 * hour_ms

abbrev morning : ℕ
morning = 22 * hour_ms

count_storage_days_bounds_example :
    (n : ℕ) × (count_storage_days evening morning ≡ pos n)
    × (1 ≤ n)
    × (morning - evening < n * day_ms)
    × (n * day_ms < morning - evening + 2 * day_ms)
count_storage_days_bounds_example = count_storage_days_bounds evening morning (omega arith)

count_storage_days_split_example :
    count_storage_days evening night +ℤ count_storage_days night morning
    ≡ count_storage_days evening morning +ℤ pos 1
count_storage_days_split_example =
    count_storage_days_split evening night morning (omega arith) (omega arith)

count_storage_days-eq-one_iff_example :
    (count_storage_days evening night ≡ pos 1)
    ↔ (to_billing_date_key evening ≡ to_billing_date_key night)
count_storage_days-eq-one_iff_example = count_storage_days-eq-one_iff evening night (omega arith)

calculate_total_amount_bounds_example :
    (n : ℕ) × (calculate_total_amount (priced StorageType.special 2 evening morning) ≡ pos n)
    × (4500 * (2 * stay_days evening morning) ≤ n)
    × (n ≤ 8000 * (2 * stay_days evening morning))
    × (calculate_total_amount
          (priced (normalize_storage_assignment_type StorageType.special) 2 evening morning)
        ≡ pos n)
calculate_total_amount_bounds_example =
    calculate_total_amount_bounds StorageType.special 2 evening morning (omega arith)

calculate_total_amount_mono_example :
    calculate_total_amount (priced StorageType.s 2 evening night)
    ≤ℤ calculate_total_amount (priced StorageType.s 2 evening morning)
calculate_total_amount_mono_example =
    calculate_total_amount_mono StorageType.s 2 evening night morning (omega arith) (omega arith)

calculate_total_amount_next_day_example :
    calculate_total_amount (priced StorageType.m 3 evening (night + day_ms))
    ≡ calculate_total_amount (priced StorageType.m 3 evening night)
      +ℤ pos (get_frozen_price_per_bag_per_day StorageType.m * 3)
calculate_total_amount_next_day_example =
    calculate_total_amount_next_day StorageType.m 3 evening night (omega arith)

create_store_reservation-Created_example :
    Created "r5" "store" "cust_1" request before
      (create_store_reservation client now "r5" "cust_1" "" request before)
create_store_reservation-Created_example =
    create_store_reservation-Created client now "r5" request before before-IsFresh (omega arith)
      "cust_1" "" "store" refl

create_customer_reservation-Created_example : Created "r5" "store" "customer_7" request before (
    create_customer_reservation client now "r5"
      (some (record { id = "store"; business_name = "Seoul"; closed_at = none }))
      "customer_7"
      request
      before)
create_customer_reservation-Created_example =
    create_customer_reservation-Created client now "r5" request before before-IsFresh (omega arith)
      "customer_7" "store" (record { id = "store"; business_name = "Seoul"; closed_at = none }) refl
      refl

normalize_items-Merged_example :
    Merged
      (large_bags ∷ small_bags ∷ huge_bags ∷ [])
      (record { storage_type = StorageType.l; bag_count = 4 } ∷ small_bags ∷ [])
normalize_items-Merged_example =
    normalize_items-Merged items_request large_bags (small_bags ∷ huge_bags ∷ [])
      (record { storage_type = StorageType.l; bag_count = 4 } ∷ small_bags ∷ []) refl merges

normalize_items-refused_iff_example :
    (normalize_items items_request ≡ err validation_error)
    ↔ ((u : StorageType) × (10 < asked_for u (large_bags ∷ small_bags ∷ huge_bags ∷ [])))
normalize_items-refused_iff_example =
    normalize_items-refused_iff items_request large_bags (small_bags ∷ huge_bags ∷ []) refl

check_capacity_batch-eq-nil_iff_example :
    (check_capacity_batch by_type none before.reservations wanted ≡ []) ↔ (
      (item : NormalizedReservationItem)
      → Memᴰ item wanted.items
      → booked wanted item.storage_type before.reservations + item.bag_count
        ≤ get_max_capacity none item.storage_type)
check_capacity_batch-eq-nil_iff_example =
    check_capacity_batch-eq-nil_iff by_type none before.reservations wanted
