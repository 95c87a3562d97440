-- ===== src/Guest/Capacity.antt =====
-- `checkCapacityBatch`: whether a store still has room for the bags of a request. The settings of the
-- store are the row that the query returned, and the sum of the bags by size is the database's
-- `groupBy`, a parameter of which the sums are known.
pub mod Counting
use lit_server_nest.Prelude.{
  ℕ, ◌+◌, Bool, true, false, not, ◌&&◌, ltb, get_or, has, Option, none, some, List, [], ◌∷◌, String,
  ◌==◌, ◌≡◌, if◌then◌else◌,
}
use lit_server_nest.Reservation.{
  Reservation, Status, StorageType, PaymentStatus, pending, pending_approval, confirmed,
  in_progress, refunded, is_type, is_status, status_in,
}
use lit_server_nest.Pricing.{
  BillingStorageType, StoreSettings, normalize_storage_assignment_type, is_storage_type_enabled,
  storage_settings_columns,
}
use lit_server_nest.Guest.Items.{NormalizedReservationItem, add_to}

abbrev pub capacity_count_statuses : List Status
capacity_count_statuses = pending ∷ pending_approval ∷ confirmed ∷ in_progress ∷ []

-- A row of the result of `groupBy`.
pub record TypeGroup : Type 0 where
  pub requested_storage_type : Option StorageType
  pub sum_bag_count : Option ℕ

abbrev pub requests : StorageType → Option StorageType → Bool
requests type none = false
requests type (some t) = is_type t type

-- The sum of the groups of one size.
abbrev pub sum_of_groups : StorageType → List TypeGroup → ℕ
sum_of_groups type [] = 0
sum_of_groups type (g ∷ gs) =
    let rest = sum_of_groups type gs in
    (if requests type g.requested_storage_type then get_or g.sum_bag_count 0 else 0) + rest

-- The bags of the rows that pass a test.
abbrev pub bags_where : (Reservation → Bool) → List Reservation → ℕ
bags_where cond [] = 0
bags_where cond (r ∷ rs) =
    let rest = bags_where cond rs in (if cond r then r.bag_count else 0) + rest

-- `groupBy({ by: ['requested_storage_type'], _sum: { bag_count: true } })` sums the bags of the rows
-- of each size.
pub record GroupBy : Type 0 where
  pub group_by : (Reservation → Bool) → List Reservation → List TypeGroup
  pub sum_of_groups-group_by :
      (cond : Reservation → Bool) (rows : List Reservation) (type : StorageType)
      → sum_of_groups type (group_by cond rows)
        ≡ bags_where (λ r. cond r && requests type r.requested_storage_type) rows

-- `{ payment_status: { not: 'refunded' } }`, which is false on NULL
abbrev pub is_not_refunded : Option PaymentStatus → Bool
is_not_refunded none = false
is_not_refunded (some refunded) = false
is_not_refunded (some _) = true

abbrev pub ends_later : ℕ → Option ℕ → Bool
ends_later start none = false
ends_later start (some end) = ltb start end

-- The parameters of the check; the items have been normalised.
pub record CapacityParams : Type 0 where
  pub store_id : String
  pub items : List NormalizedReservationItem
  pub start_time : ℕ
  pub end_time : ℕ

-- `requested_storage_type: { in: storageTypes }`: the sizes whose assignment size is asked for.
abbrev pub among_types : List NormalizedReservationItem → Option StorageType → Bool
among_types items none = false
among_types items (some type) =
    has
      (λ (item : NormalizedReservationItem).
        is_type (normalize_storage_assignment_type type) item.storage_type)
      items

-- The `where` of the sums, but for the sizes.
abbrev pub counted_where : CapacityParams → Reservation → Bool
counted_where params r =
    r.store_id == params.store_id
    && status_in capacity_count_statuses r.status
    && is_not_refunded r.payment_status
    && ltb r.start_time params.end_time
    && ends_later params.start_time r.end_time

abbrev pub capacity_where : CapacityParams → Reservation → Bool
capacity_where params r =
    counted_where params r && among_types params.items r.requested_storage_type

-- `aggregateCountsBySellableType`
unfoldable pub aggregate_counts :
    List NormalizedReservationItem → List TypeGroup → List NormalizedReservationItem
unfolding add_to normalize_storage_assignment_type
aggregate_counts counts [] = counts
aggregate_counts counts (g ∷ gs) = elim g.requested_storage_type [
  | none ↦ aggregate_counts counts gs
  | some type ↦
      aggregate_counts
        (add_to (normalize_storage_assignment_type type) (get_or g.sum_bag_count 0) counts) gs
]

-- `countByType.get(type) ?? 0`
unfoldable pub count_by_type : StorageType → List NormalizedReservationItem → ℕ
unfolding is_type
count_by_type type [] = 0
count_by_type type (x ∷ xs) =
    let rest = count_by_type type xs in if is_type x.storage_type type then x.bag_count else rest

-- `isSellableStorageType`
abbrev pub as_sellable : StorageType → Option BillingStorageType
as_sellable StorageType.s = some BillingStorageType.s
as_sellable StorageType.m = some BillingStorageType.m
as_sellable StorageType.l = some BillingStorageType.l
as_sellable _ = none

abbrev pub capacity_of : Option StoreSettings → Option BillingStorageType → ℕ
capacity_of settings none = 0
capacity_of none (some type) = 5
capacity_of (some c) (some type) =
    if not (is_storage_type_enabled (some c) type)
    then 0
    else get_or ((storage_settings_columns type).capacity c) 5

unfoldable pub get_max_capacity : Option StoreSettings → StorageType → ℕ
unfolding normalize_storage_assignment_type is_storage_type_enabled storage_settings_columns
get_max_capacity settings type =
    capacity_of settings (as_sellable (normalize_storage_assignment_type type))

pub record CapacityFailure : Type 0 where
  pub storage_type : StorageType
  pub max_capacity : ℕ
  pub current_count : ℕ
  pub requested : ℕ

-- The loop over the items.
unfoldable pub failures_of :
    Option StoreSettings
    → List NormalizedReservationItem
    → List NormalizedReservationItem
    → List CapacityFailure
unfolding count_by_type get_max_capacity
failures_of settings counts [] = []
failures_of settings counts (item ∷ items) =
    let rest = failures_of settings counts items in
    let max = get_max_capacity settings item.storage_type in
    let current = count_by_type item.storage_type counts in
    if ltb max (current + item.bag_count)
    then record {
      storage_type = item.storage_type;
      max_capacity = max;
      current_count = current;
      requested = item.bag_count;
    }
      ∷ rest
    else rest

unfoldable pub check_capacity_batch :
    GroupBy → Option StoreSettings → List Reservation → CapacityParams → List CapacityFailure
unfolding aggregate_counts failures_of is_status is_type normalize_storage_assignment_type
check_capacity_batch db settings rows params =
    failures_of settings (aggregate_counts [] (db.group_by (capacity_where params) rows))
      params.items
