-- ===== src/Pricing.antt =====
-- src/modules/reservations/pricing: the sizes that are sold, their prices, and the price of a stay.
-- The price is per bag and billing day; a billing day runs from 06:00 to 06:00 in Seoul (UTC+9).
-- A calendar date in Seoul is the number of its day, counted from 1 January 1970.
pub mod Sizes
pub mod Days
pub mod Amounts
use lit_server_nest.Prelude.{
  ℕ, ◌+◌, ◌-◌, ◌*◌, ◌/◌, ℤ, pos, sub_ℕ, ◌+ℤ◌, ◌-ℤ◌, ◌*ℤ◌, floor_div, Bool, true, Option, none, some,
  List, [], ◌∷◌, String, get_or,
}
use lit_server_nest.Reservation.{StorageType}

pub data BillingStorageType : Type 0 where
  s m l : BillingStorageType

unfoldable pub frozen_storage_prices : BillingStorageType → ℕ
frozen_storage_prices BillingStorageType.s = 4500
frozen_storage_prices BillingStorageType.m = 6000
frozen_storage_prices BillingStorageType.l = 8000

abbrev pub frozen_refrigeration_price : ℕ
frozen_refrigeration_price = 4500

abbrev pub sellable_storage_types : List BillingStorageType
sellable_storage_types = BillingStorageType.s ∷ BillingStorageType.m ∷ BillingStorageType.l ∷ []

-- The columns of store_settings that hold the capacity and the switch of each size.
pub record StoreSettings : Type 0 where
  pub store_id : String
  pub m_max_capacity : Option ℕ
  pub m_enabled : Option Bool
  pub l_max_capacity : Option ℕ
  pub l_enabled : Option Bool
  pub xl_max_capacity : Option ℕ
  pub xl_enabled : Option Bool

pub record StorageTypeBinding : Type 0 where
  pub capacity : StoreSettings → Option ℕ
  pub enabled : StoreSettings → Option Bool
  pub number_prefix : String

-- The columns are shifted by one size: small is kept in m_*, medium in l_*, large in xl_*.
unfoldable pub storage_settings_columns : BillingStorageType → StorageTypeBinding
storage_settings_columns BillingStorageType.s = record {
  capacity = λ c. c.m_max_capacity;
  enabled = λ c. c.m_enabled;
  number_prefix = "S";
}
storage_settings_columns BillingStorageType.m = record {
  capacity = λ c. c.l_max_capacity;
  enabled = λ c. c.l_enabled;
  number_prefix = "M";
}
storage_settings_columns BillingStorageType.l = record {
  capacity = λ c. c.xl_max_capacity;
  enabled = λ c. c.xl_enabled;
  number_prefix = "L";
}

unfoldable pub is_storage_type_enabled : Option StoreSettings → BillingStorageType → Bool
unfolding storage_settings_columns
is_storage_type_enabled none type = true
is_storage_type_enabled (some c) type = get_or ((storage_settings_columns type).enabled c) true

storage_assignment_aliases : StorageType → Option StorageType
storage_assignment_aliases StorageType.xl = some StorageType.l
storage_assignment_aliases StorageType.special = some StorageType.l
storage_assignment_aliases _ = none

unfoldable pub normalize_storage_assignment_type : StorageType → StorageType
unfolding storage_assignment_aliases
normalize_storage_assignment_type type = get_or (storage_assignment_aliases type) type

-- The two tests of `normalizeBillingStorageType` on the resolved size.
resolve_billing_type : StorageType → BillingStorageType
resolve_billing_type StorageType.s = BillingStorageType.s
resolve_billing_type StorageType.m = BillingStorageType.m
resolve_billing_type StorageType.l = BillingStorageType.l
resolve_billing_type StorageType.refrigeration = BillingStorageType.s
resolve_billing_type _ = BillingStorageType.s

unfoldable pub normalize_billing_storage_type : StorageType → BillingStorageType
unfolding normalize_storage_assignment_type resolve_billing_type
normalize_billing_storage_type type = resolve_billing_type (normalize_storage_assignment_type type)

unfoldable pub get_frozen_price_per_bag_per_day : StorageType → ℕ
unfolding normalize_billing_storage_type frozen_storage_prices
get_frozen_price_per_bag_per_day StorageType.refrigeration = frozen_refrigeration_price
get_frozen_price_per_bag_per_day type = frozen_storage_prices (normalize_billing_storage_type type)

abbrev pub hour_ms : ℕ
hour_ms = 3600000

abbrev pub day_ms : ℕ
day_ms = 86400000

-- The date in Seoul of the instant six hours earlier. With the offset of nine hours added first the
-- difference is that of the source for every instant since the epoch.
unfoldable pub to_billing_date_key : ℕ → ℕ
to_billing_date_key date = (date + 9 * hour_ms - 6 * hour_ms) / day_ms

-- The instant at which a date begins in Seoul.
unfoldable pub to_kst_midnight_ms : ℕ → ℤ
to_kst_midnight_ms key = sub_ℕ (key * day_ms) (9 * hour_ms)

unfoldable pub count_storage_days : ℕ → ℕ → ℤ
unfolding to_billing_date_key to_kst_midnight_ms ◌-ℤ◌ ◌+ℤ◌ floor_div
count_storage_days start_time end_time =
    let start_ms = to_kst_midnight_ms (to_billing_date_key start_time) in
    let end_ms = to_kst_midnight_ms (to_billing_date_key end_time) in
    floor_div (end_ms -ℤ start_ms) day_ms +ℤ pos 1

pub record ReservationPricingInput : Type 0 where
  pub storage_type : StorageType
  pub bag_count : ℕ
  pub start_time : ℕ
  pub end_time : ℕ

unfoldable pub calculate_total_amount : ReservationPricingInput → ℤ
unfolding get_frozen_price_per_bag_per_day count_storage_days ◌*ℤ◌
calculate_total_amount input =
    (get_frozen_price_per_bag_per_day input.storage_type * input.bag_count)
    *ℤ count_storage_days input.start_time input.end_time
