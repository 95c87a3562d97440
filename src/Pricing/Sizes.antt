-- ===== src/Pricing/Sizes.antt =====
-- The sizes, and the prices that they are sold at.
use lit_server_nest.Prelude.{◌≤◌, ◌≡◌, arith}
use lit_server_nest.Reservation.{StorageType}
use lit_server_nest.Pricing.{normalize_storage_assignment_type, get_frozen_price_per_bag_per_day}

pub price-normalize :
    (t : StorageType)
    → get_frozen_price_per_bag_per_day (normalize_storage_assignment_type t)
      ≡ get_frozen_price_per_bag_per_day t
unfolding normalize_storage_assignment_type get_frozen_price_per_bag_per_day
price-normalize t = ground arith

pub price_bounds :
    (t : StorageType)
    → (4500 ≤ get_frozen_price_per_bag_per_day t) × (get_frozen_price_per_bag_per_day t ≤ 8000)
unfolding get_frozen_price_per_bag_per_day
price_bounds t = ground arith
