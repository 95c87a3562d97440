-- ===== src/Tests/Requests.antt =====
-- Requests of the examples, and what the code makes of them.
use lit_server_nest.Prelude.{
  ◌&&◌, Bool, none, some, List, [], ◌∷◌, ◌≡◌, refl, Memᴰ, ok, err, arith, invalid_reservation_time,
}
use lit_server_nest.Reservation.{Reservation, StorageType, is_type}
use lit_server_nest.Tests.Samples.{client, before, now, different}
use lit_server_nest.Command.Create.{
  CreateReservationDto, create_store_reservation, create_for_store, create_in_store,
}
use lit_server_nest.Command.Create.Confirmed.{IsFresh}
use lit_server_nest.Guest.Items.{NormalizedReservationItem, ItemsRequest, normalize_items}
use lit_server_nest.Guest.Capacity.{
  TypeGroup, GroupBy, CapacityParams, sum_of_groups, bags_where, requests, check_capacity_batch,
}
use lit_server_nest.Guest.Capacity.Counting.{all_types}

-- A request for a reservation, and the reply of the store.
abbrev pub request : CreateReservationDto
request = record {
  store_id = some "store";
  customer_id = none;
  phone_number = "01099998888";
  email = none;
  storage_type = StorageType.xl;
  start_time = 150;
  end_time = none;
  duration = 2;
  bag_count = 3;
  luggage_image_urls = none;
}

pub before-IsFresh : IsFresh before.reservations "r5"
before-IsFresh r (Memᴰ.head e) = rw e (different "r1" "r5" refl)
before-IsFresh r (Memᴰ.tail (Memᴰ.head e)) = rw e (different "r2" "r5" refl)
before-IsFresh r (Memᴰ.tail (Memᴰ.tail (Memᴰ.head e))) = rw e (different "r3" "r5" refl)
before-IsFresh r (Memᴰ.tail (Memᴰ.tail (Memᴰ.tail (Memᴰ.head e)))) = rw e (different "r4" "r5" refl)
before-IsFresh r (Memᴰ.tail (Memᴰ.tail (Memᴰ.tail (Memᴰ.tail m)))) = elim m [ ]

-- A request that ends when it begins.
abbrev empty_request : CreateReservationDto
empty_request = record request { end_time = some 150 }

refuses :
    (create_store_reservation client now "r5" "cust_1" "" empty_request before).0
    ≡ err invalid_reservation_time
unfolding create_store_reservation create_for_store create_in_store
refuses = refl

-- The items of a request of a guest.
abbrev pub small_bags : NormalizedReservationItem
small_bags = record { storage_type = StorageType.s; bag_count = 2 }

abbrev pub large_bags : NormalizedReservationItem
large_bags = record { storage_type = StorageType.l; bag_count = 1 }

abbrev pub huge_bags : NormalizedReservationItem
huge_bags = record { storage_type = StorageType.xl; bag_count = 3 }

abbrev pub items_request : ItemsRequest
items_request = record {
  items = some (large_bags ∷ small_bags ∷ huge_bags ∷ []);
  bag_count = none;
  storage_type = none;
  requested_storage_type = none;
}

pub merges :
    normalize_items items_request
    ≡ ok (record { storage_type = StorageType.l; bag_count = 4 } ∷ small_bags ∷ [])
unfolding normalize_items
merges = refl

-- One group for each size.
abbrev pub grouped : (Reservation → Bool) → List Reservation → List StorageType → List TypeGroup
grouped cond rows [] = []
grouped cond rows (t ∷ ts) =
    record {
      requested_storage_type = some t;
      sum_bag_count = some (bags_where (λ r. cond r && requests t r.requested_storage_type) rows);
    }
    ∷ grouped cond rows ts

pub sums_up :
    (cond : Reservation → Bool) (rows : List Reservation) (type : StorageType)
    → sum_of_groups type (grouped cond rows all_types)
      ≡ bags_where (λ r. cond r && requests type r.requested_storage_type) rows
unfolding is_type
sums_up cond rows StorageType.s = omega arith
sums_up cond rows StorageType.m = omega arith
sums_up cond rows StorageType.l = omega arith
sums_up cond rows StorageType.xl = omega arith
sums_up cond rows StorageType.special = omega arith
sums_up cond rows StorageType.refrigeration = omega arith

abbrev pub by_type : GroupBy
by_type = record {
  group_by = λ cond rows. grouped cond rows all_types;
  sum_of_groups-group_by = sums_up;
}

abbrev pub wanted : CapacityParams
wanted = record { store_id = "store"; items = small_bags ∷ []; start_time = 150; end_time = 250 }

-- Two of the five bags of the default capacity are booked.
pub has_room : check_capacity_batch by_type none before.reservations wanted ≡ []
unfolding check_capacity_batch
has_room = refl
