-- ===== src/Guest/Items.antt =====
-- `normalizeItems`: which sizes a request asks for, and how many bags of each. A `Map` is the list of
-- its entries in the order in which they were first set.
pub mod Merging
use lit_server_nest.Prelude.{
  ℕ, ◌+◌, Bool, true, false, ltb, nat_eq, get_or, has, Option, none, some, List, [], ◌∷◌, Result,
  ok, err, validation_error, if◌then◌else◌,
}
use lit_server_nest.Reservation.{StorageType, is_type}
use lit_server_nest.Pricing.{normalize_storage_assignment_type}

pub record NormalizedReservationItem : Type 0 where
  pub storage_type : StorageType
  pub bag_count : ℕ

-- The fields of the request that the function reads.
pub record ItemsRequest : Type 0 where
  pub items : Option (List NormalizedReservationItem)
  pub bag_count : Option ℕ
  pub storage_type : Option StorageType
  pub requested_storage_type : Option StorageType

abbrev pub max_bag_count_per_type : ℕ
max_bag_count_per_type = 10

-- `map.set(type, (map.get(type) ?? 0) + count)`
unfoldable pub add_to :
    StorageType → ℕ → List NormalizedReservationItem → List NormalizedReservationItem
unfolding is_type
add_to type count [] = record { storage_type = type; bag_count = count } ∷ []
add_to type count (x ∷ xs) =
    let rest = add_to type count xs in
    if is_type x.storage_type type
    then record x { bag_count = x.bag_count + count } ∷ xs
    else x ∷ rest

-- The loop over the items.
unfoldable pub merge_items :
    List NormalizedReservationItem → List NormalizedReservationItem → List NormalizedReservationItem
unfolding add_to normalize_storage_assignment_type
merge_items merged [] = merged
merge_items merged (item ∷ items) =
    merge_items (add_to (normalize_storage_assignment_type item.storage_type) item.bag_count merged)
      items

abbrev pub too_many : NormalizedReservationItem → Bool
too_many item = ltb max_bag_count_per_type item.bag_count

abbrev pub limited : List NormalizedReservationItem → Result (List NormalizedReservationItem)
limited merged = if has too_many merged then err validation_error else ok merged

-- `!dto.bagCount` holds for an absent number and for zero.
unfoldable pub single_item : ItemsRequest → Option ℕ → Result (List NormalizedReservationItem)
unfolding normalize_storage_assignment_type
single_item dto none = err validation_error
single_item dto (some count) =
    if nat_eq count 0
    then err validation_error
    else ok (
        record {
          storage_type =
              normalize_storage_assignment_type
                (get_or dto.storage_type (get_or dto.requested_storage_type StorageType.s));
          bag_count = count;
        }
        ∷ [])

-- `!dto.items?.length` holds for absent and for empty items.
unfoldable pub items_or_single :
    ItemsRequest → Option (List NormalizedReservationItem) → Result (List NormalizedReservationItem)
unfolding single_item merge_items
items_or_single dto none = single_item dto dto.bag_count
items_or_single dto (some []) = single_item dto dto.bag_count
items_or_single dto (some (item ∷ items)) = limited (merge_items [] (item ∷ items))

unfoldable pub normalize_items : ItemsRequest → Result (List NormalizedReservationItem)
unfolding items_or_single
normalize_items dto = items_or_single dto dto.items
