-- ===== src/Guest/Items/Merging.antt =====
-- The entries that `normalizeItems` returns against the items of the request.
use lit_server_nest.Prelude.{
  ℕ, ◌+◌, ◌≤◌, ◌<◌, Bool, true, false, ◌||◌, List, [], ◌∷◌, some, ◌≡◌, ◌↔◌, refl, sym, subst, ◌∙◌,
  ok, err, validation_error, Memᴰ, has, has-true, has-false, Bool-cases, inl, inr, ltb, arith,
  if◌then◌else◌, All, All-of_mem,
}
use lit_server_nest.Reservation.{StorageType, is_type}
use lit_server_nest.Pricing.{normalize_storage_assignment_type}
use lit_server_nest.Guest.Items.{
  NormalizedReservationItem, ItemsRequest, add_to, merge_items, limited, too_many, items_or_single,
  normalize_items,
}

pub same_type : (t u : StorageType) → is_type t u ≡ true → t ≡ u
unfolding is_type
same_type t u h = ground arith

-- The bags of one size in a list of entries.
abbrev pub bags_of : StorageType → List NormalizedReservationItem → ℕ
bags_of u [] = 0
bags_of u (x ∷ xs) =
    let rest = bags_of u xs in if is_type x.storage_type u then x.bag_count + rest else rest

-- The bags of a request that are stored under one size.
abbrev pub asked_for : StorageType → List NormalizedReservationItem → ℕ
asked_for u [] = 0
asked_for u (x ∷ xs) =
    let rest = asked_for u xs in
    if is_type (normalize_storage_assignment_type x.storage_type) u
    then x.bag_count + rest
    else rest

abbrev pub has_type : StorageType → List NormalizedReservationItem → Bool
has_type u xs = has (λ (x : NormalizedReservationItem). is_type x.storage_type u) xs

-- No size has two entries.
abbrev pub Distinct : List NormalizedReservationItem → Type 0
Distinct [] = Unit
Distinct (x ∷ xs) = (has_type x.storage_type xs ≡ false) × Distinct xs

pub bags_of-add_to :
    (t u : StorageType) (c : ℕ) (xs : List NormalizedReservationItem)
    → bags_of u (add_to t c xs) ≡ (if is_type t u then c else 0) + bags_of u xs
unfolding add_to
bags_of-add_to t u c [] = ground arith
bags_of-add_to t u c (x ∷ xs) = elim (Bool-cases (is_type x.storage_type t)) [
  | inl e ↦ rw (e, same_type x.storage_type t e) (ground arith)
  | inr e ↦ rw e (ground (arith, bags_of-add_to t u c xs))
]

has_type-add_to :
    (t u : StorageType) (c : ℕ) (xs : List NormalizedReservationItem)
    → has_type u (add_to t c xs) ≡ (is_type t u || has_type u xs)
unfolding add_to
has_type-add_to t u c [] = ground arith
has_type-add_to t u c (x ∷ xs) = elim (Bool-cases (is_type x.storage_type t)) [
  | inl e ↦ rw (e, same_type x.storage_type t e) (ground arith)
  | inr e ↦ rw e (ground (arith, has_type-add_to t u c xs))
]

type_comm : (t u : StorageType) → is_type t u ≡ is_type u t
unfolding is_type
type_comm t u = ground arith

pub Distinct-add_to :
    (t : StorageType) (c : ℕ) (xs : List NormalizedReservationItem)
    → Distinct xs
    → Distinct (add_to t c xs)
unfolding add_to
Distinct-add_to t c [] h = (refl, tt)
Distinct-add_to t c (x ∷ xs) h = elim (Bool-cases (is_type x.storage_type t)) [
  | inl e ↦ rw e h
  | inr e ↦ rw e (
    has_type-add_to t x.storage_type c xs ∙ ground (arith, type_comm t x.storage_type, h.0),
    Distinct-add_to t c xs h.1,
  )
]

Distinct-merge_items :
    (merged items : List NormalizedReservationItem)
    → Distinct merged
    → Distinct (merge_items merged items)
unfolding merge_items
Distinct-merge_items merged [] h = h
Distinct-merge_items merged (item ∷ items) h =
    Distinct-merge_items
      (add_to (normalize_storage_assignment_type item.storage_type) item.bag_count merged) items
      (Distinct-add_to (normalize_storage_assignment_type item.storage_type) item.bag_count merged
        h)

bags_of-merge_items :
    (u : StorageType) (merged items : List NormalizedReservationItem)
    → bags_of u (merge_items merged items) ≡ asked_for u items + bags_of u merged
unfolding merge_items
bags_of-merge_items u merged [] = omega arith
bags_of-merge_items u merged (item ∷ items) =
    let t = normalize_storage_assignment_type item.storage_type in
    bags_of-merge_items u (add_to t item.bag_count merged) items
    ∙ ground (arith, bags_of-add_to t u item.bag_count merged)

type_refl : (t : StorageType) → is_type t t ≡ true
unfolding is_type
type_refl t = ground arith

no_bags :
    (u : StorageType) (xs : List NormalizedReservationItem)
    → has_type u xs ≡ false
    → bags_of u xs ≡ 0
no_bags u [] h = refl
no_bags u (x ∷ xs) h = ground (arith, no_bags u xs)

-- With one entry for each size, an entry holds all the bags of its size.
pub entry_bags :
    (xs : List NormalizedReservationItem) (x : NormalizedReservationItem)
    → Distinct xs
    → Memᴰ x xs
    → bags_of x.storage_type xs ≡ x.bag_count
entry_bags [] x d m = elim m [ ]
entry_bags (y ∷ ys) x d (Memᴰ.head e) =
    subst (λ z. bags_of z.storage_type (y ∷ ys) ≡ z.bag_count) (sym e)
      (rw (type_refl y.storage_type, no_bags y.storage_type ys d.0) (omega arith))
entry_bags (y ∷ ys) x d (Memᴰ.tail m) = elim (Bool-cases (is_type y.storage_type x.storage_type)) [
  | inl e ↦
      let same =
        has-false (λ (z : NormalizedReservationItem). is_type z.storage_type y.storage_type) ys d.0
          m in
      cc (same, type_comm x.storage_type y.storage_type, e)
  | inr e ↦ rw e (entry_bags ys x d.1 m)
]

holder :
    (u : StorageType) (xs : List NormalizedReservationItem)
    → has_type u xs ≡ true
    → (x : NormalizedReservationItem) × Memᴰ x xs × (x.storage_type ≡ u)
holder u xs h =
    let (x, m, e) = has-true (λ (z : NormalizedReservationItem). is_type z.storage_type u) xs h in
    (x, m, same_type x.storage_type u e)

-- A size with more bags than the limit has an entry with more.
over_limit :
    (u : StorageType) (xs : List NormalizedReservationItem)
    → Distinct xs
    → 10 < bags_of u xs
    → has too_many xs ≡ true
over_limit u xs d h = elim (Bool-cases (has_type u xs)) [
  | inr e ↦ absurd (omega (arith, no_bags u xs e))
  | inl e ↦
      let (x, m, same) = holder u xs e in
      elim (Bool-cases (has too_many xs)) [
        | inl found ↦ found
        | inr free ↦ absurd (contradiction x m same free)
      ]
]
  where
    contradiction :
        (x : NormalizedReservationItem)
        → Memᴰ x xs
        → x.storage_type ≡ u
        → has too_many xs ≡ false
        → ⊥
    contradiction x m same free =
        let small = has-false too_many xs free m in
        let all = entry_bags xs x d m in
        let many : 10 < bags_of x.storage_type xs = subst (λ t. 10 < bags_of t xs) (sym same) h in
        ground (arith, small, all, many)

small_entry : (x : NormalizedReservationItem) → too_many x ≡ false → x.bag_count ≤ 10
small_entry x h = ground arith

-- What a list of entries must be for the items of a request.
pub record Merged (items out : List NormalizedReservationItem) : Type 0 where
  pub distinct : Distinct out
  pub complete : (u : StorageType) → bags_of u out ≡ asked_for u items
  pub within : All (λ (x : NormalizedReservationItem). x.bag_count ≤ 10) out

limited_ok :
    (items merged out : List NormalizedReservationItem)
    → Distinct merged
    → ((u : StorageType) → bags_of u merged ≡ asked_for u items)
    → limited merged ≡ ok out
    → Merged items out
limited_ok items merged out d total h = elim (Bool-cases (has too_many merged)) [
  | inl e ↦ absurd (refused e h)
  | inr e ↦
      let same : merged ≡ out = accepted e h in
      subst (Merged items) same (record {
        distinct = d;
        complete = total;
        within =
            All-of_mem (λ (x : NormalizedReservationItem). x.bag_count ≤ 10) merged
              (λ x m. small_entry x (has-false too_many merged e m));
      })
]
  where
    refused : has too_many merged ≡ true → limited merged ≡ ok out → ⊥
    refused e q = ground arith

    accepted : has too_many merged ≡ false → limited merged ≡ ok out → merged ≡ out
    accepted e q = ground arith

-- If a request with a list of items is accepted, the result has one entry for each size, every entry
-- holds exactly the bags that the request has for that size (the legacy sizes counted under large),
-- and no entry has more than ten bags.
pub normalize_items-Merged :
    (dto : ItemsRequest) (item : NormalizedReservationItem)
    (items out : List NormalizedReservationItem)
    → dto.items ≡ some (item ∷ items)
    → normalize_items dto ≡ ok out
    → Merged (item ∷ items) out
unfolding normalize_items items_or_single
normalize_items-Merged dto item items out given h =
    limited_ok (item ∷ items) (merge_items [] (item ∷ items)) out
      (Distinct-merge_items [] (item ∷ items) tt)
      (λ u. bags_of-merge_items u [] (item ∷ items) ∙ omega arith) (rw given at h)

limited_err :
    (items merged : List NormalizedReservationItem)
    → Distinct merged
    → ((u : StorageType) → bags_of u merged ≡ asked_for u items)
    → (limited merged ≡ err validation_error) ↔ ((u : StorageType) × (10 < asked_for u items))
limited_err items merged d total = (
  λ h.
      let (x, m, e) = has-true too_many merged (over h) in
      let all = entry_bags merged x d m in
      let sum = total x.storage_type in
      (x.storage_type, large x.bag_count (asked_for x.storage_type items) e (sym all ∙ sum)),
  λ p.
      let sum = total p.0 in
      let e = over_limit p.0 merged d (subst (λ n. 10 < n) (sym sum) p.1) in rw e refl,
)
  where
    over : limited merged ≡ err validation_error → has too_many merged ≡ true
    over h = ground arith

    large : (n k : ℕ) → ltb 10 n ≡ true → n ≡ k → 10 < k
    large n k e q = ground (arith, e, q)

-- A request with a list of items is refused exactly if it has more than ten bags for some size, the
-- legacy sizes counted under large.
pub normalize_items-refused_iff :
    (dto : ItemsRequest) (item : NormalizedReservationItem) (items : List NormalizedReservationItem)
    → dto.items ≡ some (item ∷ items)
    → (normalize_items dto ≡ err validation_error)
      ↔ ((u : StorageType) × (10 < asked_for u (item ∷ items)))
unfolding normalize_items items_or_single
normalize_items-refused_iff dto item items given = rw given (
    limited_err (item ∷ items) (merge_items [] (item ∷ items))
      (Distinct-merge_items [] (item ∷ items) tt)
      (λ u. bags_of-merge_items u [] (item ∷ items) ∙ omega arith))
