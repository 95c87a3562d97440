-- ===== src/Prisma.antt =====
-- The database client (the package @prisma/client, which is not part of this repository): the
-- operations on one table that the services call, with their documented behaviour as laws. A table
-- is the list of its rows. Which row an unordered `findFirst` takes, and the order in which
-- `findMany` returns rows, are left open.

pub mod Listed
use lit_server_nest.Prelude.{
  ℕ, Bool, true, false, Option, none, some, List, [], ◌∷◌, ◌++◌, ◌≡◌, String, Memᴰ, length, count,
  has, patch, select, not, if◌then◌else◌,
}

pub record Table (Row : Type 0) : Type 0 where
  -- `findFirst({ where })` and `findUnique({ where })`
  pub find_first : (Row → Bool) → List Row → Option Row
  pub find_first-some :
      (cond : Row → Bool) (rows : List Row) (r : Row)
      → find_first cond rows ≡ some r
      → Memᴰ r rows × (cond r ≡ true)
  pub find_first-none :
      (cond : Row → Bool) (rows : List Row)
      → find_first cond rows ≡ none
      → (r : Row) → Memᴰ r rows
      → cond r ≡ false
  -- `findFirst({ where, orderBy: { key: 'asc' } })`, in the collation of the database
  pub collates : String → String → Bool
  pub collates_total : (a b : String) → collates a b ≡ false → collates b a ≡ true
  pub collates_trans :
      (a b c : String) → collates a b ≡ true → collates b c ≡ true → collates a c ≡ true
  pub find_first_by : (Row → String) → (Row → Bool) → List Row → Option Row
  pub find_first_by-some :
      (key : Row → String) (cond : Row → Bool) (rows : List Row) (r : Row)
      → find_first_by key cond rows ≡ some r
      → Memᴰ r rows × (cond r ≡ true)
  pub find_first_by-none :
      (key : Row → String) (cond : Row → Bool) (rows : List Row)
      → find_first_by key cond rows ≡ none
      → (r : Row) → Memᴰ r rows
      → cond r ≡ false
  pub find_first_by_least :
      (key : Row → String) (cond : Row → Bool) (rows : List Row) (r : Row)
      → find_first_by key cond rows ≡ some r
      → (s : Row) → Memᴰ s rows
      → cond s ≡ true
      → collates (key r) (key s) ≡ true
  -- `findMany({ where })`
  pub find_many : (Row → Bool) → List Row → List Row
  pub find_many-mem :
      (cond : Row → Bool) (rows : List Row) (r : Row)
      → Memᴰ r (find_many cond rows)
      → Memᴰ r rows × (cond r ≡ true)
  pub mem-find_many :
      (cond : Row → Bool) (rows : List Row) (r : Row)
      → Memᴰ r rows
      → cond r ≡ true
      → Memᴰ r (find_many cond rows)
  pub length-find_many :
      (cond : Row → Bool) (rows : List Row) → length (find_many cond rows) ≡ count cond rows
  -- `updateMany({ where, data })`: the number of rows changed, and the table
  pub update_many : (Row → Bool) → (Row → Row) → List Row → ℕ × List Row
  pub update_many_lem :
      (cond : Row → Bool) (f : Row → Row) (rows : List Row)
      → update_many cond f rows ≡ (count cond rows, patch cond f rows)
  -- `update({ where, data })` by a unique column; it throws if there is no such row
  pub update : (Row → Bool) → (Row → Row) → List Row → Option (List Row)
  pub update_lem :
      (cond : Row → Bool) (f : Row → Row) (rows : List Row)
      → update cond f rows ≡ (if has cond rows then some (patch cond f rows) else none)
  -- `create({ data })` and `createMany({ data })`
  pub create_many : List Row → List Row → List Row
  pub create_many_lem : (new rows : List Row) → create_many new rows ≡ rows ++ new
  -- `deleteMany({ where })`
  pub delete_many : (Row → Bool) → List Row → List Row
  pub delete_many_lem :
      (cond : Row → Bool) (rows : List Row)
      → delete_many cond rows ≡ select (λ r. not (cond r)) rows
  -- `count({ where })`
  pub tally : (Row → Bool) → List Row → ℕ
  pub tally_lem : (cond : Row → Bool) (rows : List Row) → tally cond rows ≡ count cond rows
