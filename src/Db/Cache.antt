-- ===== src/Db/Cache.antt =====
-- The sorted vector of rows that a shard keeps in memory (core/raddi_database_shard.tcc), and the
-- standard algorithms that it uses on it: `lower_bound`, `sort`, `find_if_not`.
pub mod Laws
pub mod Map
pub mod Reload
use raddi.Base.{Bool, List, [], ◌∷◌, ◌++◌, Option, none, some, if◌then◌else◌}
use raddi.Db.Row.{RowOps}

module _ {Key RowId : Type 0} (ops : RowOps Key RowId) where
  open ops use {id, lt, eq, erased}

  -- `std::lower_bound`: the rows before the first one that is not below `k`, and those from it on.
  unfoldable pub lower_bound : RowId → List Key → List Key × List Key
  lower_bound k [] = ([], [])
  lower_bound k (r ∷ rs) =
      let (front, back) = lower_bound k rs in
      if lt (id r) k then (r ∷ front, back) else ([], r ∷ rs)

  -- The row at the iterator, if it has the id.
  abbrev pub at_iterator : RowId → List Key → Option Key
  at_iterator k [] = none
  at_iterator k (r ∷ rs) = if eq (id r) k then some r else none

  -- The lookup by `lower_bound` that `get` and `erase` begin with.
  unfoldable pub find : RowId → List Key → Option Key
  unfolding lower_bound
  find k rows = at_iterator k (lower_bound k rows).1

  abbrev pub without_head : List Key → List Key
  without_head [] = []
  without_head (r ∷ rs) = rs

  -- `cache.erase (ii)`.
  unfoldable pub remove : RowId → List Key → List Key
  unfolding lower_bound
  remove k rows = let (front, back) = lower_bound k rows in front ++ without_head back

  -- Is the vector empty, or its last row below `k`?
  unfoldable pub back_below : RowId → List Key → Bool
  back_below k [] = Bool.true
  back_below k (r ∷ []) = lt (id r) k
  back_below k (r ∷ s ∷ rs) = back_below k (s ∷ rs)

  -- `unsynchronized_insert_to_cache`.
  unfoldable pub insert_to_cache : Key → List Key → List Key
  unfolding lower_bound back_below
  insert_to_cache r rows =
      if back_below (id r) rows
      then rows ++ (r ∷ [])
      else let (front, back) = lower_bound (id r) rows in front ++ (r ∷ back)

  -- `std::sort`, as insertion sort: with distinct ids the result is the same.
  unfoldable pub sort : List Key → List Key
  unfolding lower_bound
  sort [] = []
  sort (r ∷ rs) = let (front, back) = lower_bound (id r) (sort rs) in front ++ (r ∷ back)

  -- The rows from the first that is not erased: `find_if_not`, and `erase` of what is before it.
  unfoldable pub drop_erased : List Key → List Key
  drop_erased [] = []
  drop_erased (r ∷ rs) = let rest = drop_erased rs in if erased (id r) then rest else r ∷ rs

  -- The rows that are not erased.
  unfoldable pub live : List Key → List Key
  live [] = []
  live (r ∷ rs) = if erased (id r) then live rs else r ∷ live rs
