-- ===== src/Db/Table.antt =====
-- core/raddi_database_table.h and core/raddi_database_table.tcc: a table is a vector of shards in
-- the order of their base timestamps. A shard is named here by its index in the vector.
pub mod Find
pub mod Backtrack
pub mod Select
use raddi.Base.{
  ℕ, zero, suc, ◌+◌, ◌-◌, ◌*◌, ◌/◌, ◌%◌, Bool, true, false, ◌&&◌, ◌||◌, not, List, [], ◌∷◌, ◌++◌,
  Option, none, some, length, take, drop, ltb, leb, ◌==◌, if◌then◌else◌, ◌>>=◌,
}
use raddi.Base.{get_elem?}
use raddi.Time.{u32, add32, sub32}
use raddi.Id.{Eid}
use raddi.Db.Row.{RowOps, Entry, Root}
use raddi.Db.Shard.{Shard, Settings, Os, Read, Got}
use raddi.Db.Shard.Ops.{create, unsynchronized_advance, unsynchronized_get}
use raddi.Db.Shard.Updates.{insert, erase}
use raddi.Db.Shard.Split.{Split, parts, refused, undefined, split, get_last?}

-- The settings that govern the choice of a shard.
pub record Granularity : Type 0 where
  pub forward : ℕ
  pub backtrack : ℕ
  pub minimum_shard_size : ℕ
  pub maximum_shard_size : ℕ

-- `while (ts > timestamp) ts -= backtrack_granularity`, with fuel; `none` when it has run out.
unfoldable pub backtrack_base : ℕ → ℕ → ℕ → ℕ → Option ℕ
backtrack_base zero granularity timestamp ts = none
backtrack_base (suc fuel) granularity timestamp ts =
    let rest = backtrack_base fuel granularity timestamp (sub32 ts granularity) in
    if ltb timestamp ts then rest else some ts

module _ {Key : Type 0} where
  -- `std::upper_bound` by the base: how many shards begin at `timestamp` or before.
  unfoldable pub upper_bound : ℕ → List (Shard Key) → ℕ
  upper_bound timestamp [] = 0
  upper_bound timestamp (s ∷ ss) =
      let rest = upper_bound timestamp ss in if ltb timestamp s.base then 0 else suc rest

  unfoldable pub last_base : List (Shard Key) → Option ℕ
  last_base [] = none
  last_base (s ∷ []) = some s.base
  last_base (s ∷ t ∷ ts) = last_base (t ∷ ts)

  -- `unsynchronized_find_shard`.
  unfoldable pub find_shard : ℕ → List (Shard Key) → Option ℕ
  unfolding upper_bound last_base
  find_shard timestamp shards = do
    back ← last_base shards
    if leb back timestamp
        then some (length shards - 1)
        else if upper_bound timestamp shards == 0
        then none
        else some (upper_bound timestamp shards - 1)

module _ {Key RowId : Type 0} (ops : RowOps Key RowId) where
  open ops use {id, to_eid}

  -- The sum of the timestamps in a cache.
  unfoldable pub sum_timestamps : List Key → ℕ
  sum_timestamps [] = 0
  sum_timestamps (r ∷ rs) = (to_eid (id r)).timestamp + sum_timestamps rs

  -- Where a full shard is divided: at the mean of its timestamps if it is the last one, half-way to
  -- the next shard's base otherwise.
  unfoldable pub divider : Shard Key → Option (Shard Key) → ℕ
  unfolding sum_timestamps
  divider s none = sum_timestamps s.cache / length s.cache + 1
  divider s (some next) = (s.base + sub32 (sub32 next.base s.base) 1 / 2 + 1) % u32

  -- Is the latest shard to be followed by a new one?
  unfoldable pub crowded : Granularity → ℕ → Shard Key → Bool
  crowded g timestamp s = leb g.minimum_shard_size (length s.cache) && elim (get_last? s.cache) [
    | none ↦ false
    | some r ↦ ltb (to_eid (id r)).timestamp timestamp
  ]

  -- The end of `unsynchronized_get_shard`: the shard at the index, divided if it is full.
  unfoldable pub divide_full :
      Settings
      → Os Key
      → Bool
      → Granularity
      → List (Shard Key)
      → ℕ
      → Shard Key
      → Option (List (Shard Key) × ℕ)
  divide_full st os moved g shards i s =
      let at = divider s (get_elem? shards (suc i)) in
      if leb g.maximum_shard_size (length s.cache) && ltb s.base at
      then elim (split ops st os moved (at % u32) s) [
        | parts remaining separated ↦
            some (take i shards ++ (remaining ∷ separated ∷ drop (suc i) shards), suc i)
        | refused ↦ some (shards, i)
        | undefined ↦ none
      ]
      else some (shards, i)

  -- `unsynchronized_get_shard`: the vector afterwards, and the index of the shard to insert into;
  -- `none` if the backtracking does not end, or if a split is undefined.
  unfoldable pub get_shard :
      ℕ
      → Settings
      → Os Key
      → Bool
      → Granularity
      → ℕ
      → List (Shard Key)
      → Option (List (Shard Key) × ℕ)
  unfolding divide_full
  get_shard fuel st os moved g timestamp [] = some (create ops timestamp os ∷ [], 0)
  get_shard fuel st os moved g timestamp (front ∷ more) =
      let shards = front ∷ more in
      elim (last_base shards) [
        | none ↦ none
        | some back ↦
            if leb (add32 back g.forward) timestamp
            then some (shards ++ (create ops timestamp os ∷ []), length shards)
            else if ltb timestamp front.base
            then (do
              base ← backtrack_base fuel g.backtrack timestamp front.base
              some (create ops base os ∷ shards, 0))
            else (do
              i ← find_shard timestamp shards
              s ← get_elem? shards i
              if leb back timestamp && crowded g timestamp s
                  then some (shards ++ (create ops timestamp os ∷ []), length shards)
                  else divide_full st os moved g shards i s)
      ]
