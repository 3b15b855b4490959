-- ===== src/Db/Shard/Split.antt =====
-- core/raddi_database_shard.tcc: `split`, and `size` and `top` of a shard.
use raddi.Base.{ℕ, ◌-◌, Bool, not, List, [], ◌∷◌, Option, none, some, length, leb, if◌then◌else◌}
use raddi.Db.Row.{RowOps, Entry}
use raddi.Db.Shard.{Shard, Settings, Os, Read, Got}
use raddi.Db.Shard.Ops.{create, unsynchronized_advance, unsynchronized_get}
use raddi.Db.Shard.Updates.{unsynchronized_insert}

-- The result of a split: what remains and what is separated; `refused` where the code throws; and
-- `undefined` where a failed read clears the vector that the loop iterates over.
pub data Split (Key : Type 0) : Type 0 where
  parts : Shard Key → Shard Key → Split Key
  refused : Split Key
  undefined : Split Key

-- The entry that a read has put into the buffer.
unfoldable pub rebuilt : Got → Option Entry
rebuilt g = elim (g.ids) [
  | none ↦ none
  | some (i, p) ↦ some (record { id = i; parent = p; body = g.bytes })
]

unfoldable pub get_last? {ℓ} : {A : Type ℓ} → List A → Option A
get_last? [] = none
get_last? (x ∷ []) = some x
get_last? (x ∷ y ∷ ys) = get_last? (y ∷ ys)

module _ {Key RowId : Type 0} (ops : RowOps Key RowId) where
  open ops use {id, erased, to_eid, top}

  -- One row goes to the part that its timestamp belongs to.
  unfoldable pub split_row :
      Settings → Os Key → ℕ → Key → Entry → Shard Key × Shard Key → Shard Key × Shard Key
  split_row st os timestamp r e (remaining, separated) =
      if erased (id r)
      then (remaining, separated)
      else if leb timestamp (to_eid (id r)).timestamp
      then (remaining, (unsynchronized_insert ops st os e (top r) separated).0)
      else ((unsynchronized_insert ops st os e (top r) remaining).0, separated)

  unfoldable pub split_rows :
      Settings → Os Key → ℕ → List Key → Shard Key → Shard Key × Shard Key → Split Key
  unfolding split_row rebuilt
  split_rows st os timestamp [] s (remaining, separated) = parts remaining separated
  split_rows st os timestamp (r ∷ rs) s both =
      let (t, found) = unsynchronized_get ops st os s (id r) Read.everything 0 in
      elim (found) [
        | none ↦ undefined
        | some (_, g) ↦ elim (rebuilt g) [
          | none ↦ undefined
          | some e ↦ split_rows st os timestamp rs t (split_row st os timestamp r e both)
        ]
      ]

  -- `split`; `moved` says whether both files could be renamed.
  unfoldable pub split : Settings → Os Key → Bool → ℕ → Shard Key → Split Key
  unfolding split_rows create
  split st os moved timestamp s =
      let (t, ready) = unsynchronized_advance ops st os s in
      if not ready
      then refused
      else if not moved
      then refused
      else split_rows st os timestamp t.cache t (create ops t.base os, create ops timestamp os)

  -- `size`: the rows in memory, or an estimate from the file's size; `found` says whether it opens.
  unfoldable pub size : Bool → Shard Key → ℕ
  size found s =
      if s.opened then length s.cache else if found then length s.index - s.deleted else 0

  -- `top`: the youngest row in memory.
  unfoldable pub youngest : Shard Key → Option Key
  unfolding get_last?
  youngest s = if s.opened then get_last? s.cache else none
