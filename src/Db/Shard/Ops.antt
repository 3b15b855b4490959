-- ===== src/Db/Shard/Ops.antt =====
-- core/raddi_database_shard.tcc: the operations of a shard. Each returns the new shard.
use raddi.Base.{
  ℕ, ◌+◌, ◌-◌, Bool, true, false, ◌&&◌, not, List, [], ◌∷◌, Option, none, some, length, drop, ltb,
  ◌==◌, if◌then◌else◌,
}
use raddi.Db.Row.{RowOps, entry_size, signature_size}
use raddi.Db.Cache.{find, insert_to_cache, sort, drop_erased}
use raddi.Db.Shard.{Shard, Settings, Os, Read, Got}
use raddi.Db.Shard.Files.{read, apply_mask, replicate}

-- `proof::min_size`, and `entry::max_content_size`: the largest protocol payload less the header.
abbrev pub min_proof_size : ℕ
min_proof_size = 50

abbrev pub max_content_size : ℕ
max_content_size = 65518 - entry_size

-- The bytes of a list equal those of another: `memcmp`.
unfoldable pub same_bytes : List ℕ → List ℕ → Bool
same_bytes [] [] = true
same_bytes [] (y ∷ ys) = false
same_bytes (x ∷ xs) [] = false
same_bytes (x ∷ xs) (y ∷ ys) = x == y && same_bytes xs ys

-- Which parts the ids belong to.
unfoldable pub wants_ids : Read → Bool
wants_ids Read.identification = true
wants_ids Read.identification_and_verification = true
wants_ids Read.identification_and_content = true
wants_ids Read.everything = true
wants_ids _ = false

-- The offset and the length to read from the content file, for `demand` bytes of content.
unfoldable pub span : Read → ℕ → Option (ℕ × ℕ)
span Read.verification demand = some (0, signature_size)
span Read.identification_and_verification demand = some (0, signature_size)
span Read.content demand = some (signature_size, demand)
span Read.identification_and_content demand = some (signature_size, demand)
span Read.verification_and_content demand = some (0, signature_size + demand)
span Read.everything demand = some (0, signature_size + demand)
span _ demand = none

module _ {Key RowId : Type 0} (ops : RowOps Key RowId) where
  open ops use {
    id, data_offset, data_length, erased, of_eid, to_eid, header, zeros, classify, place, entry_ids,
  }

  -- A shard that has not been opened: the constructor.
  unfoldable pub create : ℕ → Os Key → Shard Key
  create base os = record {
    base = base;
    accessed = os.now;
    opened = false;
    index = [];
    index_position = 0;
    index_inside = false;
    content = [];
    content_position = 0;
    deleted = 0;
    cache = [];
  }

  unfoldable pub unsynchronized_close : Shard Key → Shard Key
  unsynchronized_close s = record s { cache = []; opened = false }

  unfoldable pub close : Shard Key → Shard Key × Bool
  unfolding unsynchronized_close
  close s = if s.opened then (unsynchronized_close s, true) else (s, false)

  -- The rows that a reader finds behind its position, one after the other.
  unfoldable pub advance_rows : List Key → Shard Key → Shard Key
  advance_rows [] s = s
  advance_rows (r ∷ rs) s = advance_rows rs (
      if erased (id r)
      then record s { deleted = s.deleted + 1 }
      else record s { cache = insert_to_cache ops r s.cache })

  -- The load of the whole index after the files have been opened.
  unfoldable pub load : Os Key → Shard Key → Shard Key
  load os s =
      let rows = drop_erased ops (sort ops s.index) in
      if os.read_index
      then record s {
        cache = rows;
        deleted = length s.index - length rows;
        index_position = length s.index;
      }
      else record s { cache = replicate (length s.index) zeros }

  -- The part of `unsynchronized_advance` behind the opening of the files; `fresh` is its `opened`.
  unfoldable pub refresh : Os Key → Bool → Shard Key → Shard Key × Bool
  unfolding load advance_rows
  refresh os fresh s =
      let t = record s { accessed = os.now } in
      let tail = if os.read_index then drop t.index_position t.index else [] in
      if length t.index == length t.cache
      then (t, true)
      else if length t.index == 0
      then (t, true)
      else if not os.load_memory
      then (t, false)
      else if fresh
      then (load os t, true)
      else (
        advance_rows tail
            (record t { deleted = 0; index_position = t.index_position + length tail }),
        true,
      )

  unfoldable pub unsynchronized_advance : Settings → Os Key → Shard Key → Shard Key × Bool
  unfolding refresh
  unsynchronized_advance st os s =
      if st.writer && s.opened
      then (s, true)
      else if s.opened
      then refresh os false s
      else if not (os.open_index && os.open_content)
      then (s, false)
      else refresh os true (record s {
        opened = true;
        index_position = 0;
        index_inside = false;
        content_position = length s.content;
      })

  unfoldable pub reload : Settings → Os Key → Shard Key → Shard Key × Bool
  unfolding unsynchronized_advance unsynchronized_close
  reload st os s = unsynchronized_advance st os (unsynchronized_close s)

  -- The read of a part of the content file, and its unmasking.
  unfoldable pub read_content :
      Settings → Os Key → Shard Key → Key → Read → ℕ × ℕ → Shard Key × Option Got
  unfolding unsynchronized_close
  read_content st os s k what (offset, n) =
      let position = data_offset k + offset in
      let moved = record s { content_position = os.pointer s.content_position (position + n) } in
      elim (if os.read_content then read position n s.content else none) [
        | none ↦ (unsynchronized_close s, none)
        | some bytes ↦ (
          moved,
          some (record {
            ids = if wants_ids what then some (entry_ids k) else none;
            at = offset;
            bytes = apply_mask st.mask position bytes;
          }),
        )
      ]

  -- `unsynchronized_read` into a buffer; `nothing` is also the call without one.
  unfoldable pub unsynchronized_read :
      Settings → Os Key → Shard Key → Key → Read → ℕ → Shard Key × Option Got
  unfolding read_content wants_ids span unsynchronized_close
  unsynchronized_read st os s k what demand =
      let amount = if demand == 0 then data_length k else demand in
      elim (what) [
        | Read.nothing ↦ (s, some (record { ids = none; at = 0; bytes = [] }))
        | other ↦
            if ltb (data_length k) demand
            then (unsynchronized_close s, none)
            else elim (span other amount) [
              | none ↦ (
                s,
                some (record {
                  ids = if wants_ids other then some (entry_ids k) else none;
                  at = 0;
                  bytes = [];
                }),
              )
              | some part ↦ read_content st os s k other part
            ]
      ]

  -- `unsynchronized_get`: the row, and the parts that were asked for.
  unfoldable pub unsynchronized_get :
      Settings → Os Key → Shard Key → RowId → Read → ℕ → Shard Key × Option (Key × Got)
  unfolding unsynchronized_read
  unsynchronized_get st os s k what demand = elim (find ops k s.cache) [
    | none ↦ (s, none)
    | some r ↦
        let (t, got) = unsynchronized_read st os (record s { accessed = os.now }) r what demand in
        elim got [ none ↦ (t, none) | some g ↦ (t, some (r, g)) ]
  ]

  -- The size that `get` reports for a row.
  abbrev pub entry_length : Key → ℕ
  entry_length r = data_length r + entry_size
