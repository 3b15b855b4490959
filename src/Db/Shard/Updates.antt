-- ===== src/Db/Shard/Updates.antt =====
-- core/raddi_database_shard.tcc: insertion into a shard, and erasure.
use mathlib.Core.Option
use raddi.Base.{
  ℕ, ◌+◌, ◌-◌, Bool, true, false, ◌&&◌, ◌||◌, not, List, [], ◌∷◌, ◌++◌, Option, none, some, length,
  take, drop, leb, ◌==◌, if◌then◌else◌,
}
use raddi.Id.{Eid, eid_eq, eid_isnull}
use raddi.Db.Row.{RowOps, Entry, Root, entry_size, signature_size, size_of}
use raddi.Db.Cache.{find, remove, insert_to_cache}
use raddi.Db.Shard.{Shard, Settings, Os, Read, Got}
use raddi.Db.Shard.Files.{write, resize, zero_range, apply_mask}
use raddi.Db.Shard.Ops.{
  min_proof_size, max_content_size, same_bytes, unsynchronized_close, unsynchronized_advance,
  unsynchronized_get, entry_length,
}

module _ {Key RowId : Type 0} (ops : RowOps Key RowId) where
  open ops use {id, data_offset, data_length, of_eid, to_eid, header, zeros, classify, place}

  -- The row joins the cache; without memory the shard closes, and loads again later.
  unfoldable pub cache_row : Os Key → Key → Shard Key → Shard Key × Bool
  unfolding unsynchronized_close
  cache_row os r s =
      if os.insert_memory
      then (record s { cache = insert_to_cache ops r s.cache; accessed = os.now }, true)
      else (unsynchronized_close ops s, false)

  -- `index.write`: the index file with the row at the position of the handle.
  unfoldable pub put_row : Os Key → Key → Shard Key → List Key
  put_row os r t =
      if t.index_inside
      then os.inside_write t.index_position r t.index
      else take t.index_position t.index ++ (r ∷ drop (t.index_position + 1) t.index)

  -- A failed write of the row: both files are cut back to where `s` has them, if they can be.
  unfoldable pub cut_back : Os Key → Key → Shard Key → Shard Key → Shard Key
  cut_back os r s t =
      let (rows, (position, inside)) = os.failed_row (t.index_position, t.index_inside) r t.index in
      let u =
        if os.resize_index
        then record t { index = take t.index_position t.index }
        else record t { index = rows; index_position = position; index_inside = inside } in
      if os.resize_content
      then record u {
        content = resize s.content_position u.content;
        content_position = s.content_position;
      }
      else record u { content_position = os.uncut u.content_position s.content_position }

  -- The row goes to the index file at the handle's position, and into the cache.
  unfoldable pub write_row : Os Key → Key → Shard Key → Shard Key → Shard Key × Bool
  unfolding cache_row put_row cut_back
  write_row os r s t =
      if os.write_index
      then cache_row os r
          (record t { index = put_row os r t; index_position = t.index_position + 1 })
      else (cut_back os r s t, false)

  -- A failed write of the content, which is cut back if it can be.
  unfoldable pub failed_write : Os Key → List ℕ → Shard Key → Shard Key
  failed_write os bytes s =
      let (content, position) = os.failed_content s.content_position bytes s.content in
      if os.resize_content
      then record s { content = resize s.content_position s.content }
      else record s { content = content; content_position = position }

  -- The write of an entry into an advanced shard: the content file, the row, the cache.
  unfoldable pub append : Settings → Os Key → Entry → Root → Shard Key → Shard Key × Bool
  unfolding write_row failed_write
  append st os e top s =
      let position = s.content_position in
      let bytes = apply_mask st.mask position e.body in
      if not os.write_content
      then (failed_write os bytes s, false)
      else let t = record s {
        content = write position bytes s.content;
        content_position = position + length bytes;
      } in
        elim (classify e top) [
          | none ↦ (t, false)
          | some r ↦ write_row os (place r position (size_of e - entry_size)) s t
        ]

  -- `unsynchronized_insert`.
  unfoldable pub unsynchronized_insert :
      Settings → Os Key → Entry → Root → Shard Key → Shard Key × Bool
  unfolding append
  unsynchronized_insert st os e top s =
      if leb (entry_size + min_proof_size) (size_of e)
        && leb (size_of e) (entry_size + max_content_size)
      then (let (t, ready) = unsynchronized_advance ops st os s in
          if ready then append st os e top t else (t, false))
      else (s, false)

  -- Does what the shard has stored equal the entry that comes in again?
  unfoldable pub same_entry : Entry → Key × Got → Bool
  unfolding same_bytes
  same_entry e (r, g) = (size_of e == entry_length ops r) && elim (g.ids) [
    | none ↦ false
    | some (i, p) ↦ eid_eq i e.id && (eid_eq p e.parent && same_bytes g.bytes e.body)
  ]

  -- `insert`: the result, and the flag `exists` that the caller sees.
  unfoldable pub insert : Settings → Os Key → Entry → Root → Shard Key → Shard Key × Bool × Bool
  unfolding same_entry
  insert st os e top s =
      let what = if st.reinsertion_validation then Read.everything else Read.nothing in
      let (t, found) = unsynchronized_get ops st os s (of_eid e.id) what 0 in
      elim found [
        | none ↦ let (u, done) = unsynchronized_insert st os e top t in (u, done, false)
        | some pair ↦ (t, not st.reinsertion_validation || same_entry e pair, true)
      ]

  -- The scan of the index file for the row to wipe: the first whose leading bytes are the id.
  unfoldable pub wipe : Eid → List Key → Option (List Key)
  wipe e [] = none
  wipe e (r ∷ rs) =
      let rest = Option.map (◌∷◌ r) (wipe e rs) in
      if not (eid_isnull (header r)) && eid_eq (header r) e then some (zeros ∷ rs) else rest

  -- The end of `erase`: the index file as it was if no row fits; `none` if wiping fails.
  unfoldable pub wipe_index : Os Key → Eid → List Key → Option (List Key)
  unfolding wipe
  wipe_index os e rows = elim (if os.read_index then wipe e rows else none) [
    | none ↦ some rows
    | some rows' ↦ if os.zero_index then some rows' else none
  ]

  -- The row whose id is the last that the scan reads: the first that fits, or the last of the file.
  unfoldable pub scanned : Eid → List Key → ℕ
  scanned e [] = 0
  scanned e (r ∷ rs) =
      let rest = scanned e rs in
      if (not (eid_isnull (header r)) && eid_eq (header r) e) || length rs == 0 then 0 else rest + 1

  -- Where the scan leaves the handle of the index file, if it reads anything.
  unfoldable pub scan : Os Key → Eid → Shard Key → Shard Key
  unfolding scanned
  scan os e s =
      let (position, inside) =
        os.index_pointer (s.index_position, s.index_inside) (scanned e s.index) in
      if os.read_index && not (length s.index == 0)
      then record s { index_position = position; index_inside = inside }
      else s

  unfoldable pub erase_row : Os Key → RowId → Bool → Key → Shard Key → Shard Key × Bool
  unfolding wipe_index scan
  erase_row os k thorough r s =
      let t = scan os (to_eid k) (record s {
        content =
            if thorough && os.zero_content
            then zero_range (data_offset r) (data_length r + signature_size) s.content
            else s.content;
      }) in
      elim (wipe_index os (to_eid k) t.index) [
        | none ↦ (t, false)
        | some rows ↦ (record t { index = rows; cache = remove ops k t.cache }, true)
      ]

  -- `erase`.
  unfoldable pub erase : Settings → Os Key → RowId → Bool → Shard Key → Shard Key × Bool
  unfolding erase_row
  erase st os k thorough s =
      let (t, ready) = unsynchronized_advance ops st os s in
      if not ready
      then (t, false)
      else elim (find ops k t.cache) [ none ↦ (t, false) | some r ↦ erase_row os k thorough r t ]
