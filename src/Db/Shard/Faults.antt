-- ===== src/Db/Shard/Faults.antt =====
-- core/raddi_database_shard.tcc: behaviour of a shard that does not fit its description.
use raddi.Base.{
  ◌+◌, Bool, true, false, List, [], ◌∷◌, ◌++◌, none, some, ◌≡◌, ◌≢◌, ◌<◌, refl, ap, ◌∙◌, arith,
  length, All, take_all, drop_past,
}
use raddi.Id.{Iid, eid_eq}
use raddi.Db.Row.{RowOps, Entry, Root, Irow, irow}
use raddi.Db.Row.Laws.{IsRow}
use raddi.Db.Cache.{find, remove, lower_bound}
use raddi.Db.Shard.{Shard, Settings, Os}
use raddi.Db.Shard.Ops.{refresh, unsynchronized_advance, unsynchronized_get}
use raddi.Db.Shard.Updates.{
  wipe, wipe_index, scan, put_row, erase_row, erase, insert, unsynchronized_insert, append,
  write_row, cache_row,
}
use raddi.Db.Shard.Sound.{IsSound, advance-IsSound, advance_opens}
use raddi.Db.Shard.Insert.{Succeeds, placed, fits}

-- The creation time and the nonce of an identity differ.
abbrev pub IsPlain : Irow → Type 0
IsPlain r = (r.id).timestamp ≢ (r.id).nonce

wipe_misses :
    (k : Iid) (rows : List Irow) → All IsPlain rows → wipe irow (irow.to_eid k) rows ≡ none
unfolding wipe eid_eq
wipe_misses k [] p = refl
wipe_misses k (r ∷ rs) p = ground (arith, wipe_misses k rs p.1, p.0)

-- In the table of identities, the writer's `erase` of an identity that an open shard finds, thorough or not,
-- drops the row from the cache and answers `true`, but leaves the rows of the index file as they were,
-- where no row has a time equal to its nonce.
pub erase_identity_returns :
    (st : Settings) (os : Os Irow) (k : Iid) (thorough : Bool) (s : Shard Irow) (r : Irow)
    → st.writer ≡ true
    → s.opened ≡ true
    → All IsPlain s.index
    → find irow k s.cache ≡ some r
    → ((erase irow st os k thorough s).1 ≡ true)
      × (((erase irow st os k thorough s).0).cache ≡ remove irow k s.cache)
      × (((erase irow st os k thorough s).0).index ≡ s.index)
unfolding erase erase_row wipe_index scan unsynchronized_advance
erase_identity_returns st os k thorough s r w o p f = ground (arith, wipe_misses k s.index p)

module _ {Key RowId : Type 0} (ops : RowOps Key RowId) (laws : IsRow ops) where
  open ops use {id, of_eid, classify}

  -- When there is no memory to load a shard, `unsynchronized_advance` fails but leaves the files
  -- open, so that the writer's next call answers `true` over an empty cache.
  pub advance_out_of_memory :
      (st : Settings) (os later : Os Key) (s : Shard Key)
      → st.writer ≡ true
      → s.opened ≡ false
      → s.cache ≡ []
      → 0 < length s.index
      → os.open_index ≡ true
      → os.open_content ≡ true
      → os.load_memory ≡ false
      → let t = (unsynchronized_advance ops st os s).0 in
        ((unsynchronized_advance ops st os s).1 ≡ false)
        × ((unsynchronized_advance ops st later t).1 ≡ true)
        × (((unsynchronized_advance ops st later t).0).cache ≡ [])
  unfolding unsynchronized_advance refresh
  advance_out_of_memory st os later s w o c n i d m = ground arith

  abbrev pub opened_shard : Settings → Os Key → Shard Key → Shard Key
  opened_shard st os s = (unsynchronized_advance ops st os s).0

  -- The search that `insert` begins with finds nothing in a closed shard.
  closed_insert :
      (st : Settings) (os : Os Key) (e : Entry) (top : Root) (s : Shard Key)
      → s.cache ≡ []
      → insert ops st os e top s ≡ (
        (unsynchronized_insert ops st os e top s).0,
        (unsynchronized_insert ops st os e top s).1,
        false,
      )
  unfolding insert unsynchronized_get find lower_bound
  closed_insert st os e top s c = ground arith

  append-index :
      (st : Settings) (os : Os Key) (e : Entry) (top : Root) (s : Shard Key) (r : Key)
      → IsSound ops laws s
      → s.opened ≡ true
      → Succeeds ops laws os
      → classify e top ≡ some r
      → ((append ops st os e top s).1 ≡ true)
        × (((append ops st os e top s).0).index ≡ s.index ++ (placed ops laws e s r ∷ []))
  unfolding append write_row put_row cache_row
  append-index st os e top s r v o ok c =
      let past = drop_past (length s.index + 1) s.index (omega arith) in
      let whole = take_all s.index in
      rw
        (
          ok.write_content,
          c,
          ok.write_index,
          ok.insert_memory,
          v.aligned o,
          v.index_end o,
          whole,
          past,
        )
        (refl, refl)

  -- `insert` of an entry of an accepted size that the table classifies into a sound closed shard of the
  -- writer, where all calls of the system succeed, answers success and that the entry was not there,
  -- whatever the index file holds, and the index file gets one more row for it.
  pub closed_insert_duplicates :
      (st : Settings) (os : Os Key) (e : Entry) (top : Root) (s : Shard Key) (r : Key)
      → st.writer ≡ true
      → os.read_index ≡ true
      → os.load_memory ≡ true
      → os.open_index ≡ true
      → os.open_content ≡ true
      → Succeeds ops laws os
      → s.opened ≡ false
      → IsSound ops laws s
      → fits ops laws e ≡ true
      → classify e top ≡ some r
      → ((insert ops st os e top s).1 ≡ true)
        × ((insert ops st os e top s).2 ≡ false)
        × (((insert ops st os e top s).0).index
            ≡ s.index ++ (placed ops laws e (opened_shard st os s) r ∷ []))
  unfolding unsynchronized_insert fits
  closed_insert_duplicates st os e top s r w rd m i c ok h v f cl =
      let (sound, ready) = advance-IsSound ops laws st os s w rd m v in
      let (opened, same) = advance_opens ops laws st os s rd m i c h v in
      let t = opened_shard st os s in
      let (done, index) = append-index st os e top t r sound opened ok cl in
      let step : unsynchronized_insert ops st os e top s ≡ append ops st os e top t =
        ground (arith, ready ∙ opened) in
      rw (closed_insert st os e top s (v.closed h), step)
        (done, refl, index ∙ ap (λ rows. rows ++ (placed ops laws e t r ∷ [])) same)
