-- ===== src/Db/Shard/ReadBack.antt =====
-- core/raddi_database_shard.tcc: what `get` returns after an insertion.
use raddi.Base.{
  ℕ, ◌+◌, ◌-◌, ◌≤◌, ◌<◌, true, false, List, Option, some, if◌then◌else◌, ◌≡◌, refl, ap, arith,
  length, ltb,
}
use raddi.Db.Row.{RowOps, Entry, Root, entry_size, size_of}
use raddi.Db.Row.Laws.{IsRow}
use raddi.Db.Cache.{find}
use raddi.Db.Shard.{Shard, Settings, Os, Read, Got}
use raddi.Db.Shard.Files.{read, apply_mask}
use raddi.Db.Shard.Content.{read_end, length-apply_mask, apply_mask_twice}
use raddi.Db.Shard.Ops.{
  unsynchronized_advance, unsynchronized_get, unsynchronized_read, read_content,
}
use raddi.Db.Shard.Updates.{insert, unsynchronized_insert}
use raddi.Db.Shard.Sound.{IsSound}
use raddi.Db.Shard.Insertion.{
  IsNew, with_content, with_row-find, with_row-IsSound, with_content-IsSound, grown, stored,
}
use raddi.Db.Shard.Insert.{placed, placed_id, inserted, append-inserted, Succeeds, fits}

module _ {Key RowId : Type 0} (ops : RowOps Key RowId) (laws : IsRow ops) where
  open ops use {id, eq, of_eid, classify, place, data_offset, data_length, entry_ids}

  -- The read of a whole entry, in terms of the content file.
  read_everything :
      (st : Settings) (os : Os Key) (s : Shard Key) (r : Key) (bytes : List ℕ)
      → os.read_content ≡ true
      → read (data_offset r) (64 + data_length r) s.content ≡ some bytes
      → (unsynchronized_read ops st os s r Read.everything 0).1
        ≡ some (record {
          ids = some (entry_ids r);
          at = 0;
          bytes = apply_mask st.mask (data_offset r) bytes;
        })
  unfolding unsynchronized_read
  read_everything st os s r bytes ok e =
      let none_below : ltb (data_length r) 0 ≡ false = ground arith in
      let start : data_offset r + 0 ≡ data_offset r = omega arith in
      let got = λ (position : ℕ).
        some (record {
          ids = some (entry_ids r);
          at = 0;
          bytes = apply_mask st.mask position bytes;
        }) in
      rw (none_below, start, ok, e, read_content) (ap {B = Option Got} got start)

  -- A lookup of a whole entry, by the row that is found.
  get_everything :
      (st : Settings) (os : Os Key) (s : Shard Key) (k : RowId) (r : Key) (bytes : List ℕ)
      → os.read_content ≡ true
      → find ops k s.cache ≡ some r
      → read (data_offset r) (64 + data_length r) s.content ≡ some bytes
      → (unsynchronized_get ops st os s k Read.everything 0).1
        ≡ some (
          r,
          record {
            ids = some (entry_ids r);
            at = 0;
            bytes = apply_mask st.mask (data_offset r) bytes;
          },
        )
  unfolding unsynchronized_get
  get_everything st os s k r bytes ok f e =
      rw
        (f, read_everything st os (record s { accessed = os.now }) r bytes ok e, unsynchronized_get)

  -- Where an entry that was just inserted lies: at the end of the content file as it was.
  record Lies (st : Settings) (e : Entry) (s : Shard Key) (r : Key) : Type 0 where
    offset : data_offset (placed ops laws e s r) ≡ s.content_position
    length_lem : data_length (placed ops laws e s r) ≡ size_of e - entry_size

  inserted-read :
      (st : Settings) (os : Os Key) (e : Entry) (s : Shard Key) (r : Key)
      → IsSound ops laws s
      → s.opened ≡ true
      → Lies st e s r
      → 64 ≤ length e.body
      → read
          (data_offset (placed ops laws e s r))
          (64 + data_length (placed ops laws e s r))
          (inserted ops laws st os e r s).content
        ≡ some (stored ops laws st e s)
  inserted-read st os e s r v opened l h =
      let size : 64 + data_length (placed ops laws e s r) ≡ length (stored ops laws st e s) =
        omega (arith, l.length_lem, length-apply_mask st.mask s.content_position e.body) in
      rw (l.offset, size, grown ops laws st e s v opened, v.content_end opened)
        (read_end s.content _)

  -- What an insertion is given: an open, sound shard that does not hold the entry's id, an entry of
  -- an accepted size that the table takes as the row `r` with both of the entry's ids (in the tables
  -- of channels and identities, an announcement), and room in the row's bit-field for the position.
  pub record Inserts (st : Settings) (e : Entry) (top : Root) (s : Shard Key) (r : Key)
      : Type 0 where
    pub writer : st.writer ≡ true
    pub sound : IsSound ops laws s
    pub new : IsNew ops laws (of_eid e.id) s
    pub size : fits ops laws e ≡ true
    pub row : classify e top ≡ some r
    pub room : s.content_position < laws.offset_limit
    pub whole : entry_ids r ≡ (e.id, e.parent)

  inserted-Lies :
      (st : Settings) (e : Entry) (top : Root) (s : Shard Key) (r : Key)
      → Inserts st e top s r
      → Lies st e s r
  unfolding fits
  inserted-Lies st e top s r i =
      let small : size_of e ≤ 65518 = ground (arith, i.size) in
      record {
        offset = laws.place_offset r s.content_position (size_of e - entry_size) i.room;
        length_lem =
            laws.place_length r s.content_position (size_of e - entry_size)
              (laws.classify_fits e top r i.row small);
      }

  pub insert_lem :
      (st : Settings) (os : Os Key) (e : Entry) (top : Root) (s : Shard Key) (r : Key)
      → Inserts st e top s r
      → Succeeds ops laws os
      → insert ops st os e top s ≡ (inserted ops laws st os e r s, true, false)
  unfolding insert unsynchronized_get unsynchronized_insert unsynchronized_advance fits
  insert_lem st os e top s r i ok =
      let absent = (i.new).absent in
      let done = append-inserted ops laws st os e top s r i.sound i.new ok i.row in
      ground (arith, i.size, absent, done, i.writer, (i.new).opened)

  -- The row that any id finds after an insertion: the new one under the entry's id, and what was
  -- found before under every other.
  pub inserted-find :
      (st : Settings) (os : Os Key) (e : Entry) (top : Root) (s : Shard Key) (r : Key) (j : RowId)
      → Inserts st e top s r
      → find ops j (inserted ops laws st os e r s).cache
        ≡ (if eq (of_eid e.id) j then some (placed ops laws e s r) else find ops j s.cache)
  inserted-find st os e top s r j i =
      let k = placed_id ops laws e top s r i.row in
      let t = with_content ops laws st e s in
      let new : IsNew ops laws (id (placed ops laws e s r)) t =
        rw k (record { opened = (i.new).opened; absent = (i.new).absent; valid = (i.new).valid }) in
      rw k at (
        with_row-find ops laws t (with_content-IsSound ops laws st e s i.sound (i.new).opened)
          (placed ops laws e s r) new os j)

  inserted-get :
      (st : Settings) (os later : Os Key) (e : Entry) (top : Root) (s : Shard Key) (r : Key)
      → Inserts st e top s r
      → later.read_content ≡ true
      → (unsynchronized_get ops st later
          (inserted ops laws st os e r s)
          (of_eid e.id)
          Read.everything
          0).1
        ≡ some
            (placed ops laws e s r, record { ids = some (e.id, e.parent); at = 0; bytes = e.body })
  unfolding fits
  inserted-get st os later e top s r i rd =
      let lies = inserted-Lies st e top s r i in
      let self : eq (of_eid e.id) (of_eid e.id) ≡ true =
        ((laws.order).eq_iff (of_eid e.id) (of_eid e.id)).1 refl in
      let found : find ops (of_eid e.id) (inserted ops laws st os e r s).cache
          ≡ some (placed ops laws e s r) =
        rw self at (inserted-find st os e top s r (of_eid e.id) i) in
      let long : 64 ≤ length e.body = ground (arith, i.size) in
      let got =
        get_everything st later (inserted ops laws st os e r s) (of_eid e.id)
          (placed ops laws e s r) (stored ops laws st e s) rd found
          (inserted-read st os e s r i.sound (i.new).opened lies long) in
      rw
        (
          laws.place_ids r s.content_position (size_of e - entry_size),
          i.whole,
          lies.offset,
          apply_mask_twice st.mask s.content_position e.body,
        )
        at got

  inserted-IsSound :
      (st : Settings) (os : Os Key) (e : Entry) (top : Root) (s : Shard Key) (r : Key)
      → Inserts st e top s r
      → IsSound ops laws (inserted ops laws st os e r s)
  inserted-IsSound st os e top s r i =
      let k = placed_id ops laws e top s r i.row in
      let t = with_content ops laws st e s in
      let new : IsNew ops laws (id (placed ops laws e s r)) t =
        rw k (record { opened = (i.new).opened; absent = (i.new).absent; valid = (i.new).valid }) in
      with_row-IsSound ops laws t (with_content-IsSound ops laws st e s i.sound (i.new).opened)
        (placed ops laws e s r) new os

  -- In a sound open shard of the writer that does not hold the entry, whose id is not null, whose size is
  -- accepted, whose position has room in the row's bit-field, and which the table takes as a row with both
  -- of its ids (of channels and identities, an announcement): an insertion whose writes succeed, with memory
  -- for the row, reports success and that the entry was not there, keeps the shard sound, and the next
  -- `get`, if its read succeeds, returns the entry, byte for byte, under its id.
  pub get-insert :
      (st : Settings) (os later : Os Key) (e : Entry) (top : Root) (s : Shard Key) (r : Key)
      → Inserts st e top s r
      → Succeeds ops laws os
      → later.read_content ≡ true
      → let (t, done, exists) = insert ops st os e top s in
        (done ≡ true)
        × (exists ≡ false)
        × IsSound ops laws t
        × ((unsynchronized_get ops st later t (of_eid e.id) Read.everything 0).1
            ≡ some (
              placed ops laws e s r,
              record { ids = some (e.id, e.parent); at = 0; bytes = e.body },
            ))
  get-insert st os later e top s r i ok rd =
      rw (insert_lem st os e top s r i ok)
        (refl, refl, inserted-IsSound st os e top s r i, inserted-get st os later e top s r i rd)
