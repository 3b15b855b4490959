-- ===== src/Db/Shard/Sound.antt =====
-- The invariant of a shard that the writer holds: while the files are open the handles stand at
-- their ends and the cache is what a load would read; while they are closed it is empty.
use raddi.Base.{
  true, false, ◌&&◌, List, [], ◌∷◌, ◌≡◌, refl, ◌∙◌, sym, arith, Bool-cases, inl, inr, length, ◌==◌,
}
use raddi.Db.Row.{RowOps}
use raddi.Db.Row.Laws.{IsRow}
use raddi.Db.Cache.{live, find}
use raddi.Db.Cache.Laws.{Sorted, look_up, find_lem, sorted_of}
use raddi.Db.Cache.Reload.{loaded, loaded_lem, Distinct, Sorted-sorted_of}
use raddi.Db.Shard.{Shard, Settings, Os}
use raddi.Db.Shard.Ops.{unsynchronized_close, load, refresh, unsynchronized_advance}

module _ {Key RowId : Type 0} (ops : RowOps Key RowId) (laws : IsRow ops) where
  pub record IsSound (s : Shard Key) : Type 0 where
    pub distinct : Distinct ops laws (live ops s.index)
    pub closed : s.opened ≡ false → s.cache ≡ []
    pub cached : s.opened ≡ true → s.cache ≡ loaded ops laws s.index
    pub index_end : s.opened ≡ true → s.index_position ≡ length s.index
    pub aligned : s.opened ≡ true → s.index_inside ≡ false
    pub content_end : s.opened ≡ true → s.content_position ≡ length s.content

  -- Only the fields that the invariant names matter.
  pub IsSound-same :
      (s t : Shard Key)
      → t.index ≡ s.index
      → t.content ≡ s.content
      → t.opened ≡ s.opened
      → t.cache ≡ s.cache
      → t.index_position ≡ s.index_position
      → t.index_inside ≡ s.index_inside
      → t.content_position ≡ s.content_position
      → IsSound s
      → IsSound t
  IsSound-same s t i c o k ip ins cp v = record {
    distinct = rw i v.distinct;
    closed = λ h. ground (arith, v.closed);
    cached = λ h. rw (k, i) (v.cached (sym o ∙ h));
    index_end = λ h. rw (ip, i) (v.index_end (sym o ∙ h));
    aligned = λ h. ins ∙ v.aligned (sym o ∙ h);
    content_end = λ h. rw (cp, c) (v.content_end (sym o ∙ h));
  }

  -- A closed shard.
  pub closed-IsSound :
      (s : Shard Key)
      → s.opened ≡ false
      → s.cache ≡ []
      → Distinct ops laws (live ops s.index)
      → IsSound s
  closed-IsSound s o c d = record {
    distinct = d;
    closed = λ h. c;
    cached = λ h. cc;
    index_end = λ h. cc;
    aligned = λ h. cc;
    content_end = λ h. cc;
  }

  pub opened-IsSound :
      (s : Shard Key)
      → s.opened ≡ true
      → Distinct ops laws (live ops s.index)
      → s.cache ≡ loaded ops laws s.index
      → s.index_position ≡ length s.index
      → s.index_inside ≡ false
      → s.content_position ≡ length s.content
      → IsSound s
  opened-IsSound s o d c i n e = record {
    distinct = d;
    closed = λ h. cc;
    cached = λ h. c;
    index_end = λ h. i;
    aligned = λ h. n;
    content_end = λ h. e;
  }

  pub unsynchronized_close-IsSound :
      (s : Shard Key) → IsSound s → IsSound (unsynchronized_close ops s)
  unfolding unsynchronized_close
  unsynchronized_close-IsSound s v = closed-IsSound _ refl refl v.distinct

  empty_loaded : (rows : List Key) → length rows ≡ 0 → loaded ops laws rows ≡ []
  unfolding live sorted_of
  empty_loaded [] h = refl
  empty_loaded (r ∷ rs) h = absurd (omega arith)

  -- With room in memory and a readable index file, opening a closed shard loads its live rows.
  fresh-IsSound :
      (os : Os Key) (s : Shard Key)
      → os.read_index ≡ true
      → os.load_memory ≡ true
      → Distinct ops laws (live ops s.index)
      → s.cache ≡ []
      → s.opened ≡ true
      → s.index_position ≡ 0
      → s.index_inside ≡ false
      → s.content_position ≡ length s.content
      → IsSound (refresh ops os true s).0
        × ((refresh ops os true s).1 ≡ true)
        × (((refresh ops os true s).0).opened ≡ true)
  unfolding refresh load
  fresh-IsSound os s r m d c p i n e = elim (Bool-cases (length s.index == 0)) [
    | inl z ↦
        rw (c, z)
          (
            opened-IsSound _ p d (sym (empty_loaded s.index (ground arith))) (ground arith) n e,
            refl,
            p,
          )
    | inr z ↦ rw (c, z, m, r) (opened-IsSound _ p d (loaded_lem ops laws s.index) refl n e, refl, p)
  ]

  -- For the writer, where the index can be read and there is memory, `unsynchronized_advance` keeps the
  -- shard sound, and its answer is whether the shard is open then.
  pub advance-IsSound :
      (st : Settings) (os : Os Key) (s : Shard Key)
      → st.writer ≡ true
      → os.read_index ≡ true
      → os.load_memory ≡ true
      → IsSound s
      → IsSound (unsynchronized_advance ops st os s).0
        × ((unsynchronized_advance ops st os s).1 ≡ ((unsynchronized_advance ops st os s).0).opened)
  unfolding unsynchronized_advance
  advance-IsSound st os s w r m v = elim (Bool-cases s.opened) [
    | inl h ↦
        let e : unsynchronized_advance ops st os s ≡ (s, true) = ground arith in rw e (v, sym h)
    | inr h ↦ elim (Bool-cases (os.open_index && os.open_content)) [
      | inl a ↦
          let t = record s {
            opened = true;
            index_position = 0;
            index_inside = false;
            content_position = length s.content;
          } in
          let e : unsynchronized_advance ops st os s ≡ refresh ops os true t = ground arith in
          let (sound, ready, opened) =
            fresh-IsSound os t r m v.distinct (v.closed h) refl refl refl refl in
          rw e (sound, ready ∙ sym opened)
      | inr a ↦
          let e : unsynchronized_advance ops st os s ≡ (s, false) = ground arith in rw e (v, sym h)
    ]
  ]

  index-refresh : (os : Os Key) (s : Shard Key) → ((refresh ops os true s).0).index ≡ s.index
  unfolding refresh load
  index-refresh os s = ground arith

  -- If both files can be opened, a closed shard is open afterwards, over the same index file.
  pub advance_opens :
      (st : Settings) (os : Os Key) (s : Shard Key)
      → os.read_index ≡ true
      → os.load_memory ≡ true
      → os.open_index ≡ true
      → os.open_content ≡ true
      → s.opened ≡ false
      → IsSound s
      → (((unsynchronized_advance ops st os s).0).opened ≡ true)
        × (((unsynchronized_advance ops st os s).0).index ≡ s.index)
  unfolding unsynchronized_advance
  advance_opens st os s r m i c h v =
      let t = record s {
        opened = true;
        index_position = 0;
        index_inside = false;
        content_position = length s.content;
      } in
      let e : unsynchronized_advance ops st os s ≡ refresh ops os true t = ground arith in
      let (sound, ready, opened) =
        fresh-IsSound os t r m v.distinct (v.closed h) refl refl refl refl in
      rw e (opened, index-refresh os t)

  -- What a sound shard finds is what its index file holds.
  pub find-loaded :
      (s : Shard Key) (k : RowId)
      → s.opened ≡ true
      → IsSound s
      → find ops k s.cache ≡ look_up ops k (loaded ops laws s.index)
  find-loaded s k h v = rw (v.cached h) (find_lem ops k (loaded ops laws s.index))

  pub loaded-Sorted : (s : Shard Key) → IsSound s → Sorted ops (loaded ops laws s.index)
  loaded-Sorted s v = Sorted-sorted_of ops laws (live ops s.index) v.distinct
