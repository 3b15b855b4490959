-- ===== src/Db/Shard/Insertion.antt =====
-- core/raddi_database_shard.tcc, `unsynchronized_insert`: its outcomes and the invariant.
use raddi.Base.{
  ℕ, ◌+◌, true, false, List, [], ◌∷◌, ◌++◌, none, some, if◌then◌else◌, ◌≡◌, refl, ap, ◌∙◌, sym,
  arith, Bool-cases, inl, inr, length, length-append, take_all, drop_past,
}
use raddi.Db.Row.{RowOps, Entry}
use raddi.Db.Row.Laws.{IsRow}
use raddi.Db.Cache.{find, insert_to_cache}
use raddi.Db.Cache.Laws.{look_up, find_lem, place_row, insert_to_cache_lem}
use raddi.Db.Cache.Map.{look_up-place_row}
use raddi.Db.Cache.Reload.{loaded, loaded-append}
use raddi.Db.Shard.{Shard, Settings, Os}
use raddi.Db.Shard.Files.{write, resize, apply_mask}
use raddi.Db.Shard.Content.{write_end, resize-write_at, resize_end}
use raddi.Db.Shard.Ops.{unsynchronized_close}
use raddi.Db.Shard.Updates.{cache_row, put_row, cut_back, write_row}
use raddi.Db.Shard.Sound.{
  IsSound, IsSound-same, closed-IsSound, opened-IsSound, find-loaded, loaded-Sorted,
}

module _ {Key RowId : Type 0} (ops : RowOps Key RowId) (laws : IsRow ops) where
  open ops use {id, eq, erased, of_eid, classify, place}

  -- A row that is not stored yet, for an id that is not null.
  pub record IsNew (k : RowId) (s : Shard Key) : Type 0 where
    pub opened : s.opened ≡ true
    pub absent : find ops k s.cache ≡ none
    pub valid : erased k ≡ false

  -- The shard after a row went to the end of its index file and into its cache.
  abbrev pub with_row : Os Key → Key → Shard Key → Shard Key
  with_row os r s = record s {
    index = s.index ++ (r ∷ []);
    index_position = s.index_position + 1;
    cache = insert_to_cache ops r s.cache;
    accessed = os.now;
  }

  module _ (s : Shard Key) (v : IsSound ops laws s) (r : Key) (n : IsNew (id r) s) where
    pub fresh_row : look_up ops (id r) (loaded ops laws s.index) ≡ none
    fresh_row = sym (find-loaded ops laws s (id r) n.opened v) ∙ n.absent

    pub index_append : (os : Os Key) → put_row ops os r s ≡ s.index ++ (r ∷ [])
    unfolding put_row
    index_append os = rw (
      v.aligned n.opened,
      v.index_end n.opened,
      take_all s.index,
      drop_past (length s.index + 1) s.index (omega arith),
    )

    pub with_row-cache : insert_to_cache ops r s.cache ≡ place_row ops r (loaded ops laws s.index)
    with_row-cache = rw (v.cached n.opened) (
        insert_to_cache_lem ops laws.order r (loaded ops laws s.index) (loaded-Sorted ops laws s v))

    pub with_row-IsSound : (os : Os Key) → IsSound ops laws (with_row os r s)
    with_row-IsSound os =
        let (grown, distinct) = loaded-append ops laws r s.index n.valid fresh_row v.distinct in
        opened-IsSound ops laws _ n.opened distinct (with_row-cache ∙ sym grown)
          (omega (arith, v.index_end n.opened, length-append s.index (r ∷ []))) (v.aligned n.opened)
          (v.content_end n.opened)

    pub with_row-find :
        (os : Os Key) (j : RowId)
        → find ops j (with_row os r s).cache ≡ (if eq (id r) j then some r else find ops j s.cache)
    with_row-find os j =
        rw
          (
            find_lem ops j (insert_to_cache ops r s.cache),
            with_row-cache,
            find-loaded ops laws s j n.opened v,
          )
          (look_up-place_row ops laws.order j r (loaded ops laws s.index))

  -- The bytes that stand for an entry's body in the content file.
  abbrev pub stored : Settings → Entry → Shard Key → List ℕ
  stored st e s = apply_mask st.mask s.content_position e.body

  -- The shard after the masked body of an entry went to the end of its content file.
  abbrev pub with_content : Settings → Entry → Shard Key → Shard Key
  with_content st e s = record s {
    content = write s.content_position (stored st e s) s.content;
    content_position = s.content_position + length (stored st e s);
  }

  module _ (st : Settings) (e : Entry) (s : Shard Key) (v : IsSound ops laws s)
      (opened : s.opened ≡ true) where
    pub grown : write s.content_position (stored st e s) s.content ≡ s.content ++ (stored st e s)
    grown = rw (v.content_end opened) (write_end _ s.content)

    pub with_content-IsSound : IsSound ops laws (with_content st e s)
    with_content-IsSound =
        opened-IsSound ops laws _ opened v.distinct (v.cached opened) (v.index_end opened)
          (v.aligned opened)
          (omega
            (arith, ap length grown, length-append s.content (stored st e s), v.content_end opened))

    pub resize_back :
        resize s.content_position (write s.content_position (stored st e s) s.content) ≡ s.content
    resize_back = resize-write_at _ (stored st e s) s.content (v.content_end opened)

    pub resize_same : resize s.content_position s.content ≡ s.content
    resize_same = rw (v.content_end opened) (resize_end s.content)

  -- Whatever the other calls answer, where files can be cut back a write of a new row leaves the shard sound.
  pub write_row-IsSound :
      (st : Settings) (os : Os Key) (e : Entry) (r : Key) (s : Shard Key)
      → os.resize_index ≡ true
      → os.resize_content ≡ true
      → IsSound ops laws s
      → IsNew (id r) s
      → IsSound ops laws (write_row ops os r s (with_content st e s)).0
  unfolding write_row cut_back cache_row unsynchronized_close
  write_row-IsSound st os e r s ri rc v n =
      let t = with_content st e s in
      let tv = with_content-IsSound st e s v n.opened in
      let new : IsNew (id r) t = record { opened = n.opened; absent = n.absent; valid = n.valid } in
      let more = with_row-IsSound t tv r new os in
      elim (Bool-cases os.write_index) [
        | inl w ↦ elim (Bool-cases os.insert_memory) [
          | inl m ↦ rw (w, m, index_append t tv r new os) more
          | inr m ↦
              rw (w, m, index_append t tv r new os)
                (closed-IsSound ops laws _ refl refl more.distinct)
        ]
        | inr w ↦
            rw (w, ri, rc)
              (IsSound-same ops laws s _ (rw (v.index_end n.opened) (take_all s.index))
                (resize_back st e s v n.opened) refl refl refl refl refl v)
      ]
