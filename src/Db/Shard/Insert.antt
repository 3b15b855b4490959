-- ===== src/Db/Shard/Insert.antt =====
-- core/raddi_database_shard.tcc, `unsynchronized_insert` and `insert`: what an insertion achieves.
use raddi.Base.{
  ◌+◌, ◌-◌, Bool, true, false, ◌&&◌, some, ◌≡◌, refl, ◌∙◌, arith, Bool-cases, Option-cases, inl,
  inr, leb,
}
use raddi.Db.Row.{RowOps, Entry, Root, entry_size, size_of}
use raddi.Db.Row.Laws.{IsRow}
use raddi.Db.Shard.{Shard, Settings, Os}
use raddi.Db.Shard.Ops.{unsynchronized_advance, min_proof_size, max_content_size}
use raddi.Db.Shard.Updates.{cache_row, write_row, failed_write, append, unsynchronized_insert}
use raddi.Db.Shard.Sound.{IsSound, IsSound-same}
use raddi.Db.Shard.Insertion.{
  IsNew, with_row, with_content, with_content-IsSound, resize_same, write_row-IsSound, index_append,
}

module _ {Key RowId : Type 0} (ops : RowOps Key RowId) (laws : IsRow ops) where
  open ops use {id, eq, erased, of_eid, classify, place}

  -- The row that an insertion at the end of the content file makes.
  abbrev pub placed : Entry → Shard Key → Key → Key
  placed e s r = place r s.content_position (size_of e - entry_size)

  pub placed_id :
      (e : Entry) (top : Root) (s : Shard Key) (r : Key)
      → classify e top ≡ some r
      → id (placed e s r) ≡ of_eid e.id
  placed_id e top s r c =
      laws.place_id r s.content_position (size_of e - entry_size) ∙ laws.classify_id e top r c

  append-IsSound :
      (st : Settings) (os : Os Key) (e : Entry) (top : Root) (s : Shard Key)
      → os.resize_index ≡ true
      → os.resize_content ≡ true
      → IsSound ops laws s
      → IsNew ops laws (of_eid e.id) s
      → IsSound ops laws (append ops st os e top s).0
  unfolding append failed_write
  append-IsSound st os e top s ri rc v n = elim (Bool-cases os.write_content) [
    | inr w ↦
        rw (w, rc)
          (IsSound-same ops laws s _ refl (resize_same ops laws st e s v n.opened) refl refl refl
            refl refl v)
    | inl w ↦ elim (Option-cases (classify e top)) [
      | inl c ↦ rw (w, c) (with_content-IsSound ops laws st e s v n.opened)
      | inr (r, c) ↦
          let new : IsNew ops laws (id (placed e s r)) s = rw (placed_id e top s r c) n in
          rw (w, c) (write_row-IsSound ops laws st os e (placed e s r) s ri rc v new)
    ]
  ]

  unfoldable pub fits : Entry → Bool
  fits e =
      leb (entry_size + min_proof_size) (size_of e)
      && leb (size_of e) (entry_size + max_content_size)

  -- Where files can be cut back, every insertion of an entry, whose id is not null, that a sound open shard
  -- of the writer does not hold keeps the shard sound, whichever of its writes fail, and whatever it
  -- answers.
  pub unsynchronized_insert-IsSound :
      (st : Settings) (os : Os Key) (e : Entry) (top : Root) (s : Shard Key)
      → st.writer ≡ true
      → os.resize_index ≡ true
      → os.resize_content ≡ true
      → IsSound ops laws s
      → IsNew ops laws (of_eid e.id) s
      → IsSound ops laws (unsynchronized_insert ops st os e top s).0
  unfolding unsynchronized_insert unsynchronized_advance fits
  unsynchronized_insert-IsSound st os e top s w ri rc v n = elim (Bool-cases (fits e)) [
    | inl f ↦
        let step : unsynchronized_insert ops st os e top s ≡ append ops st os e top s =
          ground (arith, n.opened) in
        rw step (append-IsSound st os e top s ri rc v n)
    | inr f ↦
        let step : unsynchronized_insert ops st os e top s ≡ (s, false) = ground arith in rw step v
  ]

  -- The calls that an insertion needs all succeed.
  pub record Succeeds (os : Os Key) : Type 0 where
    pub write_content : os.write_content ≡ true
    pub write_index : os.write_index ≡ true
    pub insert_memory : os.insert_memory ≡ true

  -- The shard that a successful insertion leaves.
  abbrev pub inserted : Settings → Os Key → Entry → Key → Shard Key → Shard Key
  inserted st os e r s = with_row ops laws os (placed e s r) (with_content ops laws st e s)

  pub append-inserted :
      (st : Settings) (os : Os Key) (e : Entry) (top : Root) (s : Shard Key) (r : Key)
      → IsSound ops laws s
      → IsNew ops laws (of_eid e.id) s
      → Succeeds os
      → classify e top ≡ some r
      → append ops st os e top s ≡ (inserted st os e r s, true)
  unfolding append write_row cache_row
  append-inserted st os e top s r v n ok c =
      let t = with_content ops laws st e s in
      let tv = with_content-IsSound ops laws st e s v n.opened in
      let new : IsNew ops laws (id (placed e s r)) t =
        rw (placed_id e top s r c)
          (record { opened = n.opened; absent = n.absent; valid = n.valid }) in
      rw (
        ok.write_content,
        c,
        ok.write_index,
        ok.insert_memory,
        index_append ops laws t tv (placed e s r) new os,
      )
