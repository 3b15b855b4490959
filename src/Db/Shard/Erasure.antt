-- ===== src/Db/Shard/Erasure.antt =====
-- core/raddi_database_shard.tcc: `erase`, and what `reload` finds after it.
use raddi.Base.{
  ℕ, ◌+◌, Bool, true, false, ◌&&◌, List, [], ◌∷◌, Option, none, some, if◌then◌else◌, ◌≡◌, refl, ap,
  ◌∙◌, sym, arith, Bool-cases, Option-cases, inl, inr, length,
}
use raddi.Db.Row.{RowOps, signature_size}
use raddi.Db.Row.Laws.{IsRow, HasHeader}
use raddi.Db.Cache.{live, find, remove}
use raddi.Db.Cache.Laws.{look_up, find_lem, remove_lem, take_out}
use raddi.Db.Cache.Map.{look_up-take_out}
use raddi.Db.Cache.Reload.{Distinct, loaded}
use raddi.Db.Shard.{Shard, Settings, Os}
use raddi.Db.Shard.Ops.{unsynchronized_close, unsynchronized_advance, reload}
use raddi.Db.Shard.Updates.{scan, erase}
use raddi.Db.Shard.Wipe.{Wiped, wipe_lem}
use raddi.Db.Shard.Files.{zero_range}
use raddi.Db.Shard.Sound.{
  IsSound, advance-IsSound, advance_opens, unsynchronized_close-IsSound, find-loaded, loaded-Sorted,
}

length-zero_range : (o n : ℕ) (f : List ℕ) → length (zero_range o n f) ≡ length f
unfolding zero_range
length-zero_range o n [] = refl
length-zero_range ℕ.zero ℕ.zero (b ∷ bs) = refl
length-zero_range ℕ.zero (ℕ.suc n) (b ∷ bs) = ap ℕ.suc (length-zero_range ℕ.zero n bs)
length-zero_range (ℕ.suc o) n (b ∷ bs) = ap ℕ.suc (length-zero_range o n bs)

abbrev pub is_some {ℓ} : {A : Type ℓ} → Option A → Bool
is_some none = false
is_some (some a) = true

module _ {Key RowId : Type 0} (ops : RowOps Key RowId) (laws : IsRow ops) where
  open ops use {id, lt, eq, erased, of_eid, to_eid, data_offset, data_length, zeros}

  -- The cache is what a load of the index file would read.
  pub record IsLoaded (s : Shard Key) : Type 0 where
    pub distinct : Distinct ops laws (live ops s.index)
    pub cached : s.cache ≡ loaded ops laws s.index

  module _ (heads : HasHeader ops) (st : Settings) (os : Os Key) (k : RowId) (thorough : Bool)
      (s : Shard Key) (writer : st.writer ≡ true) (readable : os.read_index ≡ true)
      (v : IsSound ops laws s) (opened : s.opened ≡ true) where
    advanced : unsynchronized_advance ops st os s ≡ (s, true)
    unfolding unsynchronized_advance
    advanced = ground arith

    -- The content file after the part of `erase` that wipes content.
    abbrev wiped_content : Key → List ℕ
    wiped_content r =
        if thorough && os.zero_content
        then zero_range (data_offset r) (data_length r + signature_size) s.content
        else s.content

    length-wiped_content : (r : Key) → length (wiped_content r) ≡ length s.content
    length-wiped_content r = elim (Bool-cases (thorough && os.zero_content)) [
      | inl e ↦ rw e (length-zero_range (data_offset r) (data_length r + signature_size) s.content)
      | inr e ↦ rw e
    ]

    abbrev kept_shard : Key → Shard Key
    kept_shard r = scan ops os (to_eid k) (record s { content = wiped_content r })

    abbrev erased_shard : Key → List Key → Shard Key
    erased_shard r rows = record (kept_shard r) { index = rows; cache = remove ops k s.cache }

    kept_same :
        (r : Key)
        → ((kept_shard r).index ≡ s.index)
          × ((kept_shard r).cache ≡ s.cache)
          × ((kept_shard r).content ≡ wiped_content r)
    unfolding scan
    kept_same r = ground arith

    kept-IsLoaded : (r : Key) → IsLoaded (kept_shard r)
    kept-IsLoaded r =
        let (rows, cache, _) = kept_same r in
        record { distinct = rw rows v.distinct; cached = rw (rows, cache) (v.cached opened) }

    module _ (r : Key) (found : find ops k s.cache ≡ some r) where
      held : look_up ops k (loaded ops laws s.index) ≡ some r
      held = sym (find-loaded ops laws s k opened v) ∙ found

      removed : remove ops k s.cache ≡ take_out ops k (loaded ops laws s.index)
      removed = rw (v.cached opened) (remove_lem ops k (loaded ops laws s.index))

      erased-IsLoaded :
          (rows : List Key) → Wiped ops laws heads k s.index rows → IsLoaded (erased_shard r rows)
      erased-IsLoaded rows w = record { distinct = w.distinct; cached = removed ∙ sym w.taken }

      erased-find :
          (j : RowId)
          → find ops j (remove ops k s.cache) ≡ (if eq k j then none else find ops j s.cache)
      erased-find j =
          rw
            (
              removed,
              find_lem ops j (take_out ops k (loaded ops laws s.index)),
              find-loaded ops laws s j opened v,
            )
            (look_up-take_out ops laws.order j k (loaded ops laws s.index)
              (loaded-Sorted ops laws s v) held)

      erase_step :
          (rows : List Key)
          → Wiped ops laws heads k s.index rows
          → erase ops st os k thorough s
            ≡ (if os.zero_index then (erased_shard r rows, true) else (kept_shard r, false))
      unfolding erase
      erase_step rows w = ground (arith, advanced, w.found)

      outcome :
          (b : Bool) (rows : List Key)
          → Wiped ops laws heads k s.index rows
          → let q : Shard Key × Bool =
              if b then (erased_shard r rows, true) else (kept_shard r, false) in
            IsLoaded q.0
            × (q.1 ≡ b)
            × ((j : RowId)
                → find ops j (q.0).cache ≡ (if q.1 && eq k j then none else find ops j s.cache))
      outcome true rows w = (erased-IsLoaded rows w, refl, erased-find)
      outcome false rows w =
          (kept-IsLoaded r, refl, λ j. ap (λ rows. find ops j rows) (kept_same r).1)

    pub erase_lem :
        IsLoaded (erase ops st os k thorough s).0
        × ((erase ops st os k thorough s).1 ≡ (is_some (find ops k s.cache) && os.zero_index))
        × ((j : RowId)
            → find ops j ((erase ops st os k thorough s).0).cache
              ≡ (if (erase ops st os k thorough s).1 && eq k j then none else find ops j s.cache))
    unfolding erase
    erase_lem = elim (Option-cases (find ops k s.cache)) [
      | inl n ↦
          let e : erase ops st os k thorough s ≡ (s, false) = ground (arith, advanced) in
          let same : IsLoaded s = record { distinct = v.distinct; cached = v.cached opened } in
          rw (e, n) (same, refl, λ j. refl)
      | inr (r, f) ↦
          let (rows, w) = wipe_lem ops laws heads k s.index r v.distinct (held r f) in
          rw (erase_step r f rows w, f) (outcome r f os.zero_index rows w)
    ]

  -- For the writer, where both files open, the index can be read and there is memory, a reload of a
  -- sound open shard finds under every id what the shard finds.
  pub find-reload :
      (st : Settings) (os : Os Key) (s : Shard Key) (j : RowId)
      → st.writer ≡ true
      → os.read_index ≡ true
      → os.load_memory ≡ true
      → os.open_index ≡ true
      → os.open_content ≡ true
      → s.opened ≡ true
      → IsSound ops laws s
      → find ops j ((reload ops st os s).0).cache ≡ find ops j s.cache
  unfolding reload
  find-reload st os s j w r m i c o v =
      let t = unsynchronized_close ops s in
      let tv = unsynchronized_close-IsSound ops laws s v in
      let (sound, _) = advance-IsSound ops laws st os t w r m tv in
      let (opened, same) = advance_opens ops laws st os t r m i c closed_now tv in
      find-loaded ops laws (unsynchronized_advance ops st os t).0 j opened sound
      ∙ ap (λ rows. look_up ops j (loaded ops laws rows)) (same ∙ kept)
      ∙ sym (find-loaded ops laws s j o v)
    where
      closed_now : (unsynchronized_close ops s).opened ≡ false
      closed_now = unfold unsynchronized_close in refl

      kept : (unsynchronized_close ops s).index ≡ s.index
      kept = unfold unsynchronized_close in refl
