-- ===== src/Db/Cache/Reload.antt =====
-- What a load makes of an index file: the live rows, sorted. How it changes with the file.
use raddi.Base.{
  true, false, List, [], ◌∷◌, ◌++◌, none, ◌≡◌, refl, ap, ◌∙◌, arith, Bool-cases, inl, inr,
}
use raddi.Id.Order.{IsOrder}
use raddi.Db.Row.{RowOps}
use raddi.Db.Row.Laws.{IsRow}
use raddi.Db.Cache.{sort, drop_erased, live}
use raddi.Db.Cache.Laws.{
  Sorted, place_row, look_up, sorted_of, place_row_comm, Sorted-place_row, sort_lem,
}
use raddi.Db.Cache.Map.{look_up-place_row}

module _ {Key RowId : Type 0} (ops : RowOps Key RowId) (laws : IsRow ops) where
  open ops use {id, lt, eq, erased}

  abbrev o : IsOrder lt eq
  o = laws.order

  -- The sorted rows of an index file that are not erased.
  abbrev pub loaded : List Key → List Key
  loaded rows = sorted_of ops (live ops rows)

  drop-place_row_erased :
      (r : Key) (rows : List Key)
      → erased (id r) ≡ true
      → drop_erased ops (place_row ops r rows) ≡ drop_erased ops rows
  unfolding place_row drop_erased
  drop-place_row_erased r [] h = ground arith
  drop-place_row_erased r (x ∷ xs) h = ground (arith, laws.erased_least (id x) (id r) h)

  drop-place_row_live :
      (r : Key) (rows : List Key)
      → erased (id r) ≡ false
      → drop_erased ops (place_row ops r rows) ≡ place_row ops r (drop_erased ops rows)
  unfolding place_row drop_erased
  drop-place_row_live r [] h = ground arith
  drop-place_row_live r (x ∷ xs) h =
      ground (arith, laws.erased_below (id x) (id r), drop-place_row_live r xs h)

  drop-sorted_of : (rows : List Key) → drop_erased ops (sorted_of ops rows) ≡ loaded rows
  unfolding sorted_of live drop_erased
  drop-sorted_of [] = refl
  drop-sorted_of (r ∷ rs) = elim (Bool-cases (erased (id r))) [
    | inl h ↦ rw h (drop-place_row_erased r (sorted_of ops rs) h ∙ drop-sorted_of rs)
    | inr h ↦
        rw h (drop-place_row_live r (sorted_of ops rs) h ∙ ap (place_row ops r) (drop-sorted_of rs))
  ]

  -- Sorting and then dropping the erased rows leaves the live rows, sorted.
  pub loaded_lem : (rows : List Key) → drop_erased ops (sort ops rows) ≡ loaded rows
  loaded_lem rows = rw (sort_lem ops rows) (drop-sorted_of rows)

  -- No two of the rows have the same id.
  abbrev pub Distinct : List Key → Type 0
  Distinct [] = Unit {0}
  Distinct (r ∷ rs) = (look_up ops (id r) (sorted_of ops rs) ≡ none) × Distinct rs

  pub Sorted-sorted_of : (rows : List Key) → Distinct rows → Sorted ops (sorted_of ops rows)
  unfolding sorted_of
  Sorted-sorted_of [] d = tt
  Sorted-sorted_of (r ∷ rs) d =
      Sorted-place_row ops o r (sorted_of ops rs) d.0 (Sorted-sorted_of rs d.1)

  pub sorted_of-append :
      (r : Key) (rows : List Key)
      → look_up ops (id r) (sorted_of ops rows) ≡ none
      → sorted_of ops (rows ++ (r ∷ [])) ≡ place_row ops r (sorted_of ops rows)
  unfolding sorted_of
  sorted_of-append r [] h = refl
  sorted_of-append r (x ∷ xs) h =
      let law = look_up-place_row ops o (id r) x (sorted_of ops xs) in
      let apart : eq (id x) (id r) ≡ false = ground (arith, law) in
      let rest : look_up ops (id r) (sorted_of ops xs) ≡ none = ground (arith, law) in
      rw (sorted_of-append r xs rest) (place_row_comm ops o x r (sorted_of ops xs) apart)

  Distinct-append :
      (r : Key) (rows : List Key)
      → look_up ops (id r) (sorted_of ops rows) ≡ none
      → Distinct rows
      → Distinct (rows ++ (r ∷ []))
  unfolding sorted_of look_up
  Distinct-append r [] h d = (refl, tt)
  Distinct-append r (x ∷ xs) h d =
      let law = look_up-place_row ops o (id r) x (sorted_of ops xs) in
      let rest : look_up ops (id r) (sorted_of ops xs) ≡ none = ground (arith, law) in
      let apart : eq (id r) (id x) ≡ false =
        ground (arith, law, o.eq_iff (id r) (id x), o.eq_iff (id x) (id r)) in
      (
        rw (sorted_of-append r xs rest, look_up-place_row ops o (id x) r (sorted_of ops xs), apart)
            d.0,
        Distinct-append r xs rest d.1,
      )

  live-append :
      (r : Key) (rows : List Key)
      → erased (id r) ≡ false
      → live ops (rows ++ (r ∷ [])) ≡ live ops rows ++ (r ∷ [])
  unfolding live
  live-append r [] h = rw h
  live-append r (x ∷ xs) h = ground (arith, live-append r xs h)

  -- A new row at the end of the file: what is loaded gains it at its place.
  pub loaded-append :
      (r : Key) (rows : List Key)
      → erased (id r) ≡ false
      → look_up ops (id r) (loaded rows) ≡ none
      → Distinct (live ops rows)
      → (loaded (rows ++ (r ∷ [])) ≡ place_row ops r (loaded rows))
        × Distinct (live ops (rows ++ (r ∷ [])))
  loaded-append r rows h l d =
      rw (live-append r rows h)
        (sorted_of-append r (live ops rows) l, Distinct-append r (live ops rows) l d)
