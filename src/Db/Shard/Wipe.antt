-- ===== src/Db/Shard/Wipe.antt =====
-- core/raddi_database_shard.tcc, `erase`: the scan that wipes a row in the index file.
use raddi.Base.{
  true, false, List, [], ◌∷◌, some, ◌≡◌, refl, ap, sym, arith, Bool-cases, inl, inr, suc, length,
}
use raddi.Id.Order.{IsOrder}
use raddi.Db.Row.{RowOps}
use raddi.Db.Row.Laws.{IsRow, HasHeader}
use raddi.Db.Cache.{live}
use raddi.Db.Cache.Laws.{take_out, look_up, sorted_of}
use raddi.Db.Cache.Map.{
  look_up-place_row, look_up-take_out, take_out-place_row, take_out-place_row_self,
}
use raddi.Db.Cache.Reload.{loaded, Distinct, Sorted-sorted_of}
use raddi.Db.Shard.Updates.{wipe}

module _ {Key RowId : Type 0} (ops : RowOps Key RowId) (laws : IsRow ops)
    (heads : HasHeader ops) where
  open ops use {id, lt, eq, erased, to_eid, header, zeros}

  abbrev o : IsOrder lt eq
  o = laws.order

  -- Wiping one row of an index file takes exactly that row out of what is loaded.
  pub record Wiped (k : RowId) (rows rows' : List Key) : Type 0 where
    pub found : wipe ops (to_eid k) rows ≡ some rows'
    pub taken : loaded ops laws rows' ≡ take_out ops k (loaded ops laws rows)
    pub distinct : Distinct ops laws (live ops rows')
    pub size : length rows' ≡ length rows

  wipe_skip :
      (k : RowId) (r : Key) (rs rs' : List Key)
      → erased (id r) ≡ true
      → Wiped k rs rs'
      → Wiped k (r ∷ rs) (r ∷ rs')
  unfolding wipe live
  wipe_skip k r rs rs' h w = record {
    found = rw (heads.header_lem r, heads.to_eid_isnull (id r), h, w.found);
    taken = rw h w.taken;
    distinct = rw h w.distinct;
    size = ap suc w.size;
  }

  wipe_hit :
      (k : RowId) (r : Key) (rs : List Key)
      → erased (id r) ≡ false
      → eq (id r) k ≡ true
      → Distinct ops laws (live ops (r ∷ rs))
      → Wiped k (r ∷ rs) (zeros ∷ rs)
  unfolding wipe live sorted_of
  wipe_hit k r rs h e d =
      let same : id r ≡ k = (o.eq_iff (id r) k).0 e in
      record {
        found = rw (heads.header_lem r, heads.to_eid_isnull (id r), h, heads.to_eid_eq (id r) k, e);
        taken =
            rw (laws.zeros_erased, h, ← same)
              (sym (take_out-place_row_self ops o r (loaded ops laws rs)));
        distinct = rw laws.zeros_erased (rw h at d).1;
        size = refl;
      }

  wipe_miss :
      (k : RowId) (r x : Key) (rs rs' : List Key)
      → erased (id r) ≡ false
      → eq (id r) k ≡ false
      → Distinct ops laws (live ops (r ∷ rs))
      → look_up ops k (loaded ops laws rs) ≡ some x
      → Wiped k rs rs'
      → Wiped k (r ∷ rs) (r ∷ rs')
  unfolding wipe live sorted_of
  wipe_miss k r x rs rs' h e d l w =
      let sorted = Sorted-sorted_of ops laws (live ops rs) (rw h at d).1 in
      record {
        found = rw (
          heads.header_lem r,
          heads.to_eid_isnull (id r),
          h,
          heads.to_eid_eq (id r) k,
          e,
          w.found,
        );
        taken =
            rw (h, w.taken) (sym (take_out-place_row ops o k r (loaded ops laws rs) sorted l e));
        distinct = rw h (
          rw w.taken (
              ground (
                arith,
                look_up-take_out ops o (id r) k (loaded ops laws rs) {r = x} sorted l,
                (rw h at d).0,
              )),
          w.distinct,
        );
        size = ap suc w.size;
      }

  pub wipe_lem :
      (k : RowId) (rows : List Key) (x : Key)
      → Distinct ops laws (live ops rows)
      → look_up ops k (loaded ops laws rows) ≡ some x
      → (rows' : List Key) × Wiped k rows rows'
  unfolding live sorted_of look_up
  wipe_lem k [] x d l = absurd (cc)
  wipe_lem k (r ∷ rs) x d l = elim (Bool-cases (erased (id r))) [
    | inl h ↦
        let (rs', w) = wipe_lem k rs x (rw h at d) (rw h at l) in
        (r ∷ rs', wipe_skip k r rs rs' h w)
    | inr h ↦ elim (Bool-cases (eq (id r) k)) [
      | inl e ↦ (zeros ∷ rs, wipe_hit k r rs h e d)
      | inr e ↦
          let below : look_up ops k (loaded ops laws rs) ≡ some x =
            rw (look_up-place_row ops o k r (loaded ops laws rs), e) at (rw h at l) in
          let (rs', w) = wipe_lem k rs x (rw h at d).1 below in
          (r ∷ rs', wipe_miss k r x rs rs' h e d below w)
    ]
  ]
