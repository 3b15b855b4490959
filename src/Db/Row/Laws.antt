-- ===== src/Db/Row/Laws.antt =====
-- The laws that the shards rely on, and the four row types that keep them.
use raddi.Base.{ℕ, ◌-◌, ◌≤◌, ◌<◌, true, false, some, ◌≡◌, refl, arith}
use raddi.Id.{Eid, Iid, eid_eq, eid_isnull, eid_lt, iid_lt, iid_isnull}
use raddi.Id.Order.{IsOrder, eid_lt-IsOrder, iid_lt-IsOrder}
use raddi.Db.Row.{Entry, Root, RowOps, row, trow, crow, irow, size_of, entry_size}

module _ {Key RowId : Type 0} (ops : RowOps Key RowId) where
  open ops use {
    id, data_offset, data_length, lt, eq, erased, of_eid, to_eid, header, zeros, classify, place,
    entry_ids,
  }

  -- `offset_limit` and `length_limit` bound what the bit-fields hold.
  pub record IsRow : Type 0 where
    pub order : IsOrder lt eq
    pub erased_least : (a b : RowId) → erased b ≡ true → lt a b ≡ false
    pub erased_below : (a b : RowId) → erased a ≡ true → erased b ≡ false → lt a b ≡ true
    pub zeros_erased : erased (id zeros) ≡ true
    pub offset_limit : ℕ
    pub length_limit : ℕ
    pub place_id : (r : Key) (o n : ℕ) → id (place r o n) ≡ id r
    pub place_ids : (r : Key) (o n : ℕ) → entry_ids (place r o n) ≡ entry_ids r
    pub place_offset : (r : Key) (o n : ℕ) → o < offset_limit → data_offset (place r o n) ≡ o
    pub place_length : (r : Key) (o n : ℕ) → n < length_limit → data_length (place r o n) ≡ n
    pub classify_id : (e : Entry) (t : Root) (r : Key) → classify e t ≡ some r → id r ≡ of_eid e.id
    pub classify_fits :
        (e : Entry) (t : Root) (r : Key)
        → classify e t ≡ some r
        → size_of e ≤ 65518
        → size_of e - entry_size < length_limit

  -- The rows of a table begin with the bytes of their id, read as an `eid`.
  pub record HasHeader : Type 0 where
    pub header_lem : (r : Key) → header r ≡ to_eid (id r)
    pub to_eid_isnull : (k : RowId) → eid_isnull (to_eid k) ≡ erased k
    pub to_eid_eq : (a b : RowId) → eid_eq (to_eid a) (to_eid b) ≡ eq a b

eid_erased_least : (a b : Eid) → eid_isnull b ≡ true → eid_lt a b ≡ false
unfolding eid_isnull eid_lt
eid_erased_least a b h = ground arith

eid_erased_below : (a b : Eid) → eid_isnull a ≡ true → eid_isnull b ≡ false → eid_lt a b ≡ true
unfolding eid_isnull eid_lt
eid_erased_below a b h k = ground arith

iid_erased_least : (a b : Iid) → iid_isnull b ≡ true → iid_lt a b ≡ false
unfolding iid_isnull iid_lt
iid_erased_least a b h = ground arith

iid_erased_below : (a b : Iid) → iid_isnull a ≡ true → iid_isnull b ≡ false → iid_lt a b ≡ true
unfolding iid_isnull iid_lt
iid_erased_below a b h k = ground arith

row_zeros : row.erased (row.id row.zeros) ≡ true
unfolding eid_isnull
row_zeros = refl

irow_zeros : irow.erased (irow.id irow.zeros) ≡ true
unfolding iid_isnull
irow_zeros = refl

pub row-IsRow : IsRow row
row-IsRow = record {
  order = eid_lt-IsOrder;
  erased_least = eid_erased_least;
  erased_below = eid_erased_below;
  zeros_erased = row_zeros;
  offset_limit = 0x1_0000_0000_0000;
  length_limit = 0x1_0000;
  place_id = λ r o n. refl;
  place_ids = λ r o n. refl;
  place_offset = λ r o n h. omega arith;
  place_length = λ r o n h. omega arith;
  classify_id = λ e t r h. ground arith;
  classify_fits = λ e t r h s. omega arith;
}

pub trow-IsRow : IsRow trow
trow-IsRow = record {
  order = eid_lt-IsOrder;
  erased_least = eid_erased_least;
  erased_below = eid_erased_below;
  zeros_erased = row_zeros;
  offset_limit = 0x1_0000_0000_0000;
  length_limit = 0x1_0000;
  place_id = λ r o n. refl;
  place_ids = λ r o n. refl;
  place_offset = λ r o n h. omega arith;
  place_length = λ r o n h. omega arith;
  classify_id = λ e t r h. ground arith;
  classify_fits = λ e t r h s. omega arith;
}

pub crow-IsRow : IsRow crow
crow-IsRow = record {
  order = eid_lt-IsOrder;
  erased_least = eid_erased_least;
  erased_below = eid_erased_below;
  zeros_erased = row_zeros;
  offset_limit = 0x100_0000;
  length_limit = 0x100;
  place_id = λ r o n. refl;
  place_ids = λ r o n. refl;
  place_offset = λ r o n h. omega arith;
  place_length = λ r o n h. omega arith;
  classify_id = λ e t r h. ground arith;
  classify_fits = λ e t r h s. ground arith;
}

pub irow-IsRow : IsRow irow
irow-IsRow = record {
  order = iid_lt-IsOrder;
  erased_least = iid_erased_least;
  erased_below = iid_erased_below;
  zeros_erased = irow_zeros;
  offset_limit = 0x100_0000;
  length_limit = 0x100;
  place_id = λ r o n. refl;
  place_ids = λ r o n. refl;
  place_offset = λ r o n h. omega arith;
  place_length = λ r o n h. omega arith;
  classify_id = λ e t r h. ground arith;
  classify_fits = λ e t r h s. ground arith;
}

pub row-HasHeader : HasHeader row
row-HasHeader = record {
  header_lem = λ r. refl;
  to_eid_isnull = λ k. refl;
  to_eid_eq = λ a b. refl;
}

pub trow-HasHeader : HasHeader trow
trow-HasHeader = record {
  header_lem = λ r. refl;
  to_eid_isnull = λ k. refl;
  to_eid_eq = λ a b. refl;
}

pub crow-HasHeader : HasHeader crow
crow-HasHeader = record {
  header_lem = λ r. refl;
  to_eid_isnull = λ k. refl;
  to_eid_eq = λ a b. refl;
}

-- The positions that a thread's row can hold.
pub trow_offsets : (trow-IsRow).offset_limit ≡ 0x1_0000_0000_0000
unfolding trow-IsRow
trow_offsets = refl
