-- ===== src/Db/Row.antt =====
-- core/raddi_database_row.h: the index rows of the four tables, behind one interface.
pub mod Laws
use raddi.Base.{
  ℕ, ◌+◌, ◌*◌, ◌%◌, ◌^◌, Bool, Option, none, some, List, length, drop, ltb, if◌then◌else◌,
}
use raddi.Id.{Iid, Eid, of_iid, iid_isnull, iid_lt, iid_eq, eid_isnull, eid_lt, eid_eq}
use raddi.Content.Scan.{analyze}
use raddi.Content.Summary.{Summary, empty_summary, summarize}

-- An entry as it travels: two ids, then the signature and the content.
pub record Entry : Type 0 where
  pub id : Eid
  pub parent : Eid
  pub body : List ℕ

-- `sizeof (raddi::entry)`, and the part of it that the index stores.
abbrev pub entry_size : ℕ
entry_size = 88

abbrev pub signature_size : ℕ
signature_size = 64

abbrev pub prefix_size : ℕ
prefix_size = 24

abbrev pub size_of : Entry → ℕ
size_of e = prefix_size + length e.body

-- `root`: the channel and the thread that an entry belongs to.
pub record Root : Type 0 where
  pub channel : Eid
  pub thread : Eid

-- What a table's code asks of its row type `Key`, whose ids have type `Id`.
pub record RowOps (Key RowId : Type 0) : Type 0 where
  pub id : Key → RowId
  pub data_offset : Key → ℕ
  pub data_length : Key → ℕ
  pub lt : RowId → RowId → Bool
  pub eq : RowId → RowId → Bool
  pub erased : RowId → Bool
  -- The casts from and to `eid`.
  pub of_eid : Eid → RowId
  pub to_eid : RowId → Eid
  -- The first bytes of a stored row, read as an `eid`.
  pub header : Key → Eid
  -- A row of zero bytes.
  pub zeros : Key
  -- `classify`, before the data members are set; `none` where it returns `false`.
  pub classify : Entry → Root → Option Key
  -- The assignment to the bit-fields `data.offset` and `data.length`.
  pub place : Key → ℕ → ℕ → Key
  -- The cast to `raddi::entry`.
  pub entry_ids : Key → Eid × Eid
  pub top : Key → Root

pub record Row : Type 0 where
  pub id : Eid
  pub parent : Eid
  pub offset : ℕ
  pub length : ℕ
  pub top : Root
  pub type : Summary

pub record Trow : Type 0 where
  pub id : Eid
  pub parent : Eid
  pub offset : ℕ
  pub length : ℕ

pub record Crow : Type 0 where
  pub id : Eid
  pub offset : ℕ
  pub length : ℕ

pub record Irow : Type 0 where
  pub id : Iid
  pub offset : ℕ
  pub length : ℕ

abbrev null_iid : Iid
null_iid = record { timestamp = 0; nonce = 0 }

abbrev null_eid : Eid
null_eid = of_iid null_iid

-- The bit-fields of a channel's or an identity's row: 24 bits of offset, 8 of length.
abbrev length_bits : ℕ
length_bits = 8

-- The summary of the analysis of an entry's content.
abbrev content_summary : List ℕ → Summary
content_summary bytes = elim (analyze bytes) [
  | none ↦ empty_summary
  | some a ↦ summarize bytes a empty_summary
]

-- Data entries.
abbrev pub row : RowOps Row Eid
row = record {
  id = λ r. r.id;
  data_offset = λ r. r.offset;
  data_length = λ r. r.length;
  lt = eid_lt;
  eq = eid_eq;
  erased = eid_isnull;
  of_eid = λ e. e;
  to_eid = λ e. e;
  header = λ r. r.id;
  zeros = record {
    id = null_eid;
    parent = null_eid;
    offset = 0;
    length = 0;
    top = record { channel = null_eid; thread = null_eid };
    type = empty_summary;
  };
  classify = λ e top. some (record {
    id = e.id;
    parent = e.parent;
    offset = 0;
    length = 0;
    top = top;
    type = content_summary (drop signature_size e.body);
  });
  place = λ r o n. record r { offset = o % 2 ^ 48; length = n % 2 ^ 16 };
  entry_ids = λ r. (r.id, r.parent);
  top = λ r. r.top;
}

-- Threads.
abbrev pub trow : RowOps Trow Eid
trow = record {
  id = λ r. r.id;
  data_offset = λ r. r.offset;
  data_length = λ r. r.length;
  lt = eid_lt;
  eq = eid_eq;
  erased = eid_isnull;
  of_eid = λ e. e;
  to_eid = λ e. e;
  header = λ r. r.id;
  zeros = record { id = null_eid; parent = null_eid; offset = 0; length = 0 };
  classify = λ e top. some (record { id = e.id; parent = e.parent; offset = 0; length = 0 });
  place = λ r o n. record r { offset = o % 2 ^ 48; length = n % 2 ^ 16 };
  entry_ids = λ r. (r.id, r.parent);
  top = λ r. record { channel = r.parent; thread = r.id };
}

-- Channel announcements, which are their own parents; a long one is refused.
abbrev pub crow : RowOps Crow Eid
crow = record {
  id = λ r. r.id;
  data_offset = λ r. r.offset;
  data_length = λ r. r.length;
  lt = eid_lt;
  eq = eid_eq;
  erased = eid_isnull;
  of_eid = λ e. e;
  to_eid = λ e. e;
  header = λ r. r.id;
  zeros = record { id = null_eid; offset = 0; length = 0 };
  classify = λ e top.
      if ltb (size_of e) (entry_size + 2 ^ length_bits)
      then some (record { id = e.id; offset = 0; length = 0 })
      else none;
  place = λ r o n. record r { offset = o % 2 ^ 24; length = n % 2 ^ 8 };
  entry_ids = λ r. (r.id, r.id);
  top = λ r. record { channel = r.id; thread = r.id };
}

-- Identity announcements. The row begins with the eight bytes of an `iid`, so the first twelve,
-- read as an `eid`, are the time, the nonce, and the bit-fields.
abbrev pub irow : RowOps Irow Iid
irow = record {
  id = λ r. r.id;
  data_offset = λ r. r.offset;
  data_length = λ r. r.length;
  lt = iid_lt;
  eq = iid_eq;
  erased = iid_isnull;
  of_eid = λ e. e.identity;
  to_eid = of_iid;
  header = λ r. record {
    timestamp = (r.id).timestamp;
    identity = record { timestamp = (r.id).nonce; nonce = r.offset + r.length * 2 ^ 24 };
  };
  zeros = record { id = null_iid; offset = 0; length = 0 };
  classify = λ e top.
      if ltb (size_of e) (entry_size + 2 ^ length_bits)
      then some (record { id = (e.id).identity; offset = 0; length = 0 })
      else none;
  place = λ r o n. record r { offset = o % 2 ^ 24; length = n % 2 ^ 8 };
  entry_ids = λ r. (of_iid r.id, of_iid r.id);
  top = λ r. record { channel = of_iid r.id; thread = of_iid r.id };
}
