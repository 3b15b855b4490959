-- ===== src/Db/Shard.antt =====
-- core/raddi_database_shard.h and core/raddi_database_shard.tcc: one shard of a table. The index
-- file is a list of rows and the content file a list of bytes, each with the position of its handle,
-- in rows and in bytes; `index_inside` tells that the handle of the index file stands inside the row.
-- How rows lie in bytes is not modelled, so what a write from inside a row makes of the rows is an answer.
-- A reader's handle stands between rows. The lists and positions
-- stay when the handles are closed. What the operating system answers is an argument, `Os`.
pub mod Files
pub mod Ops
pub mod Updates
pub mod Wipe
pub mod Content
pub mod Sound
pub mod Insertion
pub mod Insert
pub mod ReadBack
pub mod Erasure
pub mod Faults
pub mod Split
use raddi.Base.{ℕ, Bool, List, Option}
use raddi.Id.{Eid}

pub record Shard (Key : Type 0) : Type 0 where
  pub base : ℕ
  pub accessed : ℕ
  pub opened : Bool
  pub index : List Key
  pub index_position : ℕ
  pub index_inside : Bool
  pub content : List ℕ
  pub content_position : ℕ
  pub deleted : ℕ
  pub cache : List Key

-- The table's part of the settings.
pub record Settings : Type 0 where
  pub writer : Bool
  pub mask : List ℕ
  pub reinsertion_validation : Bool

-- The answers of the operating system during one operation: the clock, whether each kind of call
-- succeeds, and where a handle stands after a read at an offset: `pointer`, from where it stood before
-- and the end of what was read, and `index_pointer`, from where it stood and the row whose id was read
-- last, with whether it stands inside the row. `inside_write` is what a row that is written from inside
-- a row makes of the rows; `failed_row` and `failed_content` are what a failed write leaves that is not
-- cut back, and where; `uncut` is where a handle stands after a `resize` that failed.
pub record Os (Key : Type 0) : Type 0 where
  pub now : ℕ
  pub open_index : Bool
  pub open_content : Bool
  pub read_index : Bool
  pub read_content : Bool
  pub write_content : Bool
  pub write_index : Bool
  pub zero_content : Bool
  pub zero_index : Bool
  pub load_memory : Bool
  pub insert_memory : Bool
  pub resize_index : Bool
  pub resize_content : Bool
  pub pointer : ℕ → ℕ → ℕ
  pub index_pointer : ℕ × Bool → ℕ → ℕ × Bool
  pub inside_write : ℕ → Key → List Key → List Key
  pub failed_row : ℕ × Bool → Key → List Key → List Key × (ℕ × Bool)
  pub uncut : ℕ → ℕ → ℕ
  pub failed_content : ℕ → List ℕ → List ℕ → List ℕ × ℕ

-- `read`: the parts of an entry that `get` gathers.
pub data Read : Type 0 where
  nothing identification verification identification_and_verification : Read
  content identification_and_content verification_and_content everything : Read

-- What a successful read puts into the caller's buffer: the ids, if asked for, and bytes after them,
-- from an offset on.
pub record Got : Type 0 where
  pub ids : Option (Eid × Eid)
  pub at : ℕ
  pub bytes : List ℕ
