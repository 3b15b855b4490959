-- ===== src/Messages/Entry.antt =====
-- core/raddi_entry.h, core/raddi_entry.cpp and core/raddi_proof.h: the validation of an entry received.
-- A frame is its ids and the bytes that follow the header. The log messages are not part of the model.
pub mod Accepted
use raddi.Base.{
  ℕ, ◌+◌, ◌-◌, ◌*◌, ◌/◌, ◌%◌, Bool, true, false, ◌&&◌, not, List, length, get_or, ltb, leb, ◌==◌,
  if◌then◌else◌, Option, none, some,
}
use raddi.Time.{u64, add32, sub32, older}
use raddi.Id.{Eid, eid_eq}

pub record Frame : Type 0 where
  pub id : Eid
  pub parent : Eid
  pub content : List ℕ

pub data Announcement : Type 0 where
  not_an_announcement : Announcement
  new_channel_announcement : Announcement
  new_identity_announcement : Announcement

-- `is_announcement`.
unfoldable pub is_announcement : Eid → Eid → Announcement
is_announcement id parent =
    if eid_eq id parent
    then (if id.timestamp == id.identity.timestamp
        then new_identity_announcement
        else new_channel_announcement)
    else not_an_announcement

-- `sizeof (entry)`, also that of a channel's announcement, and `sizeof (identity)`.
abbrev pub entry_size : ℕ
entry_size = 12 + 12 + 64

abbrev pub identity_size : ℕ
identity_size = entry_size + 32

abbrev pub min_proof_size : ℕ
min_proof_size = 2 + 4 * 12

-- `proof::size`, from the proof's last byte: the length in its low four bits.
unfoldable pub proof_size : ℕ → ℕ
proof_size last = 1 + 4 * (2 * (last % 16) + 12) + 1

-- `proof::validate`: the algorithm in the high two bits is the cuckoo cycle, and the proof fits.
unfoldable pub proof_validate : ℕ → ℕ → ℕ
unfolding proof_size
proof_validate last data_size =
    if (last / 64 % 4 == 2) && leb (proof_size last) data_size then proof_size last else 0

-- `entry::proof`, for content of at least one byte: the size of the proof at its end.
unfoldable pub proof : List ℕ → Option ℕ
unfolding proof_validate
proof content =
    let n = proof_validate (get_or content (length content - 1) 0) (length content) in
    if n == 0 then none else if get_or content (length content - n) 0 == 0 then some n else none

-- The subtraction of `std::size_t`.
abbrev pub sub64 : ℕ → ℕ → ℕ
sub64 a b = (a + (u64 - b)) % u64

-- The end of `validate`, by the kind of entry.
unfoldable pub validate_size : Announcement → ℕ → ℕ → Bool
validate_size new_identity_announcement size content_size =
    if ltb size identity_size
    then false
    else not (ltb 53 (sub64 content_size (identity_size - entry_size)))
validate_size new_channel_announcement size content_size =
    if ltb size entry_size then false else not (ltb 85 (sub64 content_size 0))
validate_size not_an_announcement size content_size = ltb 0 content_size

-- `validate` at the time `now`, of a frame with a whole header.
unfoldable pub validate : ℕ → Frame → Bool
validate now e =
    let size = entry_size + length e.content in
    if older e.id.timestamp e.parent.timestamp
    then false
    else if older e.id.timestamp e.id.identity.timestamp
    then false
    else if older e.parent.timestamp e.parent.identity.timestamp
    then false
    else if older e.id.timestamp (sub32 now 0x4000_0000)
    then false
    else if older (add32 now 180) e.id.timestamp
    then false
    else if ltb size (entry_size + min_proof_size)
    then false
    else elim (proof e.content) [
      | none ↦ false
      | some n ↦
          validate_size (is_announcement e.id e.parent) size (sub64 (sub64 size entry_size) n)
    ]
