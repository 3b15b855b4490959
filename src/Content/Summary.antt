-- ===== src/Content/Summary.antt =====
-- core/raddi_content.cpp: `analysis::summarize`, and `is_plain_line`. The members of the bit-field that
-- are enumerations hold the numbers of core/raddi_content.h; the members never set are left out.
pub mod Plain
use raddi.Base.{
  ℕ, zero, suc, ◌+◌, ◌*◌, Bool, true, false, ◌&&◌, ◌||◌, not, List, [], ◌∷◌, Option, none, some,
  take, drop, leb, ◌==◌, if◌then◌else◌,
}
use raddi.Content.{Analysis, Attachment, Mark, Token, Stamp, Text, Reference}

pub record Summary : Type 0 where
  pub band : ℕ
  pub encryption : ℕ
  pub private_message : Bool
  pub mod_op : ℕ
  pub vote : ℕ
  pub report : Bool
  pub revert : Bool
  pub ack : Bool
  pub text : Bool
  pub edit : Bool
  pub binary : Bool
  pub images : Bool
  pub audio : Bool
  pub archive : Bool
  pub document : Bool

abbrev pub empty_summary : Summary
empty_summary = record {
  band = 0;
  encryption = 0;
  private_message = false;
  mod_op = 0;
  vote = 0;
  report = false;
  revert = false;
  ack = false;
  text = false;
  edit = false;
  binary = false;
  images = false;
  audio = false;
  archive = false;
  document = false;
}

-- `std::memcmp (data, prefix, length) == 0`.
unfoldable pub starts_with : List ℕ → List ℕ → Bool
starts_with [] bytes = true
starts_with (p ∷ ps) [] = false
starts_with (p ∷ ps) (b ∷ bs) = (p == b) && starts_with ps bs

-- The known formats, by the kind of the first that fits.
unfoldable pub categorize : List ℕ → Summary → Summary
categorize stored s =
    if starts_with (0x25 ∷ 0x50 ∷ 0x44 ∷ 0x46 ∷ []) stored
    then record s { document = true }
    else if starts_with (0x3C ∷ 0x3F ∷ 0x78 ∷ 0x6D ∷ 0x6C ∷ []) stored
    then record s { document = true }
    else if starts_with (0x50 ∷ 0x4B ∷ []) stored
    then record s { archive = true }
    else if starts_with (0x52 ∷ 0x61 ∷ 0x72 ∷ 0x21 ∷ []) stored
    then record s { archive = true }
    else if starts_with (0x37 ∷ 0x7A ∷ []) stored
    then record s { archive = true }
    else if starts_with (0x89 ∷ 0x50 ∷ 0x4E ∷ 0x47 ∷ 0x0D ∷ 0x0A ∷ 0x1A ∷ 0x0A ∷ []) stored
    then record s { images = true }
    else if starts_with (0x47 ∷ 0x49 ∷ 0x46 ∷ 0x38 ∷ 0x39 ∷ 0x61 ∷ []) stored
    then record s { images = true }
    else if starts_with (0x47 ∷ 0x49 ∷ 0x46 ∷ 0x38 ∷ 0x37 ∷ 0x61 ∷ []) stored
    then record s { images = true }
    else if starts_with (0xFF ∷ 0xD8 ∷ []) stored
    then record s { images = true }
    else if starts_with (0x4F ∷ 0x67 ∷ 0x67 ∷ 0x53 ∷ []) stored
    then record s { audio = true }
    else if starts_with (0x4D ∷ 0x54 ∷ 0x68 ∷ 0x64 ∷ []) stored
    then record s { audio = true }
    else s

-- The bytes of an attachment within the content.
abbrev pub data_of : List ℕ → Attachment → List ℕ
data_of bytes a = take a.size (drop a.at bytes)

abbrev pub is_empty {ℓ} : {A : Type ℓ} → List A → Bool
is_empty [] = true
is_empty (x ∷ xs) = false

unfoldable pub sum_attachment : List ℕ → Bool → Attachment → Summary → Summary
sum_attachment bytes textless a s =
    if a.type_code == 0xFA
    then categorize (data_of bytes a) (record s { binary = true })
    else if a.type_code == 0xFE
    then record s { encryption = if textless then 2 else 1 }
    else if a.type_code == 0xFF
    then record s { private_message = true }
    else s

unfoldable pub sum_mark : Mark → Summary → Summary
sum_mark m s =
    if m.type_code == 0x06
    then record s { ack = true }
    else if m.type_code == 0x07
    then record s { report = true }
    else if m.type_code == 0x08
    then record s { revert = true }
    else if m.type_code == 0x7F
    then record s { mod_op = if s.mod_op == 0 then 4 else 15 }
    else s

-- A vote: a code from 1 to 5, anything else, or one more.
unfoldable pub vote_of : Token → ℕ → ℕ
vote_of t vote =
    if not (vote == 0)
    then 7
    else elim t.string [ some p ↦ 6 | none ↦ if leb 1 t.code && leb t.code 5 then t.code else 6 ]

-- A band, which must stand before all text.
unfoldable pub band_of : Token → ℕ → ℕ
band_of t band =
    if not (band == 0) then 15 else if not (t.insertion == 0) then band else elim t.string [
      | some p ↦ 14
      | none ↦ if leb 1 t.code && leb t.code 5 then t.code else if t.code == 0x1F then 13 else 14
    ]

unfoldable pub sum_token : Token → Summary → Summary
sum_token t s =
    if t.type_code == 0x0B
    then record s { vote = vote_of t s.vote }
    else if t.type_code == 0x10
    then record s { band = band_of t s.band }
    else s

-- The moderation opcodes.
unfoldable pub moderation_of : ℕ → ℕ
moderation_of code =
    if leb 1 code && leb code 3
    then code
    else if code == 0x08
    then 8
    else if code == 0x09
    then 9
    else if code == 0x10
    then 5
    else if code == 0x30
    then 10
    else if code == 0x31
    then 11
    else if code == 0x40
    then 12
    else if code == 0x41
    then 13
    else 14

unfoldable pub sum_stamp : Stamp → Summary → Summary
sum_stamp t s =
    if t.type_code == 0x15
    then record s { mod_op = if s.mod_op == 0 then moderation_of t.code else 15 }
    else s

-- A loop over a vector.
abbrev pub fold {ℓ κ} : {A : Type ℓ} {B : Type κ} → (A → B → B) → List A → B → B
fold f [] b = b
fold f (x ∷ xs) b = fold f xs (f x b)

-- `summarize`, of the analysis of `bytes`.
unfoldable pub summarize : List ℕ → Analysis → Summary → Summary
summarize bytes a s =
    let s1 : Summary = record s {
      text = s.text || not (is_empty a.text);
      edit = s.edit || not (is_empty a.edits);
    } in
    fold sum_stamp a.stamps (
      fold sum_token a.tokens
        (fold sum_mark a.marks (fold (sum_attachment bytes (is_empty a.text)) a.attachments s1)))

-- `is_plain_line`, from the byte at `i` on.
unfoldable pub plain_from : ℕ → List ℕ → ℕ
plain_from i [] = i
plain_from i (b ∷ bs) =
    let rest = plain_from (i + 1) bs in
    if b == 0 then i else if (leb b 0x1F || (b == 0x7F)) || leb 0xF8 b then 0 else rest

unfoldable pub is_plain_line : List ℕ → ℕ
is_plain_line bytes = plain_from 0 bytes
