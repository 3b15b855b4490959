-- ===== src/Content/Operands.antt =====
-- core/raddi_content.cpp, `content::analyze`: the bytes that take operands, and how far each moves the
-- cursor.
pub mod Steps
use raddi.Base.{
  ℕ, zero, suc, ◌+◌, ◌-◌, ◌*◌, ◌/◌, ◌%◌, Bool, true, false, ◌&&◌, ◌||◌, not, List, [], ◌∷◌, ◌++◌,
  Option, none, some, length, get_or, ltb, leb, ◌==◌, if◌then◌else◌, ◌>>=◌,
}
use raddi.Content.{
  Font, sans, serif, monospace, handwriting, reserved, Appearance, Mark, Token, Stamp, Attachment,
  Reference, Analysis, empty_analysis, plain, State, among, insertion_of, finish_text,
}
use raddi.Base.{get_elem?}

-- Forward by `n` bytes; `none` if there are fewer left.
unfoldable pub skip : ℕ → State → Option State
skip n s =
    if leb n s.left then some (record s { content = s.content + n; left = s.left - n }) else none

-- `do { ++p; --n; } while (n && *p)`.
unfoldable pub token_end : List ℕ → ℕ → ℕ → Option (ℕ × ℕ)
token_end bytes zero p = none
token_end bytes (suc zero) p = some (p + 1, 0)
token_end bytes (suc (suc n)) p =
    let rest = token_end bytes (suc n) (p + 1) in
    elim (get_elem? bytes (p + 1)) [
      | none ↦ none
      | some b ↦ if b == 0 then some (p + 1, suc n) else rest
    ]

unfoldable pub push_token : ℕ → ℕ → Option (ℕ × ℕ) → Bool → State → State
push_token c code string truncated s = record s {
  found = record s.found {
    tokens =
        s.found.tokens
        ++ (record {
          type_code = c;
          code = code;
          insertion = insertion_of s;
          truncated = truncated;
          defined = (c == 0x0B) || (c == 0x10);
          string = string;
        }
            ∷ []);
  };
}

-- VT, DLE and SUB: a token with a code, or with a string up to a NUL or to the end.
unfoldable pub token : List ℕ → ℕ → State → Option State
unfolding skip push_token token_end
token bytes c s =
    if ltb 1 s.left
    then (do
      b ← get_elem? bytes (s.content + 1)
      if ltb b 0x20
          then skip 2 (push_token c b none false s)
          else elim (token_end bytes (s.left - 1) (s.content + 1)) [
            | none ↦ none
            | some (p, n) ↦
                let t = push_token c 0 (some (s.content + 1, p)) (n == 0) s in
                skip (if n == 0 then p - s.content else p - s.content + 1) t
          ])
    else skip 1 s

abbrev pub skiptable : List ℕ
skiptable = 0 ∷ 2 ∷ 4 ∷ 8 ∷ 12 ∷ 16 ∷ 32 ∷ 64 ∷ []

-- Which codes of a stamp are defined.
unfoldable pub stamp_defined : ℕ → ℕ → Bool
unfolding among
stamp_defined c code =
    if c == 0x15
    then among code (0x01 ∷ 0x02 ∷ 0x03 ∷ 0x08 ∷ 0x09 ∷ 0x10 ∷ 0x30 ∷ 0x31 ∷ 0x40 ∷ 0x41 ∷ [])
    else if c == 0x16
    then among code (0x10 ∷ 0x20 ∷ 0x51 ∷ 0x61 ∷ 0x71 ∷ 0x32 ∷ 0x52 ∷ 0x63 ∷ 0x73 ∷ [])
    else if c == 0x19
    then among code (0x00 ∷ 0x30 ∷ 0x40 ∷ [])
    else false

unfoldable pub push_stamp : ℕ → ℕ → Bool → Bool → ℕ → Option ℕ → State → State
push_stamp c code truncated defined size at s = record s {
  found = record s.found {
    stamps =
        s.found.stamps
        ++ (record {
          type_code = c;
          code = code;
          insertion = insertion_of s;
          truncated = truncated;
          defined = defined;
          size = size;
          at = at;
        }
            ∷ []);
  };
}

-- NAK, SYN, ETB and EM: a stamp, whose code tells how many bytes of data follow.
unfoldable pub stamp : List ℕ → ℕ → State → Option State
unfolding skip push_stamp stamp_defined
stamp bytes c s =
    if ltb 1 s.left
    then (do
      code ← get_elem? bytes (s.content + 1)
      let wanted = get_or skiptable (code / 16 % 8) 0
      let size = if ltb (s.left - 2) wanted then s.left - 2 else wanted
      let at = if wanted == 0 then none else some (s.content + 2)
      skip (size + 2)
          (push_stamp c code (ltb (s.left - 2) wanted) (stamp_defined c code) size at s))
    else skip 1 (push_stamp c 0 false (c == 0x19) 0 none s)

-- `do { ++content; --length; } while ((length > 1) && …)`: the cursor and the bytes left.
unfoldable pub escape_end : List ℕ → ℕ → ℕ → Option (ℕ × ℕ)
escape_end bytes zero p = none
escape_end bytes (suc n) p =
    let rest = escape_end bytes n (p + 1) in
    if ltb 1 n
    then elim (get_elem? bytes (p + 1)) [
      | none ↦ none
      | some b ↦ if ltb b 0x40 || ltb 0x7E b then rest else some (p + 1, n)
    ]
    else some (p + 1, n)

-- What the byte after ESC does to the appearance.
unfoldable pub escaped : ℕ → Appearance → Appearance
escaped b look =
    if b == 0x7E
    then record look { font = serif }
    else if b == 0x4E
    then record look { font = monospace }
    else if b == 0x4F
    then record look { font = handwriting }
    else if b == 0x63
    then plain
    else look

unfoldable pub escape : List ℕ → State → Option State
unfolding skip escaped escape_end
escape bytes s =
    if ltb 1 s.left
    then elim (escape_end bytes s.left s.content) [
      | none ↦ none
      | some (p, n) ↦ (do
        b ← get_elem? bytes (s.content + 1)
        skip 1 (record s { content = p; left = n; look = escaped b s.look }))
    ]
    else skip 1 s

unfoldable pub push_attachment : Attachment → State → State
push_attachment a s = record s {
  found = record s.found { attachments = s.found.attachments ++ (a ∷ []) };
}

unfoldable pub push_reference : Reference → State → State
push_reference r s = record s { found = record s.found { edits = s.found.edits ++ (r ∷ []) } }

-- A differential attachment with its header is an edit; any other one is kept as it is.
unfoldable pub store : List ℕ → Attachment → State → Option State
unfolding push_attachment push_reference
store bytes a s =
    if (a.type_code == 0xFD) && leb 4 a.size
    then (do
      b0 ← get_elem? bytes a.at
      b1 ← get_elem? bytes (a.at + 1)
      b2 ← get_elem? bytes (a.at + 2)
      b3 ← get_elem? bytes (a.at + 3)
      some (
          push_reference
            (record {
              offset = b0 + 256 * b1;
              size = b2 + 256 * b3;
              string = a.at + 4;
              string_end = a.at + a.size;
              truncated = a.truncated;
            })
            s))
    else some (push_attachment a s)

-- The attachment at the cursor, from its two bytes of size, cut to what is left.
unfoldable pub attachment_of : ℕ → ℕ → ℕ → State → Attachment
unfolding among
attachment_of c b1 b2 s =
    let wanted = b1 + 256 * b2 in
    let cut = ltb (s.left - 3) wanted in
    let size = if cut then s.left - 3 else wanted in
    record {
      type_code = c;
      insertion = insertion_of s;
      truncated =
          (cut && not ((b1 == 0xFF) && (b2 == 0xFF)))
          || (((c == 0xFD) && ltb size 4) || ((c == 0xFC) && ltb size 2));
      defined = among c (0xFA ∷ 0xFC ∷ 0xFD ∷ 0xFE ∷ 0xFF ∷ []);
      size = size;
      at = s.content + 3;
    }

-- 0xF8 to 0xFF: two bytes of size, then the data.
unfoldable pub attachment : List ℕ → ℕ → State → Option State
unfolding skip store
attachment bytes c s =
    if ltb 2 s.left
    then (do
      b1 ← get_elem? bytes (s.content + 1)
      b2 ← get_elem? bytes (s.content + 2)
      t ← store bytes (attachment_of c b1 b2 s) s
      skip ((attachment_of c b1 b2 s).size + 3) t)
    else skip 1 s
