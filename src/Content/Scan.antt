-- ===== src/Content/Scan.antt =====
-- core/raddi_content.cpp, `content::analyze`: what one byte does, and the loop over the content.
pub mod Total
use raddi.Base.{
  ℕ, zero, suc, ◌+◌, ◌-◌, ◌*◌, ◌/◌, ◌%◌, Bool, true, false, ◌&&◌, ◌||◌, not, List, [], ◌∷◌, ◌++◌,
  Option, none, some, length, get_or, ltb, leb, ◌==◌, if◌then◌else◌, ◌>>=◌,
}
use raddi.Content.{
  Font, sans, serif, monospace, handwriting, reserved, Appearance, Mark, Token, Stamp, Attachment,
  Reference, Analysis, empty_analysis, plain, State, among, insertion_of, finish_text,
}
use raddi.Base.{get_elem?}
use raddi.Content.Operands.{
  skip, token_end, push_token, token, skiptable, stamp_defined, push_stamp, stamp, escape_end,
  escaped, escape, push_attachment, push_reference, store, attachment_of, attachment,
}

-- The first switch, for a byte that is not NUL: a byte of text starts a text, another ends it.
unfoldable pub separate : ℕ → State → State
unfolding finish_text
separate c s =
    let started : State = elim s.text_start [
      | none ↦ record s { text_start = some s.content }
      | some b ↦ s
    ] in
    if (leb c 0x1F || c == 0x7F) || leb 0xF8 c
    then (if (c == 0x09) || (c == 0x0D) then started else finish_text s)
    else started

unfoldable pub push_mark : ℕ → Bool → State → State
push_mark c defined s = record s {
  found = record s.found {
    marks =
        s.found.marks
        ++ (record { type_code = c; insertion = insertion_of s; defined = defined } ∷ []);
  };
}

-- The cases of the second switch whose byte stands alone.
unfoldable pub single : ℕ → State → State
unfolding among push_mark
single c s =
    if c == 0x01
    then record s { look = record plain { heading = true; paragraph = true } }
    else if c == 0x02
    then record s { look = record plain { paragraph = true } }
    else if c == 0x0A
    then record s { look = record s.look { paragraph = true } }
    else if c == 0x18
    then record s { look = plain }
    else if among c (0x04 ∷ 0x05 ∷ 0x0C ∷ [])
    then push_mark c false s
    else if among c (0x03 ∷ 0x06 ∷ 0x07 ∷ 0x08 ∷ 0x1C ∷ 0x1D ∷ 0x1E ∷ 0x1F ∷ 0x7F ∷ [])
    then push_mark c true s
    else if c == 0x0E
    then record s { look = record s.look { intensity = (s.look.intensity + 255) % 256 } }
    else if c == 0x0F
    then record s { look = record s.look { intensity = (s.look.intensity + 1) % 256 } }
    else if c == 0x11
    then record s { look = record s.look { font = serif } }
    else if c == 0x12
    then record s { look = record s.look { font = monospace } }
    else if c == 0x13
    then record s { look = record s.look { font = handwriting } }
    else if c == 0x14
    then record s { look = record s.look { font = reserved } }
    else s

-- The second switch and the step past the byte; the codes of its cases are distinct.
unfoldable pub interpret : List ℕ → ℕ → State → Option State
interpret bytes c s =
    if among c (0x0B ∷ 0x10 ∷ 0x1A ∷ [])
    then token bytes c s
    else if among c (0x15 ∷ 0x16 ∷ 0x17 ∷ 0x19 ∷ [])
    then stamp bytes c s
    else if c == 0x1B
    then escape bytes s
    else if leb 0xF8 c
    then attachment bytes c s
    else skip 1 (single c s)

-- The loop, with fuel.
unfoldable pub scan : ℕ → List ℕ → State → Option Analysis
scan zero bytes s = none
scan (suc fuel) bytes s =
    if s.left == 0 then some (finish_text s).found else elim (get_elem? bytes s.content) [
      | none ↦ none
      | some c ↦
          if c == 0
          then some (record (finish_text s).found { padding = s.left })
          else elim (interpret bytes c (separate c s)) [ none ↦ none | some t ↦ scan fuel bytes t ]
    ]

-- `analyze`.
unfoldable pub analyze : List ℕ → Option Analysis
unfolding scan
analyze bytes = scan (suc (length bytes)) bytes (record {
  content = 0;
  left = length bytes;
  text_start = none;
  look = plain;
  found = empty_analysis;
})
