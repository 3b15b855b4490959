-- ===== src/Content.antt =====
-- core/raddi_content.h and core/raddi_content.cpp: the analysis of an entry's content into pieces of
-- text, marks, tokens, stamps, attachments and edits. A pointer into the content is an offset from its
-- start. A read outside the content, and a counter that would pass below zero, give `none`.
pub mod Operands
pub mod Scan
pub mod Summary
use raddi.Base.{
  ℕ, zero, suc, ◌+◌, ◌-◌, ◌*◌, ◌/◌, ◌%◌, Bool, true, false, ◌&&◌, ◌||◌, not, List, [], ◌∷◌, ◌++◌,
  Option, none, some, length, get_or, ltb, leb, ◌==◌, if◌then◌else◌, ◌>>=◌,
}
use raddi.Base.{get_elem?}

pub data Font : Type 0 where
  sans : Font
  serif : Font
  monospace : Font
  handwriting : Font
  reserved : Font

-- `text_appearance`, less the members that the analysis never sets; the intensity is a signed byte,
-- kept modulo 256.
pub record Appearance : Type 0 where
  pub heading : Bool
  pub paragraph : Bool
  pub intensity : ℕ
  pub font : Font

pub record Text : Type 0 where
  pub look : Appearance
  pub begin : ℕ
  pub end : ℕ

pub record Reference : Type 0 where
  pub offset : ℕ
  pub size : ℕ
  pub string : ℕ
  pub string_end : ℕ
  pub truncated : Bool

-- A mark: its type, the index of the text it stands before, and whether it is a known one.
pub record Mark : Type 0 where
  pub type_code : ℕ
  pub insertion : ℕ
  pub defined : Bool

pub record Token : Type 0 where
  pub type_code : ℕ
  pub code : ℕ
  pub insertion : ℕ
  pub truncated : Bool
  pub defined : Bool
  pub string : Option (ℕ × ℕ)

pub record Stamp : Type 0 where
  pub type_code : ℕ
  pub code : ℕ
  pub insertion : ℕ
  pub truncated : Bool
  pub defined : Bool
  pub size : ℕ
  pub at : Option ℕ

pub record Attachment : Type 0 where
  pub type_code : ℕ
  pub insertion : ℕ
  pub truncated : Bool
  pub defined : Bool
  pub size : ℕ
  pub at : ℕ

pub record Analysis : Type 0 where
  pub text : List Text
  pub edits : List Reference
  pub marks : List Mark
  pub tokens : List Token
  pub stamps : List Stamp
  pub attachments : List Attachment
  pub padding : ℕ

abbrev pub empty_analysis : Analysis
empty_analysis = record {
  text = [];
  edits = [];
  marks = [];
  tokens = [];
  stamps = [];
  attachments = [];
  padding = 0;
}

-- `text_appearance ()`.
abbrev pub plain : Appearance
plain = record { heading = false; paragraph = false; intensity = 0; font = sans }

-- The locals of `analyze`: the cursor, the bytes left, the start of the text being collected, its
-- appearance, and what has been found.
pub record State : Type 0 where
  pub content : ℕ
  pub left : ℕ
  pub text_start : Option ℕ
  pub look : Appearance
  pub found : Analysis

-- Is a code among the cases of a switch?
unfoldable pub among : ℕ → List ℕ → Bool
among c [] = false
among c (d ∷ ds) = (c == d) || among c ds

abbrev pub insertion_of : State → ℕ
insertion_of s = length s.found.text % 65536

-- `finish_text`.
unfoldable pub finish_text : State → State
finish_text s = elim s.text_start [
  | none ↦ s
  | some start ↦ if s.content == start then s else record s {
    text_start = none;
    look = record s.look { paragraph = false };
    found = record s.found {
      text = s.found.text ++ (record { look = s.look; begin = start; end = s.content } ∷ []);
    };
  }
]
