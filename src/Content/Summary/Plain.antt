-- ===== src/Content/Summary/Plain.antt =====
-- core/raddi_content.cpp: `is_plain_line` against `analyze`.
use raddi.Base.{
  ℕ, zero, suc, ◌+◌, ◌-◌, ◌<◌, Bool, true, false, ◌&&◌, not, List, [], ◌∷◌, none, some, length,
  drop, get_elem?, leb, ◌==◌, ◌≡◌, refl, ◌∙◌, arith,
}
use raddi.Content.{State, Analysis, empty_analysis, plain, finish_text, among}
use raddi.Content.Operands.{skip}
use raddi.Content.Scan.{separate, single, interpret, scan, analyze}
use raddi.Content.Summary.{plain_from, is_plain_line}

-- A byte of text.
abbrev is_text : ℕ → Bool
is_text b = not (leb b 0x1F) && (not (b == 0x7F) && not (leb 0xF8 b))

drop_cons :
    (k : ℕ) (xs : List ℕ) (b : ℕ) (bs : List ℕ)
    → drop k xs ≡ b ∷ bs
    → (get_elem? xs k ≡ some b) × (drop (suc k) xs ≡ bs)
drop_cons zero [] b bs h = ground (arith, h)
drop_cons (suc k) [] b bs h = ground (arith, h)
drop_cons zero (x ∷ xs) b bs h = (ground (arith, h), ground (arith, h))
drop_cons (suc k) (x ∷ xs) b bs h = drop_cons k xs b bs h

plain_from_cons :
    (i b : ℕ) (bs : List ℕ)
    → plain_from i (b ∷ bs) ≡ i + length (b ∷ bs)
    → (is_text b ≡ true) × (plain_from (i + 1) bs ≡ i + 1 + length bs)
unfolding plain_from
plain_from_cons i b bs h = (ground (arith, h), ground (arith, h))

single_text : (b : ℕ) (s : State) → is_text b ≡ true → single b s ≡ s
unfolding single among
single_text b s h = ground (arith, h)

interpret_text :
    (bytes : List ℕ) (b : ℕ) (s : State) → is_text b ≡ true → interpret bytes b s ≡ skip 1 s
unfolding interpret among
interpret_text bytes b s h = ground (arith, h, single_text b s h)

abbrev reading : ℕ → ℕ → State
reading k n = record {
  content = k;
  left = n;
  text_start = some 0;
  look = plain;
  found = empty_analysis;
}

abbrev pub one_text : ℕ → Analysis
one_text n = record empty_analysis { text = record { look = plain; begin = 0; end = n } ∷ [] }

separate_text : (b k n : ℕ) → is_text b ≡ true → separate b (reading k n) ≡ reading k n
unfolding separate
separate_text b k n h = ground (arith, h)

succ_lem : (k : ℕ) → k + 1 ≡ suc k
succ_lem k = omega arith

skip_byte : (k n : ℕ) → skip 1 (reading k (suc n)) ≡ some (reading (k + 1) n)
unfolding skip
skip_byte k n =
    let fits : leb 1 (suc n) ≡ true = ground arith in
    let less : suc n - 1 ≡ n = omega arith in rw (fits, less)

text_step :
    (bytes : List ℕ) (b k n : ℕ) (s : State)
    → is_text b ≡ true
    → separate b s ≡ reading k (suc n)
    → interpret bytes b (separate b s) ≡ some (reading (k + 1) n)
text_step bytes b k n s h e = rw e (interpret_text bytes b (reading k (suc n)) h ∙ skip_byte k n)

scan_text :
    (fuel : ℕ) (bytes bs : List ℕ) (k : ℕ)
    → drop k bytes ≡ bs
    → 0 < k
    → length bs < fuel
    → plain_from k bs ≡ k + length bs
    → scan fuel bytes (reading k (length bs)) ≡ some (one_text (k + length bs))
unfolding scan finish_text
scan_text zero bytes bs k d p l h = ground arith
scan_text (suc fuel) bytes [] k d p l h =
    let more : (k == 0) ≡ false = ground arith in
    let end : k + 0 ≡ k = omega arith in rw (more, end)
scan_text (suc fuel) bytes (b ∷ bs) k d p l h =
    let at = drop_cons k bytes b bs d in
    let text = plain_from_cons k b bs h in
    let next : drop (k + 1) bytes ≡ bs = rw (succ_lem k) (at.1) in
    let rest = scan_text fuel bytes bs (k + 1) next (omega arith) (omega arith) text.1 in
    let some_left : (suc (length bs) == 0) ≡ false = ground arith in
    let byte : (b == 0) ≡ false = ground (arith, text.0) in
    let step =
      text_step bytes b k (length bs) (reading k (suc (length bs))) text.0
        (separate_text b k (suc (length bs)) text.0) in
    let end : k + suc (length bs) ≡ k + 1 + length bs = omega arith in
    rw (some_left, at.0, byte, step, end) rest

abbrev start : ℕ → State
start n = record { content = 0; left = n; text_start = none; look = plain; found = empty_analysis }

start_text : (b n : ℕ) → is_text b ≡ true → separate b (start n) ≡ reading 0 n
unfolding separate
start_text b n h = ground (arith, h)

-- Content that `is_plain_line` takes for one line up to its end, and that is not empty, is analyzed as one
-- text from the first byte to the last, without formatting, marks or anything else.
pub analyze-is_plain_line :
    (bytes : List ℕ)
    → 0 < length bytes
    → is_plain_line bytes ≡ length bytes
    → analyze bytes ≡ some (one_text (length bytes))
unfolding analyze scan is_plain_line
analyze-is_plain_line [] p h = ground arith
analyze-is_plain_line (b ∷ bs) p h =
    let text = plain_from_cons 0 b bs (h ∙ omega arith) in
    let rest =
      scan_text (suc (length bs)) (b ∷ bs) bs 1 refl (omega arith) (omega arith)
        (text.1 ∙ omega arith) in
    let some_left : (suc (length bs) == 0) ≡ false = ground arith in
    let byte : (b == 0) ≡ false = ground (arith, text.0) in
    let step =
      text_step (b ∷ bs) b 0 (length bs) (start (suc (length bs))) text.0
        (start_text b (suc (length bs)) text.0) in
    let end : suc (length bs) ≡ 1 + length bs = omega arith in rw (some_left, byte, step, end) rest
