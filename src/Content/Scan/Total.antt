-- ===== src/Content/Scan/Total.antt =====
-- core/raddi_content.cpp: the loop of `content::analyze`, round by round.
use raddi.Base.{
  ℕ, zero, suc, ◌+◌, ◌<◌, List, none, some, length, ◌==◌, ◌≡◌, refl, arith, Bool-cases, inl, inr,
}
use raddi.Content.{State, finish_text, Analysis}
use raddi.Content.Scan.{separate, push_mark, single, interpret, scan, analyze}
use raddi.Content.Operands.Steps.{
  Advances, get_elem?-some, skip-Advances, token-Advances, stamp-Advances, escape-Advances,
  attachment-Advances,
}

single_stays :
    (c : ℕ) (s : State) → ((single c s).content ≡ s.content) × ((single c s).left ≡ s.left)
unfolding single push_mark
single_stays c s = (ground arith, ground arith)

interpret-Advances :
    (bytes : List ℕ) (c : ℕ) (s : State)
    → s.content + s.left ≡ length bytes
    → 0 < s.left
    → Advances bytes s (interpret bytes c s)
unfolding interpret
interpret-Advances bytes c s e p =
    let stays = single_stays c s in
    let place : (single c s).content ≡ s.content = stays.0 in
    let same : (single c s).left ≡ s.left = stays.1 in
    ground (
      arith,
      token-Advances bytes c s e p,
      stamp-Advances bytes c s e p,
      escape-Advances bytes s e p,
      attachment-Advances bytes c s e p,
      skip-Advances bytes 1 s (single c s) (omega arith) (omega arith) (omega arith) (omega arith),
    )

separate_stays :
    (c : ℕ) (s : State) → ((separate c s).content ≡ s.content) × ((separate c s).left ≡ s.left)
unfolding separate finish_text
separate_stays c s =
    elim s.text_start
        as (λ o.
          o ≡ s.text_start
          → ((separate c s).content ≡ s.content) × ((separate c s).left ≡ s.left)) [
            | none ↦ λ h. (ground arith, ground arith)
            | some b ↦ λ h. (ground arith, ground arith)
          ]
      refl

scan-some :
    (fuel : ℕ) (bytes : List ℕ) (s : State)
    → s.content + s.left ≡ length bytes
    → s.left < fuel
    → (a : Analysis) × (scan fuel bytes s ≡ some a)
unfolding scan Advances
scan-some zero bytes s e l = ground arith
scan-some (suc fuel) bytes s e l = elim (Bool-cases (s.left == 0)) [
  | inl z ↦ ((finish_text s).found, rw z)
  | inr z ↦
      let more : 0 < s.left = ground arith in
      let c = get_elem?-some bytes s.content (omega arith) in
      let stays = separate_stays c.0 s in
      let place : (separate c.0 s).content ≡ s.content = stays.0 in
      let same : (separate c.0 s).left ≡ s.left = stays.1 in
      let t = interpret-Advances bytes c.0 (separate c.0 s) (omega arith) (omega arith) in
      let less = t.3 in
      let rest = scan-some fuel bytes t.0 t.2 (omega arith) in
      elim (Bool-cases (c.0 == 0)) [
        | inl n ↦ (record (finish_text s).found { padding = s.left }, rw (z, c.1, n))
        | inr n ↦ (rest.0, rw (z, c.1, n, t.1, rest.1))
      ]
]

-- The analysis of any content ends, never reads outside the content, and never moves its cursor past
-- the end: it gives a result.
pub analyze_total : (bytes : List ℕ) → (a : Analysis) × (analyze bytes ≡ some a)
unfolding analyze
analyze_total bytes = scan-some (suc (length bytes)) bytes _ (omega arith) (omega arith)
