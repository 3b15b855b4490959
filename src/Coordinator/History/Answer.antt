-- ===== src/Coordinator/History/Answer.antt =====
-- core/raddi_coordinator.cpp: what a peer's history is answered with.
use raddi.Base.{
  ℕ, suc, ◌≤◌, ◌<◌, Bool, true, false, ◌&&◌, ◌||◌, List, [], ◌∷◌, ◌++◌, ltb, leb, ◌==◌, ◌≡◌, ◌≢◌,
  refl, arith, inl, inr, Bool-cases, if◌then◌else◌, ◌∙◌,
}
use raddi.Time.{sub32}
use raddi.Messages.Request.{Range}
use raddi.Coordinator.History.{
  Sent, Table, identities, channels, compare_ranges, origin_of, process_table_history,
}

abbrev within : ℕ → ℕ → ℕ → Bool
within x first last = leb first x && leb x last

abbrev same_table : Table → Table → Bool
same_table identities identities = true
same_table channels channels = true
same_table _ _ = false

same_table_self : (w : Table) → same_table w w ≡ true
same_table_self identities = refl
same_table_self channels = refl

-- Is a time among those that are selected from a table?
unfoldable pub sends : Table → List Sent → ℕ → Bool
sends w [] x = false
sends w (s ∷ ss) x = (same_table s.table w && within x s.first s.last) || sends w ss x

-- Is a time in a range of which the peer has as many entries as the table?
unfoldable pub has_already : (ℕ → ℕ → ℕ) → List Range → ℕ → Bool
has_already count [] x = false
has_already count (r ∷ rs) x =
    (within x r.first r.last && leb (count r.first r.last) r.number) || has_already count rs x

-- Ranges from a time up to a threshold, without gap.
abbrev pub IsUpTo : ℕ → ℕ → List Range → Type 0
IsUpTo first threshold [] = first ≡ threshold
IsUpTo first threshold (r ∷ rs) =
    (r.first ≡ first) × (first ≤ r.last) × IsUpTo (suc r.last) threshold rs

compared :
    (w : Table) (count : ℕ → ℕ → ℕ) (now first threshold x : ℕ) (rs : List Range)
    → IsUpTo first threshold rs
    → first ≤ x
    → x ≤ now
    → (sends w
          (compare_ranges w count rs ++ (record { table = w; first = threshold; last = now } ∷ []))
          x
        || has_already count rs x)
      ≡ true
unfolding sends has_already compare_ranges
compared w count now first threshold x [] u h l = ground (arith, same_table_self w, u, h, l)
compared w count now first threshold x (r ∷ rs) u h l = elim (Bool-cases (leb x r.last)) [
  | inl e ↦ elim (Bool-cases (ltb r.number (count r.first r.last))) [
    | inl s ↦ ground (arith, same_table_self w, e, s, u.0, h)
    | inr s ↦ ground (arith, same_table_self w, e, s, u.0, h)
  ]
  | inr e ↦
      let rest = compared w count now (suc r.last) threshold x rs u.2 (ground (arith, e)) l in
      elim (Bool-cases (ltb r.number (count r.first r.last))) [
        | inl s ↦ ground (arith, e, s, rest)
        | inr s ↦ ground (arith, e, s, rest)
      ]
]

abbrev ancient_part : (c : Bool) (first last : ℕ) → List Sent
ancient_part c first last =
    if c then [] else record { table = identities; first = first; last = last } ∷ []

ancient_silent :
    (c : Bool) (first last : ℕ) (ts : List Sent) (x : ℕ)
    → sends channels (ancient_part c first last ++ ts) x ≡ sends channels ts x
unfolding sends
ancient_silent true f l ts x = refl
ancient_silent false f l ts x = refl

sends_behind :
    (w : Table) (c : Bool) (first last : ℕ) (ts : List Sent) (x : ℕ) (b : Bool)
    → (sends w ts x || b) ≡ true
    → (sends w (ancient_part c first last ++ ts) x || b) ≡ true
unfolding sends
sends_behind w true f l ts x b h = h
sends_behind w false f l ts x b h = ground (arith, h)

-- From the first range of a history on, every time up to now is either selected from the table, or lies
-- in a range of which the peer announced at least as many entries as the table has. The ranges follow
-- each other without gap up to the threshold, which is not 0.
pub process_table_history_lem :
    (w : Table) (now : ℕ) (count : ℕ → ℕ → ℕ) (threshold : ℕ) (r : Range) (rs : List Range) (x : ℕ)
    → IsUpTo r.first threshold (r ∷ rs)
    → threshold ≢ 0
    → r.first ≤ x
    → x ≤ now
    → (sends w (process_table_history w now count threshold (r ∷ rs)) x
        || has_already count (r ∷ rs) x)
      ≡ true
unfolding process_table_history
process_table_history_lem w now count threshold r rs x u t h l =
    let late : (threshold == 0) ≡ false = ground (arith, t) in
    let main = compared w count now r.first threshold x (r ∷ rs) u h l in
    let ancient = count (origin_of (r ∷ rs)) (sub32 r.first 1) == 0 in
    let rest =
      compare_ranges w count (r ∷ rs)
      ++ (record { table = w; first = threshold; last = now } ∷ []) in
    rw late (
      sends_behind w ancient (origin_of (r ∷ rs)) (sub32 r.first 1) rest x
        (has_already count (r ∷ rs) x) main)

early_silent :
    (count : ℕ → ℕ → ℕ) (now first threshold x : ℕ) (rs : List Range)
    → IsUpTo first threshold rs
    → x < first
    → sends channels
        (compare_ranges channels count rs
          ++ (record { table = channels; first = threshold; last = now } ∷ []))
        x
      ≡ false
unfolding sends compare_ranges
early_silent count now first threshold x [] u h = ground (arith, u, h)
early_silent count now first threshold x (r ∷ rs) u h =
    let rest = early_silent count now (suc r.last) threshold x rs u.2 (omega (arith, u.1, h)) in
    elim (Bool-cases (ltb r.number (count r.first r.last))) [
      | inl s ↦ ground (arith, s, u.0, h, rest)
      | inr s ↦ ground (arith, s, rest)
    ]

-- What the table of channels has from before the first range of a history is never selected from that table,
-- whatever the counts. The ranges follow each other without gap up to the threshold, which is not 0.
pub ancient_unsent :
    (now : ℕ) (count : ℕ → ℕ → ℕ) (threshold : ℕ) (r : Range) (rs : List Range) (x : ℕ)
    → IsUpTo r.first threshold (r ∷ rs)
    → threshold ≢ 0
    → x < r.first
    → sends channels (process_table_history channels now count threshold (r ∷ rs)) x ≡ false
unfolding process_table_history
ancient_unsent now count threshold r rs x u t h =
    let late : (threshold == 0) ≡ false = ground (arith, t) in
    let main = early_silent count now r.first threshold x (r ∷ rs) u h in
    let ancient = count (origin_of (r ∷ rs)) (sub32 r.first 1) == 0 in
    let rest =
      compare_ranges channels count (r ∷ rs)
      ++ (record { table = channels; first = threshold; last = now } ∷ []) in
    rw late (ancient_silent ancient (origin_of (r ∷ rs)) (sub32 r.first 1) rest x ∙ main)
