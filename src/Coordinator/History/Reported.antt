-- ===== src/Coordinator/History/Reported.antt =====
-- core/raddi_coordinator.cpp and core/raddi_request.tcc: what a peer decodes from a history.
use raddi.Base.{
  ℕ, suc, ◌+◌, ◌-◌, ◌%◌, ◌/◌, ◌≤◌, ◌<◌, min, Bool, true, ◌&&◌, List, [], ◌∷◌, length, ltb, leb,
  ◌==◌, if◌then◌else◌, ◌≡◌, refl, ap, ◌∙◌, arith, inl, inr, Bool-cases, drop_past,
}
use raddi.Time.{u32, u64, add32, sub32, older}
use raddi.Messages.Request.{Range, decode_from, depth}
use raddi.Coordinator.History.{
  Group, Gathered, nothing, begin, add_number, accumulate, gather, closed, encode, report,
  old_enough, report_table_history,
}
use raddi.Coordinator.History.Counts.{
  total, IsAscending, less_one, Counted, IsTallied, with_shard, IsOpen, gather-IsTallied,
  IsTallied-along,
}

-- The first shard's time is always before the limit that it sets.
first_joins : (now t d : ℕ) → t < u32 → d ≤ 0x4000_0000 → older t (add32 t (d + 1)) ≡ true
unfolding older
first_joins now t d w l = ground arith

abbrev seen_none : ℕ → ℕ → ℕ
seen_none lo hi = 0

-- The state after the first shard.
abbrev one_group : ℕ → ℕ → Gathered
one_group t n = record {
  threshold = t;
  groups = record { start = t; number = (u64 - 1 + n) % u64 } ∷ [];
  length = 0;
}

first_shard :
    (max_length now t n : ℕ)
    → t < u32
    → accumulate 4 max_length now t n nothing ≡ (one_group t n, true)
unfolding accumulate begin add_number
first_shard max_length now t n w =
    let joins = first_joins now t (sub32 now t / 4) w (omega arith) in rw joins refl

first-IsOpen :
    (t n : ℕ)
    → t < u32
    → IsOpen
        (with_shard t n seen_none)
        (suc t)
        (record { start = t; number = (u64 - 1 + n) % u64 })
        []
        (one_group t n)
first-IsOpen t n w = record {
  groups = refl;
  threshold = refl;
  length = refl;
  before = omega arith;
  number =
      λ hi m. let new : with_shard t n seen_none t hi ≡ n = ground (arith, m) in omega (arith, new);
  counted = tt;
  fresh = λ lo hi m. ground (arith, m);
  within = omega (arith, w);
}

gathered-IsTallied :
    (max_length now : ℕ) (shards : List (ℕ × ℕ))
    → IsAscending 0 shards
    → IsTallied (λ lo hi. total lo hi shards) (gather 4 max_length now shards nothing)
unfolding gather total
gathered-IsTallied max_length now [] a = record { counted = tt; within = omega arith }
gathered-IsTallied max_length now ((t, n) ∷ rest) a =
    rw (first_shard max_length now t n a.1, gather)
      (IsTallied-along (λ lo hi. with_shard t n seen_none lo hi + total lo hi rest)
        (λ lo hi. total lo hi ((t, n) ∷ rest)) (gather 4 max_length now rest (one_group t n))
        (λ lo hi. omega arith)
        (gather-IsTallied 4 max_length now rest (suc t) (with_shard t n seen_none)
          (record { start = t; number = (u64 - 1 + n) % u64 }) [] (one_group t n) a.2
          (first-IsOpen t n a.1)))

-- How a count is announced: from 2^24 on, and at 0, as the greatest number.
abbrev pub announced : ℕ → ℕ
announced n = if n == 0 then 0xFFFF_FFFF else if leb n 0xFF_FFFF then n else 0xFFFF_FFFF

-- No group spans more than 2^24 seconds.
unfoldable pub is_narrow : ℕ → List Group → Bool
is_narrow tx [] = true
is_narrow tx (g ∷ gs) = leb tx (g.start + 0x100_0000) && is_narrow g.start gs

span_back :
    (tx start : ℕ)
    → start < tx
    → tx < u32
    → tx ≤ start + 0x100_0000
    → sub32 (sub32 tx start) 1 % 0x100_0000 + 1 ≡ tx - start
span_back tx start l w n = omega arith

number_back :
    (c : ℕ)
    → c < u64
    → (if ltb (min (less_one c) 0xFF_FFFF) 0xFF_FFFF
        then min (less_one c) 0xFF_FFFF + 1
        else 0xFFFF_FFFF)
      ≡ announced c
number_back c w = ground arith

-- The ranges of closed groups, from the last.
abbrev pub ranges : (ℕ → ℕ → ℕ) → ℕ → List Group → List Range
ranges f tx [] = []
ranges f tx (g ∷ gs) =
    record { first = g.start; last = tx - 1; number = announced (f g.start tx) }
    ∷ ranges f g.start gs

cons_range :
    (a a' b b' n n' : ℕ) (rs rs' : List Range)
    → a ≡ a'
    → b ≡ b'
    → n ≡ n'
    → rs ≡ rs'
    → (record { first = a; last = b; number = n } ∷ rs)
      ≡ (record { first = a'; last = b'; number = n' } ∷ rs')
cons_range a a' b b' n n' rs rs' e1 e2 e3 e4 = rw (e1, e2, e3, e4) refl

abbrev restored : ℕ → ℕ
restored n = if ltb (min n 0xFF_FFFF) 0xFF_FFFF then min n 0xFF_FFFF + 1 else 0xFFFF_FFFF

decode-encode :
    (f : ℕ → ℕ → ℕ) (tx : ℕ) (gs : List Group)
    → tx < u32
    → ((lo hi : ℕ) → f lo hi < u64)
    → is_narrow tx gs ≡ true
    → Counted f tx gs
    → decode_from tx (encode tx gs) ≡ ranges f tx gs
unfolding decode_from encode is_narrow
decode-encode f tx [] w b n c = refl
decode-encode f tx (g ∷ gs) w b n c =
    let narrow : tx ≤ g.start + 0x100_0000 = ground (arith, n) in
    let back = span_back tx g.start c.0 w narrow in
    let rest = decode-encode f g.start gs (omega (arith, w, c.0)) b (ground (arith, n)) c.2 in
    let first : sub32 tx (tx - g.start) ≡ g.start = omega (arith, w, c.0) in
    let last : sub32 tx 1 ≡ tx - 1 = omega (arith, w, c.0) in
    let number = number_back (f g.start tx) (b g.start tx) in
    let start = ap (λ x. sub32 tx x) back ∙ first in
    cons_range (sub32 tx (sub32 (sub32 tx g.start) 1 % 0x100_0000 + 1)) g.start (sub32 tx 1)
      (tx - 1) (restored g.number) (announced (f g.start tx))
      (decode_from (sub32 tx (sub32 (sub32 tx g.start) 1 % 0x100_0000 + 1)) (encode g.start gs))
      (ranges f g.start gs) start last (ap restored c.1 ∙ number)
      (ap (λ x. decode_from x (encode g.start gs)) start ∙ rest)

decode-report :
    (f : ℕ → ℕ → ℕ) (g : Gathered)
    → IsTallied f g
    → ((lo hi : ℕ) → f lo hi < u64)
    → is_narrow g.threshold (closed g) ≡ true
    → decode_from (report 0 g).threshold (report 0 g).spans ≡ ranges f g.threshold (closed g)
unfolding report decode_from encode
decode-report f g t b n = elim (Bool-cases (g.length == 0)) [
  | inl z ↦
      let none_left : length g.groups ≤ length g.groups - g.length = ground (arith, z) in
      let nil : closed g ≡ [] = drop_past (length g.groups - g.length) g.groups none_left in
      rw (z, nil) refl
  | inr z ↦ rw z (decode-encode f g.threshold (closed g) t.within b n t.counted)
]

-- The entries of all the shards.
total_le :
    (lo hi next : ℕ) (shards : List (ℕ × ℕ))
    → IsAscending next shards
    → total lo hi shards ≤ total 0 u32 shards
unfolding total
total_le lo hi next [] a = omega arith
total_le lo hi next ((t, n) ∷ rest) a = ground (arith, a.1, total_le lo hi (suc t) rest a.2)

-- The accumulated history of a table.
abbrev pub gathered : ℕ → ℕ → List (ℕ × ℕ) → Gathered
gathered now base_offset shards =
    gather 4 (depth 0) now (old_enough (sub32 now base_offset) shards) nothing

-- A peer decodes from a table's history, back from its threshold, the ranges between the starts of the
-- groups, each with the count of the entries in shards whose base is in the range. Such a count is
-- announced as it is from 1 to 2^24 - 1, and else as 2^32 - 1. The bases ascend and have 32 bits, the
-- entries are fewer than 2^64, and no group spans more than 2^24 seconds.
pub decode-report_table_history :
    (now base_offset : ℕ) (shards : List (ℕ × ℕ))
    → IsAscending 0 (old_enough (sub32 now base_offset) shards)
    → total 0 u32 (old_enough (sub32 now base_offset) shards) < u64
    → is_narrow
        (gathered now base_offset shards).threshold
        (closed (gathered now base_offset shards))
      ≡ true
    → decode_from
        (report_table_history now base_offset shards).threshold
        (report_table_history now base_offset shards).spans
      ≡ ranges
          (λ lo hi. total lo hi (old_enough (sub32 now base_offset) shards))
          (gathered now base_offset shards).threshold
          (closed (gathered now base_offset shards))
unfolding report_table_history
decode-report_table_history now base_offset shards a b n =
    let old = old_enough (sub32 now base_offset) shards in
    let t = gathered-IsTallied (depth 0) now old a in
    decode-report (λ lo hi. total lo hi old) (gathered now base_offset shards) t
      (λ lo hi. omega (arith, total_le lo hi 0 old a, b)) n

-- A group that spans more than 2^24 seconds is decoded as a range that begins later than the group.
pub decode_wide :
    (tx : ℕ) (g : Group) (gs : List Group)
    → tx < u32
    → g.start + 0x100_0000 < tx
    → (r : Range) × (rs : List Range) × (decode_from tx (encode tx (g ∷ gs)) ≡ r ∷ rs)
      × (g.start < r.first)
      × (r.last ≡ tx - 1)
unfolding decode_from encode
decode_wide tx g gs w h =
    let st = sub32 (sub32 tx g.start) 1 % 0x100_0000 + 1 in
    (
      record { first = sub32 tx st; last = sub32 tx 1; number = restored g.number },
      decode_from (sub32 tx st) (encode g.start gs),
      refl,
      omega (arith, w, h),
      omega (arith, w, h),
    )
