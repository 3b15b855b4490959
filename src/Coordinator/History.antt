-- ===== src/Coordinator/History.antt =====
-- core/raddi_coordinator.cpp: the history of what a node has, which it sends to a peer, and what the
-- peer sends back for it. The arrays `thresholds` and `numbers` are one list, the last element first;
-- a `std::size_t` has 64 bits. Reports to the log are left out.
pub mod Counts
pub mod Reported
pub mod Answer
use raddi.Base.{
  ℕ, zero, suc, ◌+◌, ◌-◌, ◌/◌, ◌%◌, Bool, true, false, not, List, [], ◌∷◌, ◌++◌, length, drop, min,
  ltb, leb, ◌==◌, if◌then◌else◌,
}
use raddi.Time.{u64, add32, sub32, older}
use raddi.Messages.Request.{Span, Range, decode_from, history_size, depth}

-- `thresholds [i]` and `numbers [i]`.
pub record Group : Type 0 where
  pub start : ℕ
  pub number : ℕ

-- The state of the accumulation; `first_iteration` holds as long as there is no group.
pub record Gathered : Type 0 where
  pub threshold : ℕ
  pub groups : List Group
  pub length : ℕ

abbrev pub nothing : Gathered
nothing = record { threshold = 0; groups = []; length = 0 }

-- The first iteration sets the threshold, and the first number to -1.
unfoldable pub begin : ℕ → Gathered → Gathered
begin t g = elim g.groups [
  | [] ↦ record {
    threshold = t;
    groups = record { start = t; number = u64 - 1 } ∷ [];
    length = g.length;
  }
  | x ∷ xs ↦ g
]

-- `numbers [length] += n`.
unfoldable pub add_number : ℕ → List Group → List Group
add_number n [] = []
add_number n (x ∷ xs) = record x { number = (x.number + n) % u64 } ∷ xs

-- One shard, or one entry, of `n` entries from the time `t`: the state, and whether to go on. `scale`
-- divides the age that a group may span.
unfoldable pub accumulate : ℕ → ℕ → ℕ → ℕ → ℕ → Gathered → Gathered × Bool
unfolding begin add_number
accumulate scale max_length now t n g0 =
    let g = begin t g0 in
    let limit = add32 g.threshold (sub32 now g.threshold / scale + 1) in
    if older t limit
    then (record g { groups = add_number n g.groups }, true)
    else if ltb (suc g.length) max_length
    then (
      record {
        threshold = t;
        groups = record { start = t; number = (n + (u64 - 1)) % u64 } ∷ g.groups;
        length = suc g.length;
      },
      true,
    )
    else (record g { threshold = t; length = suc g.length }, false)

-- The enumeration of shards, of their bases and sizes, or of entries, until the history is full.
unfoldable pub gather : ℕ → ℕ → ℕ → List (ℕ × ℕ) → Gathered → Gathered
gather scale max_length now [] g = g
gather scale max_length now ((t, n) ∷ rest) g =
    let (h, go_on) = accumulate scale max_length now t n g in
    let more = gather scale max_length now rest h in if go_on then more else h

-- The shards before the first that is not old enough.
unfoldable pub old_enough : ℕ → List (ℕ × ℕ) → List (ℕ × ℕ)
old_enough limit [] = []
old_enough limit ((t, n) ∷ rest) =
    let more = old_enough limit rest in if older t limit then (t, n) ∷ more else []

-- The loop that writes the spans, in three bytes each.
unfoldable pub encode : ℕ → List Group → List Span
encode tx [] = []
encode tx (x ∷ xs) =
    record { threshold = sub32 (sub32 tx x.start) 1 % 0x100_0000; number = min x.number 0xFF_FFFF }
    ∷ encode x.start xs

-- The groups that are sent, those below `length`.
abbrev pub closed : Gathered → List Group
closed g = drop (length g.groups - g.length) g.groups

-- A history as it is sent, its spans from the last of the array, and its size in bytes.
pub record Report : Type 0 where
  pub threshold : ℕ
  pub spans : List Span
  pub size : ℕ

unfoldable pub report : ℕ → Gathered → Report
report everything g = record {
  threshold = if g.length == 0 then everything else g.threshold;
  spans = encode g.threshold (closed g);
  size = history_size g.length;
}

-- `report_table_history`, for the shards of a table in order.
unfoldable pub report_table_history : ℕ → ℕ → List (ℕ × ℕ) → Report
report_table_history now base_offset shards =
    report 0 (gather 4 (depth 0) now (old_enough (sub32 now base_offset) shards) nothing)

-- `gather_history`, for the times of the entries of a channel that `select` finds.
unfoldable pub singles : List ℕ → List (ℕ × ℕ)
singles [] = []
singles (t ∷ ts) = (t, 1) ∷ singles ts

unfoldable pub gather_history : ℕ → ℕ → List ℕ → Report
unfolding singles
gather_history now synchronization_threshold times =
    report (sub32 now synchronization_threshold) (gather 3 (depth 12) now (singles times) nothing)

-- The two tables whose histories are exchanged.
pub data Table : Type 0 where
  identities : Table
  channels : Table

-- What `process_table_history` selects from a table and sends.
pub record Sent : Type 0 where
  pub table : Table
  pub first : ℕ
  pub last : ℕ

-- The loop over the decoded ranges, which a map holds from the earliest.
unfoldable pub compare_ranges : Table → (ℕ → ℕ → ℕ) → List Range → List Sent
compare_ranges table count [] = []
compare_ranges table count (r ∷ rs) =
    let rest = compare_ranges table count rs in
    if ltb r.number (count r.first r.last)
    then record { table = table; first = r.first; last = r.last } ∷ rest
    else rest

-- The start of what is sent.
unfoldable pub origin_of : List Range → ℕ
origin_of [] = 0
origin_of (r ∷ rs) = if ltb 0x7000_0000 r.first then r.first - 0x7000_0000 else 0

-- `process_table_history` of a table: what it selects, by the table's `count`, the threshold and the
-- ranges.
unfoldable pub process_table_history : Table → ℕ → (ℕ → ℕ → ℕ) → ℕ → List Range → List Sent
process_table_history table now count threshold ranges =
    let origin = origin_of ranges in
    let recent : Sent = record {
      table = table;
      first = if threshold == 0 then origin else threshold;
      last = now;
    } in
    elim ranges [
      | [] ↦ recent ∷ []
      | r ∷ rs ↦
          let ancient =
            if count origin (sub32 r.first 1) == 0
            then []
            else record { table = identities; first = origin; last = sub32 r.first 1 } ∷ [] in
          ancient ++ (compare_ranges table count (r ∷ rs) ++ (recent ∷ []))
    ]
