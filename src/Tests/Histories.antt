-- ===== src/Tests/Histories.antt =====
-- core/raddi_coordinator.cpp: histories at small data.
use raddi.Base.{ℕ, ◌<◌, true, false, ◌||◌, List, [], ◌∷◌, ◌≡◌, refl, arith}
use raddi.Time.{u32, u64, sub32}
use raddi.Messages.Request.{Range, decode_from}
use raddi.Coordinator.History.{
  Group, Gathered, identities, channels, closed, encode, old_enough, report_table_history,
  process_table_history,
}
use raddi.Coordinator.History.Counts.{IsAscending, total}
use raddi.Coordinator.History.Reported.{
  gathered, is_narrow, ranges, decode-report_table_history, decode_wide,
}
use raddi.Coordinator.History.Answer.{sends, has_already, process_table_history_lem, ancient_unsent}

abbrev shards : List (ℕ × ℕ)
shards = (10, 5) ∷ (20, 3) ∷ (90000, 7) ∷ (95000, 2) ∷ (99999, 1) ∷ []

abbrev old : List (ℕ × ℕ)
old = (10, 5) ∷ (20, 3) ∷ (90000, 7) ∷ (95000, 2) ∷ []

before_limit : old_enough (sub32 100000 3600) shards ≡ old
unfolding old_enough raddi.Time.older
before_limit = refl

old_ascend : IsAscending 0 (old_enough (sub32 100000 3600) shards)
unfolding old_enough raddi.Time.older
old_ascend = (
  omega arith,
  omega arith,
  (omega arith, omega arith, (omega arith, omega arith, (omega arith, omega arith, tt))),
)

old_few : total 0 u32 (old_enough (sub32 100000 3600) shards) < u64
unfolding old_enough raddi.Time.older total
old_few = omega arith

narrow :
    is_narrow (gathered 100000 3600 shards).threshold (closed (gathered 100000 3600 shards)) ≡ true
unfolding is_narrow old_enough raddi.Time.older raddi.Coordinator.History.gather
    raddi.Messages.Request.depth raddi.Coordinator.History.accumulate
narrow = refl

decode-report_table_history_example :
    decode_from
      (report_table_history 100000 3600 shards).threshold
      (report_table_history 100000 3600 shards).spans
    ≡ ranges
        (λ lo hi. total lo hi (old_enough (sub32 100000 3600) shards))
        (gathered 100000 3600 shards).threshold
        (closed (gathered 100000 3600 shards))
decode-report_table_history_example =
    decode-report_table_history 100000 3600 shards old_ascend old_few narrow

decode_wide_example :
    (r : Range) × (rs : List Range) × (decode_from 40_000_000
        (encode 40_000_000 (record { start = 9; number = 4 } ∷ []))
      ≡ r ∷ rs)
    × (9 < r.first)
    × (r.last ≡ 39_999_999)
decode_wide_example =
    decode_wide 40_000_000 (record { start = 9; number = 4 }) [] (omega arith) (omega arith)

abbrev range : ℕ → ℕ → ℕ → Range
range first last number = record { first = first; last = last; number = number }

process_table_history_lem_example :
    (sends identities
        (process_table_history identities 9000
          (λ lo hi. 3)
          400
          (range 100 199 2 ∷ range 200 399 8 ∷ []))
        150
      || has_already (λ lo hi. 3) (range 100 199 2 ∷ range 200 399 8 ∷ []) 150)
    ≡ true
process_table_history_lem_example =
    process_table_history_lem identities 9000 (λ lo hi. 3) 400 (range 100 199 2)
      (range 200 399 8 ∷ []) 150 (refl, omega arith, (refl, omega arith, refl)) (omega arith)
      (omega arith) (omega arith)

ancient_unsent_example :
    sends channels
      (process_table_history channels 9000
        (λ lo hi. 3)
        400
        (range 100 199 2 ∷ range 200 399 8 ∷ []))
      50
    ≡ false
ancient_unsent_example =
    ancient_unsent 9000 (λ lo hi. 3) 400 (range 100 199 2) (range 200 399 8 ∷ []) 50
      (refl, omega arith, (refl, omega arith, refl)) (omega arith) (omega arith)
