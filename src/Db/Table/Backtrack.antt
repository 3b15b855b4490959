-- ===== src/Db/Table/Backtrack.antt =====
-- core/raddi_database_table.tcc, `unsynchronized_get_shard`: the base of a shard for an entry
-- older than the first shard.
use raddi.Base.{
  ℕ, zero, suc, ◌+◌, ◌-◌, ◌*◌, ◌%◌, ◌≤◌, ◌<◌, none, some, ltb, true, ◌≡◌, refl, arith, ltb→lt,
  false, Bool-cases, inl, inr,
}
use raddi.Time.{u32, sub32}
use raddi.Db.Table.{backtrack_base}

covers :
    (fuel steps granularity timestamp ts : ℕ)
    → 0 < granularity
    → steps * granularity ≤ ts
    → ts ≤ timestamp + steps * granularity
    → ts < u32
    → ts < fuel
    → (b : ℕ) × (backtrack_base fuel granularity timestamp ts ≡ some b)
      × (b ≤ timestamp)
      × (timestamp < ts → timestamp < b + granularity)
      × (ts ≤ timestamp → b ≡ ts)
unfolding backtrack_base
covers zero steps g t ts p q r w f = ground arith
covers (suc fuel) zero g t ts p q r w f =
    let off : ltb t ts ≡ false = ground arith in
    (ts, rw off refl, ground arith, (λ m. ground arith), λ m. refl)
covers (suc fuel) (suc steps) g t ts p q r w f = elim (Bool-cases (ltb t ts)) [
  | inl h ↦
      let more : t < ts = ltb→lt t ts h in
      let one : suc steps * g ≡ g + steps * g = omega arith in
      let down : sub32 ts g ≡ ts - g = ground (arith, one) in
      let rest =
        covers fuel steps g t (sub32 ts g) p (omega (arith, one, down)) (omega (arith, one, down))
          (omega (arith, down)) (omega (arith, down)) in
      let on = rest.3 in
      let off = rest.4 in
      (rest.0, rw h (rest.1), rest.2, (λ m. ground (arith, down)), λ m. ground arith)
  | inr h ↦ (ts, rw h refl, ground arith, (λ m. ground arith), λ m. refl)
]

-- Where a number of steps back from the first base reaches the timestamp without passing below zero, enough
-- fuel gives a base whose shard, as long as the granularity, covers the timestamp: the base is at most the
-- timestamp and less than the granularity below it.
pub backtrack_covers :
    (steps granularity timestamp ts : ℕ)
    → 0 < granularity
    → steps * granularity ≤ ts
    → ts ≤ timestamp + steps * granularity
    → timestamp < ts
    → ts < u32
    → (b : ℕ) × (backtrack_base u32 granularity timestamp ts ≡ some b)
      × (b ≤ timestamp)
      × (timestamp < b + granularity)
backtrack_covers n g t ts p q r m w =
    let c = covers u32 n g t ts p q r w w in (c.0, c.1, c.2, c.3 m)

-- With a granularity that is a multiple of 512 seconds, as the default of 345600 is, the loop
-- never ends, whatever the fuel, if the timestamp is less than the first base modulo 512: the subtraction wraps around.
pub backtrack_diverges :
    (fuel k timestamp ts : ℕ)
    → k < 0x80_0000
    → timestamp < ts % 512
    → backtrack_base fuel (512 * k) timestamp ts ≡ none
unfolding backtrack_base
backtrack_diverges zero k t ts p q = refl
backtrack_diverges (suc fuel) k t ts p q =
    let above : ltb t ts ≡ true = ground arith in
    rw above (backtrack_diverges fuel k t (sub32 ts (512 * k)) p (ground arith))
