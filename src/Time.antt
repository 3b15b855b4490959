-- ===== src/Time.antt =====
-- core/raddi_timestamp.h and core/raddi_timestamp.cpp: seconds since the start of 2020 in 32 bits,
-- their conversion from and to Windows file times, and the order that allows for the wrap-around.
pub mod Order
pub mod Conversion
use raddi.Base.{ℕ, ◌+◌, ◌-◌, ◌*◌, ◌/◌, ◌%◌, ◌^◌, ◌<◌, Bool, ltb}

abbrev pub u32 : ℕ
u32 = 0x1_0000_0000

abbrev pub u64 : ℕ
u64 = 0x1_0000_0000_0000_0000

-- Addition and subtraction of `std::uint32_t`.
abbrev pub add32 : ℕ → ℕ → ℕ
add32 a b = (a + b) % u32

abbrev pub sub32 : ℕ → ℕ → ℕ
sub32 a b = (a + (u32 - b)) % u32

-- `timestamp_base`, in seconds since 1601.
abbrev pub timestamp_base : ℕ
timestamp_base = 0x3_141c_7200

-- `older`: is `timestamp` before `reference` on the circle of 32-bit times.
unfoldable pub older : ℕ → ℕ → Bool
older timestamp reference = ltb 0x8000_0000 (sub32 timestamp reference)

-- `older` of microseconds, in 64 bits.
unfoldable pub older64 : ℕ → ℕ → Bool
older64 timestamp reference = ltb 0x8000_0000_0000_0000 ((timestamp + (u64 - reference)) % u64)

-- `timestamp ()` at a file time, in units of 100 ns: the unsigned difference in 64 bits, cut to 32.
unfoldable pub timestamp : ℕ → ℕ
timestamp ns = ((ns / 10_000_000 + (u64 - timestamp_base)) % u64) % u32

-- `microtimestamp ()` at a file time.
unfoldable pub microtimestamp : ℕ → ℕ
microtimestamp ns = (ns / 10 + (u64 - timestamp_base * 1_000_000)) % u64

-- The file time that `wintime` computes for a timestamp, and for a time in microseconds.
unfoldable pub wintime : ℕ → ℕ
wintime t = ((t + timestamp_base) % u64 * 10_000_000) % u64

unfoldable pub microwintime : ℕ → ℕ
microwintime t = ((t * 10) % u64 + (timestamp_base * 10_000_000) % u64) % u64
