-- ===== src/Time/Conversion.antt =====
-- The conversions between timestamps and file times.
use raddi.Base.{ℕ, ◌+◌, ◌*◌, ◌<◌, ◌≡◌, arith}
use raddi.Time.{u32, u64, timestamp_base, timestamp, microtimestamp, wintime, microwintime}

-- A timestamp survives the way through a file time, whatever part of its second the clock adds.
pub timestamp-wintime :
    (t part : ℕ) → t < u32 → part < 10_000_000 → timestamp (wintime t + part) ≡ t
unfolding timestamp wintime
timestamp-wintime t part h p = omega arith

-- A time in microseconds survives the way through a file time, as long as the file time fits 64 bits,
-- whatever part of its microsecond the clock adds.
pub microtimestamp-microwintime :
    (t part : ℕ)
    → t * 10 + timestamp_base * 10_000_000 + 10 < u64
    → part < 10
    → microtimestamp (microwintime t + part) ≡ t
unfolding microtimestamp microwintime
microtimestamp-microwintime t part h p = omega arith
