-- ===== src/Time/Order.antt =====
-- core/raddi_timestamp.h: `older` as an order.
use raddi.Base.{ℕ, ◌<◌, ◌≡◌, ◌⊎◌, ◌↔◌, true, false, arith}
use raddi.Time.{u32, add32, sub32, older}

-- No two times are each older than the other, and the only distinct times that are not ordered
-- stand exactly half the circle apart.
pub older_trichotomy :
    (a b : ℕ)
    → a < u32
    → b < u32
    → (older a b ≡ true → older b a ≡ false)
      × (older a b ≡ false → older b a ≡ false → (a ≡ b) ⊎ (sub32 a b ≡ 0x8000_0000))
unfolding older
older_trichotomy a b ha hb = (λ h. ground arith, λ h k. ground arith)

-- Within a window of less than half the circle, started anywhere, `older` is the order of the
-- distances from its start, also where the window runs over the wrap-around.
older_window :
    (start a b : ℕ)
    → start < u32
    → a < 0x8000_0000
    → b < 0x8000_0000
    → (older (add32 start a) (add32 start b) ≡ true) ↔ (a < b)
unfolding older
older_window start a b hs ha hb = (λ h. ground arith, λ h. ground arith)
