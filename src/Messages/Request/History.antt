-- ===== src/Messages/Request/History.antt =====
-- core/raddi_request.h and core/raddi_request.tcc: the sizes of a history, and the ranges it decodes to.
use raddi.Base.{
  ℕ, ◌+◌, ◌-◌, ◌≤◌, ◌<◌, Bool, true, ◌&&◌, List, [], ◌∷◌, leb, ◌==◌, ◌≡◌, ◌↔◌, refl, arith,
}
use raddi.Time.{u32, sub32}
use raddi.Messages.Request.{
  depth, history_length, history_size, is_valid_size, Span, Range, decode_from,
}

-- The size of a history of `n` spans, which is valid just when there are at most `depth` of them, gives
-- back the number of spans.
pub length-size :
    (reduction n : ℕ)
    → reduction ≤ 100
    → (history_length (history_size n) ≡ n)
      × ((is_valid_size reduction (history_size n) ≡ true) ↔ (n ≤ depth reduction))
unfolding history_length history_size is_valid_size depth
length-size reduction n r = (ground arith, (λ h. ground arith, λ h. ground arith))

-- Do the ranges follow each other without gap, each ending before the time given?
unfoldable pub consecutive : ℕ → List Range → Bool
consecutive t [] = true
consecutive t (r ∷ rs) = (r.last + 1 == t) && (leb r.first r.last && consecutive r.first rs)

-- The time that spans go back by.
unfoldable pub reach : List Span → ℕ
reach [] = 0
reach (s ∷ ss) = s.threshold + 1 + reach ss

-- Where the spans do not reach back beyond the time zero, the decoded ranges are not empty and follow
-- each other without gap or overlap, back from the threshold.
decode-consecutive :
    (t : ℕ) (spans : List Span)
    → t < u32
    → reach spans ≤ t
    → consecutive t (decode_from t spans) ≡ true
unfolding consecutive decode_from reach
decode-consecutive t [] w h = refl
decode-consecutive t (s ∷ ss) w h =
    let step : sub32 t (s.threshold + 1) ≡ t - (s.threshold + 1) = ground arith in
    let before : sub32 t 1 ≡ t - 1 = ground arith in
    let rest = decode-consecutive (t - (s.threshold + 1)) ss (omega arith) (omega arith) in
    ground (arith, step, before, rest)
