-- ===== src/Messages/Request/Window.antt =====
-- core/raddi_request.cpp: the time of a request, and the sizes of subscriptions.
use raddi.Base.{
  ℕ, ◌+◌, ◌-◌, ◌*◌, ◌/◌, ◌%◌, ◌≤◌, ◌<◌, true, false, List, length, ltb, ◌≡◌, ◌↔◌, arith,
}
use raddi.Time.{u32, add32, sub32, older}
use raddi.Messages.Request.{
  history_size, is_valid_size, minimal_size, max_payload, max_size, request_size, Request, validate,
  validate_content, validate_subscription,
}

not_too_old : (now d : ℕ) → now < u32 → d ≤ 240 → d ≤ now → older (now - d) (sub32 now 240) ≡ false
unfolding older
not_too_old now d w l m = ground arith

not_too_new : (now d : ℕ) → now < u32 → d ≤ 240 → d ≤ now → older (add32 now 180) (now - d) ≡ false
unfolding older
not_too_new now d w l m = ground arith

-- A request of an acceptable size, made at most 240 seconds ago, is judged by its content alone where
-- the low 24 bits of the clock have not wrapped around since it was made.
validate_recent :
    (now d : ℕ) (r : Request)
    → now < u32
    → d ≤ 240
    → d ≤ now % 0x100_0000
    → r.mark ≡ now % 0x100_0000 - d
    → length r.content ≤ max_payload
    → validate now r ≡ validate_content now r.type_code r.content
unfolding validate
validate_recent now d r w l n m s =
    let made : now / 0x100_0000 * 0x100_0000 + r.mark ≡ now - d = omega arith in
    let back = not_too_old now d w l (omega arith) in
    let ahead = not_too_new now d w l (omega arith) in
    let fits : ltb max_size (request_size + length r.content) ≡ false = ground arith in
    rw (fits, made, back, ahead)

-- A request made at most 240 seconds ago is refused, whatever it asks, where the low 24 bits of the
-- clock have wrapped around since it was made.
pub validate_wrapped :
    (now d : ℕ) (r : Request)
    → now < u32
    → d ≤ 240
    → now % 0x100_0000 < d
    → r.mark ≡ 0x100_0000 + now % 0x100_0000 - d
    → validate now r ≡ false
unfolding validate older
validate_wrapped now d r w l n m = ground arith

-- The content of a subscription with `n` spans has a size that the validation accepts just when `n` is
-- 1 to 17: it tests the size with the channel's 12 bytes included, although 12 are reserved already.
subscription_sizes :
    (n : ℕ) → (is_valid_size 12 (12 + history_size n) ≡ true) ↔ ((0 < n) × (n ≤ 17))
unfolding is_valid_size history_size
subscription_sizes n = (λ h. (ground arith, ground arith), λ h. ground (arith, h.0, h.1))

-- A subscription without spans, of the smallest size that the structure admits, is always refused.
pub empty_subscription_refused :
    (now : ℕ) (content : List ℕ)
    → length content ≡ 12 + minimal_size
    → validate_subscription now content ≡ false
unfolding validate_subscription is_valid_size
empty_subscription_refused now content h = ground arith
