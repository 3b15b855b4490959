-- ===== src/Messages/Request.antt =====
-- core/raddi_request.h, core/raddi_request.cpp and core/raddi_request.tcc: the validation of requests
-- and the history of counts that a request carries. The log messages are not part of the model.
pub mod History
pub mod Window
use raddi.Base.{
  ℕ, zero, suc, ◌+◌, ◌-◌, ◌*◌, ◌/◌, ◌%◌, Bool, true, false, ◌&&◌, ◌||◌, not, List, [], ◌∷◌, length,
  take, drop, get_or, ltb, leb, ◌==◌, if◌then◌else◌,
}
use raddi.Time.{u32, add32, sub32, older}
use raddi.Address.{Address, full, af_inet, af_inet6, valid}

-- `sizeof (request)`, `max_size`, `max_payload`, and the sizes in a history.
abbrev pub request_size : ℕ
request_size = 4

abbrev pub max_size : ℕ
max_size = 88 + 50 - 1

abbrev pub max_payload : ℕ
max_payload = max_size - request_size

abbrev pub header_size : ℕ
header_size = 6

abbrev pub minimal_size : ℕ
minimal_size = 4

-- `short_history <reduction>`: `depth`, `length`, `is_valid_length`, `size` and `is_valid_size`.
unfoldable pub depth : ℕ → ℕ
depth reduction = (max_payload - header_size - reduction) / 6

unfoldable pub history_length : ℕ → ℕ
history_length size = if ltb header_size size then (size - header_size) / 6 else 0

unfoldable pub is_valid_length : ℕ → ℕ → Bool
unfolding depth
is_valid_length reduction n = ltb n (depth reduction)

unfoldable pub history_size : ℕ → ℕ
history_size n = if n == 0 then minimal_size else header_size + n * 6

unfoldable pub is_valid_size : ℕ → ℕ → Bool
is_valid_size reduction size =
    if ltb size header_size
    then size == minimal_size
    else leb size (max_payload - reduction) && ((size - header_size) % 6 == 0)

-- A span: the distance and the count, as they are sent, less one.
pub record Span : Type 0 where
  pub threshold : ℕ
  pub number : ℕ

-- A range of times and the count of entries in it.
pub record Range : Type 0 where
  pub first : ℕ
  pub last : ℕ
  pub number : ℕ

-- The loop of `decode`, the spans in the order it visits them: from the last of the array.
unfoldable pub decode_from : ℕ → List Span → List Range
decode_from t [] = []
decode_from t (s ∷ ss) =
    let st = s.threshold + 1 in
    record {
      first = sub32 t st;
      last = sub32 t 1;
      number = if ltb s.number 0xFF_FFFF then s.number + 1 else 0xFFFF_FFFF;
    }
    ∷ decode_from (sub32 t st) ss

-- The bytes of numbers at an offset.
abbrev pub u16_at : List ℕ → ℕ → ℕ
u16_at bytes i = get_or bytes i 0 + 256 * get_or bytes (i + 1) 0

abbrev pub u32_at : List ℕ → ℕ → ℕ
u32_at bytes i = u16_at bytes i + 0x1_0000 * u16_at bytes (i + 2)

-- A request: the 24 bits of time, the type, and the content.
pub record Request : Type 0 where
  pub mark : ℕ
  pub type_code : ℕ
  pub content : List ℕ

-- `validate_ipXpeer_request`: four bytes of port and flags, then the address.
unfoldable pub validate_peer : ℕ → ℕ → List ℕ → Bool
validate_peer family bytes content =
    (length content == 4 + bytes)
    && valid full
        (record { family = family; port = u16_at content 0; bytes = take bytes (drop 4 content) })

-- The identities' and channels' histories.
unfoldable pub validate_history : ℕ → List ℕ → Bool
unfolding is_valid_size
validate_history now content =
    let threshold = u32_at content 0 in
    if ltb (length content) minimal_size
    then false
    else if not (is_valid_size 0 (length content))
    then false
    else (threshold == 0) || not (older threshold (sub32 now 0x7000_0000))

-- A subscription: the channel, then a history, validated for the whole of the content.
unfoldable pub validate_subscription : ℕ → List ℕ → Bool
unfolding is_valid_size
validate_subscription now content =
    if ltb (length content) (12 + minimal_size)
    then false
    else if not (is_valid_size 12 (length content))
    then false
    else not (older (u32_at content 12) (sub32 now 0x0200_0000))

-- The switch on the type; unknown types are allowed.
unfoldable pub validate_content : ℕ → ℕ → List ℕ → Bool
unfolding validate_peer validate_history validate_subscription
validate_content now type_code content =
    if type_code == 0x00
    then length content == 8
    else if type_code == 0x02
    then length content == 2
    else if type_code == 0x10
    then length content == 0
    else if type_code == 0x11
    then validate_peer af_inet 4 content
    else if type_code == 0x12
    then validate_peer af_inet6 16 content
    else if (type_code == 0x20) || (type_code == 0x21)
    then validate_history now content
    else if type_code == 0x30
    then validate_subscription now content
    else if type_code == 0x32
    then length content == 0
    else if type_code == 0x31
    then length content == 12
    else if type_code == 0x33
    then length content == 16
    else true

-- `request::validate` at the time `now`, of a request with a whole header.
unfoldable pub validate : ℕ → Request → Bool
validate now r =
    let timestamp = now / 0x100_0000 * 0x100_0000 + r.mark in
    if ltb max_size (request_size + length r.content)
    then false
    else if older timestamp (sub32 now 240)
    then false
    else if older (add32 now 180) timestamp
    then false
    else validate_content now r.type_code r.content
