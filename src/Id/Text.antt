-- ===== src/Id/Text.antt =====
-- core/raddi_iid.cpp and core/raddi_eid.cpp: printing and parsing, over lists of character codes.
-- What they use of the C library: `swprintf` with `%08x` and `%x`, which fails when the buffer has
-- no room for the text and its terminator, and `sscanf` with white space, `%8x` and `%x`.
pub mod Digits
use mathlib.Core.Option
use raddi.Base.{
  ℕ, zero, suc, ◌+◌, ◌-◌, ◌*◌, ◌/◌, ◌%◌, Bool, ◌&&◌, ◌||◌, Option, none, some, List, [], ◌∷◌, ◌++◌,
  length, drop, ltb, leb, ◌==◌, if◌then◌else◌, ◌>>=◌,
}
use raddi.Time.{u32, add32, sub32}
use raddi.Id.{Iid, Eid}

-- One digit of `%x`.
unfoldable pub hex_digit : ℕ → ℕ
hex_digit d = if ltb d 10 then b'0' + d else b'a' + (d - 10)

-- `%0kx` of a number below 16 ^ k.
unfoldable pub hex_pad : ℕ → ℕ → List ℕ
unfolding hex_digit
hex_pad zero n = []
hex_pad (suc k) n = hex_pad k (n / 16) ++ (hex_digit (n % 16) ∷ [])

-- `%x` of a number below 16 ^ (k + 1): no leading zeros.
unfoldable pub hex : ℕ → ℕ → List ℕ
unfolding hex_digit
hex zero n = hex_digit n ∷ []
hex (suc k) n =
    let rest = hex k (n / 16) ++ (hex_digit (n % 16) ∷ []) in
    if ltb n 16 then hex_digit n ∷ [] else rest

-- `swprintf` into a buffer of `size` characters; `none` is its negative result.
abbrev pub swprintf : ℕ → List ℕ → Option (List ℕ)
swprintf size text = if ltb (length text) size then some text else none

abbrev pub min_length : ℕ
min_length = 9

abbrev pub max_length : ℕ
max_length = 16

-- `iid::serialize`: the text, or `none` where the code returns 0.
unfoldable pub iid_serialize : Iid → ℕ → Option (List ℕ)
iid_serialize a size = do
  text ← swprintf size (hex_pad 8 a.nonce ++ hex_pad 8 a.timestamp)
  if leb min_length (length text) && leb (length text) max_length then some text else none

-- `eid::serialize`: what the buffer holds, or `none` where the code returns `false`.
unfoldable pub eid_serialize : Eid → ℕ → Option (List ℕ)
eid_serialize e size = do
  front ← iid_serialize e.identity size
  back ← swprintf (size - length front) (b'-' ∷ hex 7 (sub32 e.timestamp e.identity.timestamp))
  if ltb 1 (length back) then some (front ++ back) else none

abbrev pub is_space : ℕ → Bool
is_space c = c == 0x20 || (leb 0x09 c && leb c 0x0d)

unfoldable pub hex_value : ℕ → Option ℕ
hex_value c =
    if leb b'0' c && leb c b'9'
    then some (c - b'0')
    else if leb b'a' c && leb c b'f'
    then some (c - b'a' + 10)
    else if leb b'A' c && leb c b'F'
    then some (c - b'A' + 10)
    else none

-- A position in the scanned text: what is left, and how many characters are used up.
pub record Scan : Type 0 where
  pub rest : List ℕ
  pub used : ℕ

unfoldable pub skip_space : List ℕ → ℕ → Scan
skip_space [] n = record { rest = []; used = n }
skip_space (c ∷ cs) n =
    let more = skip_space cs (n + 1) in
    if is_space c then more else record { rest = c ∷ cs; used = n }

-- The digits of one number, `w` at most, after `acc`.
unfoldable pub scan_digits : ℕ → List ℕ → ℕ → ℕ → ℕ × Scan
unfolding hex_value
scan_digits w [] acc n = (acc, record { rest = []; used = n })
scan_digits zero (c ∷ cs) acc n = (acc, record { rest = c ∷ cs; used = n })
scan_digits (suc w) (c ∷ cs) acc n = elim (hex_value c) [
  | some d ↦ scan_digits w cs (acc * 16 + d) (n + 1)
  | none ↦ (acc, record { rest = c ∷ cs; used = n })
]

-- At least one digit is wanted.
unfoldable pub scan_number : ℕ → List ℕ → ℕ → Option (ℕ × Scan)
unfolding scan_digits
scan_number w cs n = let r = scan_digits w cs 0 n in if ltb n (r.1).used then some r else none

-- An optional prefix 0x counts for the width.
unfoldable pub scan_prefix : ℕ → List ℕ → ℕ → Option (ℕ × Scan)
unfolding scan_number
scan_prefix w (c ∷ d ∷ cs) n =
    if leb 2 w && (c == b'0' && (d == b'x' || d == b'X'))
    then scan_number (w - 2) cs (n + 2)
    else scan_number w (c ∷ d ∷ cs) n
scan_prefix w cs n = scan_number w cs n

-- A minus sign negates the value.
abbrev pub negate : ℕ × Scan → ℕ × Scan
negate (v, s) = (sub32 0 (v % u32), s)

-- So does an optional sign.
unfoldable pub scan_sign : ℕ → List ℕ → ℕ → Option (ℕ × Scan)
unfolding scan_prefix
scan_sign w [] n = none
scan_sign w (c ∷ cs) n =
    if c == b'-'
    then Option.map negate (scan_prefix (w - 1) cs (n + 1))
    else if c == b'+'
    then scan_prefix (w - 1) cs (n + 1)
    else scan_prefix w (c ∷ cs) n

-- `%x` with a width: leading white space does not count.
unfoldable pub scan_hex : ℕ → Scan → Option (ℕ × Scan)
unfolding skip_space scan_sign
scan_hex w s = let t = skip_space s.rest s.used in scan_sign w t.rest t.used

-- The character `c` of a format.
unfoldable pub scan_char : ℕ → List ℕ → ℕ → Option Scan
scan_char c [] n = none
scan_char c (d ∷ ds) n = if c == d then some (record { rest = ds; used = n + 1 }) else none

-- White space of a format.
unfoldable pub scan_space : Scan → Scan
unfolding skip_space
scan_space s = skip_space s.rest s.used

-- What a conversion stores for a number that does not fit is undefined: a parameter.
module _ (wide : ℕ → ℕ) where
  abbrev pub store : ℕ → ℕ
  store v = if ltb v u32 then v else wide v

  -- `iid::parse`, " %8x%x%zn": the identifier and the count of characters; `none` where it returns 0.
  unfoldable pub iid_parse : List ℕ → Option (Iid × ℕ)
  iid_parse string = do
    (n, a) ← scan_hex 8 (scan_space (record { rest = string; used = 0 }))
    (t, b) ← scan_hex (length string) a
    some (record { timestamp = store t; nonce = store n }, b.used)

  -- `eid::parse`, where the second call is " - %8x%zn" on the rest of the string.
  unfoldable pub eid_parse : List ℕ → Option (Eid × ℕ)
  eid_parse string = do
    (id, offset) ← iid_parse string
    let s = scan_space (record { rest = drop offset string; used = 0 })
    a ← scan_char b'-' s.rest s.used
    (t, b) ← scan_hex 8 (scan_space a)
    some (record { timestamp = add32 (store t) id.timestamp; identity = id }, offset + b.used)
