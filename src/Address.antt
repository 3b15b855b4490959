-- ===== src/Address.antt =====
-- core/raddi_address.h and core/raddi_address.cpp: the addresses of peers, their order and the tests
-- for addresses that cannot be a peer's. The bytes stand in memory order, 4 or 16 of them.
pub mod Order
pub mod Strict
use raddi.Base.{
  ℕ, zero, ◌+◌, ◌*◌, ◌%◌, Bool, true, false, ◌&&◌, ◌||◌, not, List, [], ◌∷◌, ltb, ◌==◌,
  if◌then◌else◌, bit_and, get_or,
}
use raddi.Time.{u32}

abbrev pub af_inet : ℕ
af_inet = 2

abbrev pub af_inet6 : ℕ
af_inet6 = 23

pub record Address : Type 0 where
  pub family : ℕ
  pub port : ℕ
  pub bytes : List ℕ

-- `validation`.
pub data Validation : Type 0 where
  full : Validation
  allow_null_port : Validation

-- `address::size (family)`.
unfoldable pub size : ℕ → ℕ
size family = if family == af_inet then 2 + 4 else if family == af_inet6 then 2 + 16 else 0

-- `std::memcmp (…) < 0` on the bytes of two addresses of one family.
unfoldable pub bytes_lt : List ℕ → List ℕ → Bool
bytes_lt (a ∷ xs) (b ∷ bs) = ltb a b || ((a == b) && bytes_lt xs bs)
bytes_lt xs bs = false

-- `std::memcmp (…) == 0`.
unfoldable pub bytes_eq : List ℕ → List ℕ → Bool
bytes_eq (a ∷ xs) (b ∷ bs) = (a == b) && bytes_eq xs bs
bytes_eq [] [] = true
bytes_eq xs bs = false

-- `operator <`; an unknown family compares the ports alone.
unfoldable pub address_lt : Address → Address → Bool
address_lt a b =
    if ltb a.family b.family
    then true
    else if ltb b.family a.family
    then false
    else if (a.family == af_inet) || (a.family == af_inet6)
    then (if bytes_eq a.bytes b.bytes then ltb a.port b.port else bytes_lt a.bytes b.bytes)
    else ltb a.port b.port

-- `address4.s_addr`: the bytes as a little-endian number.
unfoldable pub s_addr : List ℕ → ℕ
s_addr [] = 0
s_addr (b ∷ bs) = b + 256 * s_addr bs

-- `htons (address6.s6_words [i])`.
abbrev pub word : ℕ → List ℕ → ℕ
word i bs = 256 * get_or bs (2 * i) 0 + get_or bs (2 * i + 1) 0

-- `ubsum`.
unfoldable pub ubsum : List ℕ → ℕ
ubsum [] = 0
ubsum (b ∷ bs) = (b + ubsum bs) % u32

abbrev null_port_allowed : Validation → Bool
null_port_allowed full = false
null_port_allowed allow_null_port = true

-- `valid`.
unfoldable pub valid : Validation → Address → Bool
unfolding s_addr ubsum
valid mode a =
    let s = s_addr a.bytes in
    let w0 = word 0 a.bytes in
    if a.family == af_inet
    then (null_port_allowed mode || not (a.port == 0))
      && (not (s == 0)
          && (not (s == 0xFFFF_FFFF)
              && (not (bit_and s 0x00FF_FFFF == 0)
                  && (not (bit_and s 0x00FF_FFFF == 0x0020_00C0)
                      && (not (bit_and s 0x00FF_FFFF == 0x0064_33C6)
                          && (not (bit_and s 0x00FF_FFFF == 0x0071_00CB)
                              && (not (bit_and s 0x0000_00F0 == 0x0000_00E0)
                                  && not (bit_and s 0x0000_00F0 == 0x0000_00F0))))))))
    else if a.family == af_inet6
    then not (a.port == 0)
      && (not (ubsum a.bytes == 0) && (not (w0 == 0x0100) && (ltb w0 0xFF00 || ltb 0xFF0F w0)))
    else false

-- `accessible`.
unfoldable pub accessible : Validation → Address → Bool
unfolding s_addr ubsum
accessible mode a =
    let s = s_addr a.bytes in
    let w0 = word 0 a.bytes in
    let w7 = word 7 a.bytes in
    if not (valid mode a)
    then false
    else if a.family == af_inet
    then not (bit_and s 0x0000_00FF == 0x0000_007F)
      && (not (bit_and s 0x0000_00FF == 0x0000_000A)
          && (not (bit_and s 0x0000_F0FF == 0x0000_10AC)
              && (not (bit_and s 0x0000_FFFF == 0x0000_A8C0)
                  && (not (bit_and s 0x0000_FFFF == 0x0000_FEA9)
                      && not (bit_and s 0x0000_C0FF == 0x0000_4064)))))
    else if a.family == af_inet6
    then not (w0 == 0xFE80)
      && ((ltb w0 0xFC00 || ltb 0xFDFF w0) && (not (ubsum a.bytes == 1) || not (w7 == 0x0001)))
    else false

-- `operator ==` compares the family and as many bytes as the smaller of the two has, the port included.
unfoldable pub address_eq : Address → Address → Bool
address_eq a b =
    (a.family == b.family)
    && (not ((a.family == af_inet) || (a.family == af_inet6))
        || ((a.port == b.port) && bytes_eq a.bytes b.bytes))
