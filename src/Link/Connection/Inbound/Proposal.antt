-- ===== src/Link/Connection/Inbound/Proposal.antt =====
-- core/raddi_connection.cpp: the proposal that a connection sends is the one that its peer reads.
use mathlib.Core.List.{append_assoc}
use raddi.Base.{
  ℕ, zero, suc, ◌*◌, ◌/◌, ◌≤◌, ◌<◌, List, [], ◌∷◌, ◌++◌, length, take, drop, take_append,
  drop_append, length-append, ◌≡◌, refl, subst, ap, arith,
}
use raddi.Link.Protocol.{Keyset, Initial, little_endian}
use raddi.Link.Connection.{initial_bytes, bytes_of, initial_size}
use raddi.Link.Connection.Inbound.{read_initial}

-- 256 to a power.
abbrev power : ℕ → ℕ
power zero = 1
power (suc n) = 256 * power n

little_endian-bytes_of : (n x : ℕ) → x < power n → little_endian (bytes_of n x) ≡ x
unfolding little_endian bytes_of
little_endian-bytes_of zero x p = omega arith
little_endian-bytes_of (suc n) x p = omega (arith, little_endian-bytes_of n (x / 256) (omega arith))

length-bytes_of : (n x : ℕ) → length (bytes_of n x) ≡ n
unfolding bytes_of
length-bytes_of zero x = refl
length-bytes_of (suc n) x = omega (arith, length-bytes_of n (x / 256))

take_of : (n : ℕ) (xs ys : List ℕ) → length xs ≡ n → take n (xs ++ ys) ≡ xs
take_of n xs ys e = subst (λ k. take k (xs ++ ys) ≡ xs) e (take_append xs ys)

drop_of : (n : ℕ) (xs ys : List ℕ) → length xs ≡ n → drop n (xs ++ ys) ≡ ys
drop_of n xs ys e = subst (λ k. drop k (xs ++ ys) ≡ ys) e (drop_append xs ys)

pub take_within : (n : ℕ) (xs ys : List ℕ) → n ≤ length xs → take n (xs ++ ys) ≡ take n xs
take_within zero xs ys p = refl
take_within (suc n) [] ys p = absurd (omega arith)
take_within (suc n) (x ∷ xs) ys p = ap (◌∷◌ x) (take_within n xs ys (omega arith))

-- Keys and nonces of 32 bytes.
pub record IsSized (k : Keyset) : Type 0 where
  pub inbound_key : length k.inbound_key ≡ 32
  pub outbound_key : length k.outbound_key ≡ 32
  pub inbound_nonce : length k.inbound_nonce ≡ 32
  pub outbound_nonce : length k.outbound_nonce ≡ 32

-- The numbers fit their fields.
pub record IsStorable (i : Initial) : Type 0 where
  pub keys : IsSized i.keys
  pub soft_a : i.soft.a < 0x1_0000_0000
  pub soft_b : i.soft.b < 0x1_0000_0000
  pub hard_a : i.hard.a < 0x1_0000_0000
  pub hard_b : i.hard.b < 0x1_0000_0000
  pub timestamp : i.timestamp < 0x1_0000_0000_0000_0000
  pub check : i.check < 0x1_0000_0000_0000_0000

number4 :
    (x : ℕ) (rest : List ℕ) → x < 0x1_0000_0000 → little_endian (take 4 (bytes_of 4 x ++ rest)) ≡ x
number4 x rest p =
    rw (take_of 4 (bytes_of 4 x) rest (length-bytes_of 4 x)) (little_endian-bytes_of 4 x p)

number8 :
    (x : ℕ) (rest : List ℕ)
    → x < 0x1_0000_0000_0000_0000
    → little_endian (take 8 (bytes_of 8 x ++ rest)) ≡ x
number8 x rest p =
    rw (take_of 8 (bytes_of 8 x) rest (length-bytes_of 8 x)) (little_endian-bytes_of 8 x p)

after4 : (x : ℕ) (rest : List ℕ) → drop 4 (bytes_of 4 x ++ rest) ≡ rest
after4 x rest = drop_of 4 (bytes_of 4 x) rest (length-bytes_of 4 x)

-- The fields after the keys, and all of them, in front of other bytes.
abbrev numbers : Initial → List ℕ → List ℕ
numbers i tail =
    bytes_of 4 i.soft.a
    ++ (bytes_of 4 i.soft.b
        ++ (bytes_of 4 i.hard.a
            ++ (bytes_of 4 i.hard.b ++ (bytes_of 8 i.timestamp ++ (bytes_of 8 i.check ++ tail)))))

abbrev fields : Initial → List ℕ → List ℕ
fields i tail =
    i.keys.inbound_key
    ++ (i.keys.outbound_key ++ (i.keys.inbound_nonce ++ (i.keys.outbound_nonce ++ numbers i tail)))

initial_bytes_append : (i : Initial) (tail : List ℕ) → initial_bytes i ++ tail ≡ fields i tail
unfolding initial_bytes
initial_bytes_append i tail = simp append_assoc

read_numbers :
    (i : Initial) (tail : List ℕ)
    → IsStorable i
    → record {
      keys = i.keys;
      soft = record {
        a = little_endian (take 4 (numbers i tail));
        b = little_endian (take 4 (drop 4 (numbers i tail)));
      };
      hard = record {
        a = little_endian (take 4 (drop 4 (drop 4 (numbers i tail))));
        b = little_endian (take 4 (drop 4 (drop 4 (drop 4 (numbers i tail)))));
      };
      timestamp = little_endian (take 8 (drop 4 (drop 4 (drop 4 (drop 4 (numbers i tail))))));
      check = little_endian (take 8 (drop 8 (drop 4 (drop 4 (drop 4 (drop 4 (numbers i tail)))))));
    }
      ≡ i
read_numbers i tail s =
    let t9 = bytes_of 8 i.check ++ tail in
    let t8 = bytes_of 8 i.timestamp ++ t9 in
    let t7 = bytes_of 4 i.hard.b ++ t8 in
    let t6 = bytes_of 4 i.hard.a ++ t7 in
    let t5 = bytes_of 4 i.soft.b ++ t6 in
    rw
      (
        after4 i.soft.a t5,
        after4 i.soft.b t6,
        after4 i.hard.a t7,
        after4 i.hard.b t8,
        drop_of 8 (bytes_of 8 i.timestamp) t9 (length-bytes_of 8 i.timestamp),
        number4 i.soft.a t5 s.soft_a,
        number4 i.soft.b t6 s.soft_b,
        number4 i.hard.a t7 s.hard_a,
        number4 i.hard.b t8 s.hard_b,
        number8 i.timestamp t9 s.timestamp,
        number8 i.check tail s.check,
      )
      refl

read_fields : (i : Initial) (tail : List ℕ) → IsStorable i → read_initial (fields i tail) ≡ i
unfolding read_initial
read_fields i tail s =
    let k = s.keys in
    let t4 = numbers i tail in
    let t3 = i.keys.outbound_nonce ++ t4 in
    let t2 = i.keys.inbound_nonce ++ t3 in
    let t1 = i.keys.outbound_key ++ t2 in
    rw
      (
        drop_of 32 i.keys.inbound_key t1 k.inbound_key,
        drop_of 32 i.keys.outbound_key t2 k.outbound_key,
        drop_of 32 i.keys.inbound_nonce t3 k.inbound_nonce,
        drop_of 32 i.keys.outbound_nonce t4 k.outbound_nonce,
        take_of 32 i.keys.inbound_key t1 k.inbound_key,
        take_of 32 i.keys.outbound_key t2 k.outbound_key,
        take_of 32 i.keys.inbound_nonce t3 k.inbound_nonce,
        take_of 32 i.keys.outbound_nonce t4 k.outbound_nonce,
      )
      (read_numbers i tail s)

-- A proposal whose keys and nonces have 32 bytes and whose numbers fit their fields is read back as it
-- was, whatever follows it.
pub read_initial-initial_bytes :
    (i : Initial) (tail : List ℕ) → IsStorable i → read_initial (initial_bytes i ++ tail) ≡ i
read_initial-initial_bytes i tail s = rw (initial_bytes_append i tail) (read_fields i tail s)

pub length-initial_bytes : (i : Initial) → IsStorable i → length (initial_bytes i) ≡ initial_size
unfolding initial_bytes
length-initial_bytes i s =
    let k = s.keys in
    simp
      (
        length-append, k.inbound_key, k.outbound_key, k.inbound_nonce, k.outbound_nonce,
        length-bytes_of,
      )
      refl

-- The four bytes by which an overloaded peer is told.
pub initial_bytes_word :
    (i : Initial) → IsStorable i → take 4 (initial_bytes i) ≡ take 4 i.keys.inbound_key
unfolding initial_bytes
initial_bytes_word i s = take_within 4 i.keys.inbound_key _ (omega (arith, s.keys.inbound_key))
