-- ===== src/Address/Strict.antt =====
-- core/raddi_address.cpp: `operator <` as a strict order on the addresses of the two families.
use raddi.Base.{ℕ, ◌+◌, true, false, List, [], ◌∷◌, length, ◌≡◌, ◌⊎◌, refl, arith}
use raddi.Address.Order.{bytes_eq_self}
use raddi.Address.{Address, af_inet, af_inet6, size, bytes_lt, bytes_eq, address_lt}

-- An address of a known family with as many bytes as its family has.
pub record IsProper (a : Address) : Type 0 where
  pub family : (a.family ≡ af_inet) ⊎ (a.family ≡ af_inet6)
  pub bytes : size a.family ≡ 2 + length a.bytes

bytes_eq→eq : (xs ys : List ℕ) → bytes_eq xs ys ≡ true → xs ≡ ys
unfolding bytes_eq
bytes_eq→eq [] [] h = refl
bytes_eq→eq [] (y ∷ ys) h = ground arith
bytes_eq→eq (x ∷ xs) [] h = ground arith
bytes_eq→eq (x ∷ xs) (y ∷ ys) h = ground (arith, bytes_eq→eq xs ys)

bytes_lt_asymmetric : (xs ys : List ℕ) → bytes_lt xs ys ≡ true → bytes_lt ys xs ≡ false
unfolding bytes_lt
bytes_lt_asymmetric [] ys h = ground arith
bytes_lt_asymmetric (x ∷ xs) [] h = ground arith
bytes_lt_asymmetric (x ∷ xs) (y ∷ ys) h = ground (arith, bytes_lt_asymmetric xs ys)

bytes_lt_trans :
    (xs ys zs : List ℕ) → bytes_lt xs ys ≡ true → bytes_lt ys zs ≡ true → bytes_lt xs zs ≡ true
unfolding bytes_lt
bytes_lt_trans [] ys zs h k = ground arith
bytes_lt_trans (x ∷ xs) [] zs h k = ground arith
bytes_lt_trans (x ∷ xs) (y ∷ ys) [] h k = ground arith
bytes_lt_trans (x ∷ xs) (y ∷ ys) (z ∷ zs) h k = ground (arith, bytes_lt_trans xs ys zs)

bytes_lt-irreflexive : (xs : List ℕ) → bytes_lt xs xs ≡ false
unfolding bytes_lt
bytes_lt-irreflexive [] = refl
bytes_lt-irreflexive (x ∷ xs) = ground (arith, bytes_lt-irreflexive xs)

bytes-total :
    (xs ys : List ℕ)
    → length xs ≡ length ys
    → bytes_lt xs ys ≡ false
    → bytes_lt ys xs ≡ false
    → bytes_eq xs ys ≡ true
unfolding bytes_lt bytes_eq
bytes-total [] [] l h k = refl
bytes-total [] (y ∷ ys) l h k = ground arith
bytes-total (x ∷ xs) [] l h k = ground arith
bytes-total (x ∷ xs) (y ∷ ys) l h k = ground (arith, bytes-total xs ys)

bytes_lt→neq : (xs ys : List ℕ) → bytes_lt xs ys ≡ true → bytes_eq xs ys ≡ false
unfolding bytes_lt bytes_eq
bytes_lt→neq [] ys h = ground arith
bytes_lt→neq (x ∷ xs) [] h = ground arith
bytes_lt→neq (x ∷ xs) (y ∷ ys) h = ground (arith, bytes_lt→neq xs ys)

bytes_eq_sym : (xs ys : List ℕ) → bytes_eq xs ys ≡ bytes_eq ys xs
unfolding bytes_eq
bytes_eq_sym [] [] = refl
bytes_eq_sym [] (y ∷ ys) = refl
bytes_eq_sym (x ∷ xs) [] = refl
bytes_eq_sym (x ∷ xs) (y ∷ ys) = ground (arith, bytes_eq_sym xs ys)

pub address_lt_asymmetric : (a b : Address) → address_lt a b ≡ true → address_lt b a ≡ false
unfolding address_lt
address_lt_asymmetric a b h =
    ground (arith, bytes_lt_asymmetric a.bytes b.bytes, bytes_eq_sym a.bytes b.bytes)

pub address_lt_trans :
    (a b c : Address) → address_lt a b ≡ true → address_lt b c ≡ true → address_lt a c ≡ true
unfolding address_lt
address_lt_trans a b c h k = ground (
  arith,
  bytes_lt_trans a.bytes b.bytes c.bytes,
  bytes_lt→neq a.bytes c.bytes,
  bytes_eq→eq a.bytes b.bytes,
  bytes_eq→eq b.bytes c.bytes,
  bytes_eq_self a.bytes,
)

known_total :
    (a b : Address)
    → (a.family ≡ af_inet) ⊎ (a.family ≡ af_inet6)
    → a.family ≡ b.family
    → length a.bytes ≡ length b.bytes
    → address_lt a b ≡ false
    → address_lt b a ≡ false
    → (a.bytes ≡ b.bytes) × (a.port ≡ b.port)
unfolding address_lt
known_total a b f e l h k =
    ground (
      arith,
      bytes_eq→eq a.bytes b.bytes,
      bytes_eq_sym a.bytes b.bytes,
      bytes-total a.bytes b.bytes,
    )

families_total :
    (a b : Address) → address_lt a b ≡ false → address_lt b a ≡ false → a.family ≡ b.family
unfolding address_lt
families_total a b h k = ground arith

-- Two proper addresses neither of which is below the other are the same address.
pub address-total :
    (a b : Address)
    → IsProper a
    → IsProper b
    → address_lt a b ≡ false
    → address_lt b a ≡ false
    → a ≡ b
unfolding size
address-total a b p q h k =
    let e = families_total a b h k in
    let l : length a.bytes ≡ length b.bytes = ground (arith, p.bytes, q.bytes, p.family) in
    let t = known_total a b p.family e l h k in ground (arith, e, t)
