-- ===== src/Address/Order.antt =====
-- core/raddi_address.cpp: the order at one address, and addresses without a port.
use raddi.Base.{ℕ, true, false, List, [], ◌∷◌, ◌≡◌, refl, arith}
use raddi.Address.{Address, Validation, af_inet6, bytes_eq, address_lt, valid, accessible}

pub bytes_eq_self : (xs : List ℕ) → bytes_eq xs xs ≡ true
unfolding bytes_eq
bytes_eq_self [] = refl
bytes_eq_self (a ∷ xs) = ground (arith, bytes_eq_self xs)

pub address_lt_irreflexive : (a : Address) → address_lt a a ≡ false
unfolding address_lt
address_lt_irreflexive a = ground (arith, bytes_eq_self a.bytes)

-- An address of IPv6 without a port is never accessible, also where a null port is allowed.
pub null_port_IPv6 :
    (mode : Validation) (a : Address) → a.family ≡ af_inet6 → a.port ≡ 0 → accessible mode a ≡ false
unfolding accessible valid
null_port_IPv6 mode a f p = ground (arith)
