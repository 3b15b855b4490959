-- ===== src/Peers.antt =====
-- core/raddi_database_peerset.h and core/raddi_database_peerset.cpp: the assessed addresses of one
-- level of peers, a map in the order of the addresses. The lock, the paths, and the files that `load`
-- and `save` exchange are not part of the model.
pub mod Laws
pub mod Frame
pub mod Ordered
pub mod Removal
use raddi.Base.{
  ℕ, zero, suc, ◌+◌, ◌-◌, ◌%◌, Bool, true, false, ◌&&◌, not, List, [], ◌∷◌, length, ltb, leb, ◌==◌,
  if◌then◌else◌, Option, none, some,
}
use raddi.Address.{Address, allow_null_port, af_inet, af_inet6, address_lt, accessible}
use raddi.Base.{get_elem?}

pub record Peers : Type 0 where
  pub addresses : List (Address × ℕ)
  pub ipv4changed : Bool
  pub ipv6changed : Bool

-- A change of an assessment, a `std::int16_t`: `pos n` is n and `negsuc n` is -(n + 1).
pub data ℤ : Type 0 where
  pos : ℕ → ℤ
  negsuc : ℕ → ℤ

-- `addresses.find`.
unfoldable pub find : Address → List (Address × ℕ) → Option ℕ
find a [] = none
find a ((k, s) ∷ ps) = if address_lt k a then find a ps else if address_lt a k then none else some s

-- `i->second = …`, where the key is there.
unfoldable pub assign : Address → ℕ → List (Address × ℕ) → List (Address × ℕ)
assign a v [] = []
assign a v ((k, s) ∷ ps) =
    if address_lt k a
    then (k, s) ∷ assign a v ps
    else if address_lt a k
    then (k, s) ∷ ps
    else (k, v) ∷ ps

-- `addresses.emplace`.
unfoldable pub emplace : Address → ℕ → List (Address × ℕ) → List (Address × ℕ)
emplace a v [] = (a, v) ∷ []
emplace a v ((k, s) ∷ ps) =
    if address_lt k a
    then (k, s) ∷ emplace a v ps
    else if address_lt a k
    then (a, v) ∷ (k, s) ∷ ps
    else (k, s) ∷ ps

-- `addresses.erase` of a key.
unfoldable pub erase_key : Address → List (Address × ℕ) → List (Address × ℕ)
erase_key a [] = []
erase_key a ((k, s) ∷ ps) =
    if address_lt k a then (k, s) ∷ erase_key a ps else if address_lt a k then (k, s) ∷ ps else ps

-- The switch on the family that marks what is to be saved.
unfoldable pub changed : Address → List (Address × ℕ) → Peers → Peers
changed a ps s =
    if a.family == af_inet
    then record { addresses = ps; ipv4changed = true; ipv6changed = s.ipv6changed }
    else if a.family == af_inet6
    then record { addresses = ps; ipv4changed = s.ipv4changed; ipv6changed = true }
    else record { addresses = ps; ipv4changed = s.ipv4changed; ipv6changed = s.ipv6changed }

abbrev pub unchanged : List (Address × ℕ) → Peers → Peers
unchanged ps s = record { addresses = ps; ipv4changed = s.ipv4changed; ipv6changed = s.ipv6changed }

-- The assessment after a change: the sum as an `int`, kept in a byte.
unfoldable pub updated : ℕ → ℤ → ℕ
updated s (pos n) = if ltb 255 (s + n) then 255 else s + n
updated s (negsuc n) = if ltb s (suc n) then 0 else if ltb 255 (s - suc n) then 255 else s - suc n

abbrev pub is_zero : ℤ → Bool
is_zero (pos zero) = true
is_zero (pos (suc n)) = false
is_zero (negsuc n) = false

-- `adjust`: the set afterwards and the value returned.
unfoldable pub adjust : Address → ℤ → Peers → Peers × ℕ
adjust a adj p = elim (find a p.addresses) [
  | none ↦ (p, 0)
  | some s ↦
      if is_zero adj
      then (p, s)
      else let ps = assign a (updated s adj) p.addresses in
        ((if accessible allow_null_port a then changed a ps p else unchanged ps p), updated s adj)
]

-- `empty`.
unfoldable pub empty : Peers → Bool
empty p = length p.addresses == 0

-- `count`.
unfoldable pub count : Address → Peers → Bool
count a p = elim (find a p.addresses) [ none ↦ false | some s ↦ true ]

-- `insert`.
unfoldable pub insert : Address → ℕ → Peers → Peers
insert a s p = elim (find a p.addresses) [
  | none ↦
      let ps = emplace a s p.addresses in
      if accessible allow_null_port a then changed a ps p else unchanged ps p
  | some s' ↦ p
]

-- `select`: `none` stands for the default address that an empty set gives.
unfoldable pub select : ℕ → Peers → Option (Address × ℕ)
select random p = elim p.addresses [
  | [] ↦ none
  | q ∷ qs ↦ get_elem? (q ∷ qs) (random % length (q ∷ qs))
]

unfoldable pub prune_rows : ℕ → List (Address × ℕ) → List (Address × ℕ)
prune_rows threshold [] = []
prune_rows threshold ((k, s) ∷ ps) =
    let rest = prune_rows threshold ps in if leb s threshold then rest else (k, s) ∷ rest

-- `prune`.
unfoldable pub prune : ℕ → Peers → Peers
unfolding prune_rows
prune threshold p = unchanged (prune_rows threshold p.addresses) p

-- The address with another port.
abbrev pub with_port : ℕ → Address → Address
with_port n a = record { family = a.family; port = n; bytes = a.bytes }

-- Is the first key from `lower` on at most `upper`?
unfoldable pub any_between : Address → Address → List (Address × ℕ) → Bool
any_between lower upper [] = false
any_between lower upper ((k, s) ∷ ps) =
    if address_lt k lower then any_between lower upper ps else not (address_lt upper k)

-- `addresses.erase (i)` of that key.
unfoldable pub erase_first : Address → List (Address × ℕ) → List (Address × ℕ)
erase_first lower [] = []
erase_first lower ((k, s) ∷ ps) = if address_lt k lower then (k, s) ∷ erase_first lower ps else ps

-- `count_ip`.
unfoldable pub count_ip : Address → Peers → Bool
count_ip a p = any_between (with_port 0 a) (with_port 65535 a) p.addresses

-- The loop of `erase`, with fuel; `none` when it has run out.
unfoldable pub erase_ports : ℕ → Address → Peers → Option Peers
erase_ports zero a p = none
erase_ports (suc fuel) a p =
    let rest = erase_ports fuel a (changed a (erase_first (with_port 0 a) p.addresses) p) in
    if count_ip a p then rest else some p

-- `erase`.
unfoldable pub erase : ℕ → Address → Peers → Option Peers
erase fuel a p =
    if a.port == 0 then erase_ports fuel a p else some (changed a (erase_key a p.addresses) p)
