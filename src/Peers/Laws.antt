-- ===== src/Peers/Laws.antt =====
-- The set of peers as a map from addresses to assessments.
use raddi.Base.{
  ℕ, zero, suc, ◌≤◌, ◌<◌, true, false, List, [], ◌∷◌, length, ◌==◌, none, some, ◌≡◌, arith,
  Bool-cases, inl, inr,
}
use raddi.Address.{Address, allow_null_port, af_inet6}
use raddi.Address.Order.{address_lt_irreflexive, null_port_IPv6}
use raddi.Peers.{
  Peers, ℤ, pos, negsuc, find, assign, emplace, changed, updated, adjust, insert, with_port,
  any_between, erase_first, count_ip, erase_ports, erase, is_zero,
}

pub erase_first-length :
    (lower upper : Address) (ps : List (Address × ℕ))
    → any_between lower upper ps ≡ true
    → length (erase_first lower ps) < length ps
unfolding any_between erase_first
erase_first-length l u [] h = ground arith
erase_first-length l u ((k, s) ∷ ps) h = ground (arith, erase_first-length l u ps)

pub changed-addresses :
    (a : Address) (ps : List (Address × ℕ)) (p : Peers) → (changed a ps p).addresses ≡ ps
unfolding changed
changed-addresses a ps p = ground arith

erase_ports_lem :
    (fuel : ℕ) (a : Address) (p : Peers)
    → length p.addresses < fuel
    → (q : Peers) × (erase_ports fuel a p ≡ some q) × (count_ip a q ≡ false)
unfolding erase_ports count_ip
erase_ports_lem zero a p l = ground arith
erase_ports_lem (suc fuel) a p l = elim (Bool-cases (count_ip a p)) [
  | inl h ↦
      let shorter = erase_first-length (with_port 0 a) (with_port 65535 a) p.addresses h in
      let rest =
        erase_ports_lem fuel a (changed a (erase_first (with_port 0 a) p.addresses) p)
          (ground (arith, changed-addresses a (erase_first (with_port 0 a) p.addresses) p)) in
      rw h rest
  | inr h ↦ (p, rw h, h)
]

pub find-assign :
    (a : Address) (v s : ℕ) (ps : List (Address × ℕ))
    → find a ps ≡ some s
    → find a (assign a v ps) ≡ some v
unfolding find assign
find-assign a v r [] h = ground (arith)
find-assign a v r ((k, s) ∷ ps) h = ground (arith, find-assign a v r ps)

find-emplace :
    (a : Address) (v : ℕ) (ps : List (Address × ℕ))
    → find a ps ≡ none
    → find a (emplace a v ps) ≡ some v
unfolding find emplace
find-emplace a v [] h = ground (arith, address_lt_irreflexive a)
find-emplace a v ((k, s) ∷ ps) h = ground (arith, address_lt_irreflexive a, find-emplace a v ps)

-- `adjust` of a known address by a number other than zero returns the sum kept within a byte, which
-- `find` then gives for it.
pub find-adjust :
    (a : Address) (adj : ℤ) (p : Peers) (s : ℕ)
    → find a p.addresses ≡ some s
    → is_zero adj ≡ false
    → ((adjust a adj p).1 ≤ 255) × (find a (adjust a adj p).0.addresses ≡ some (adjust a adj p).1)
unfolding adjust updated
find-adjust a (pos n) p s h k = ground (
  arith,
  find-assign a (updated s (pos n)) s p.addresses,
  changed-addresses a (assign a (updated s (pos n)) p.addresses) p,
)
find-adjust a (negsuc n) p s h k = ground (
  arith,
  find-assign a (updated s (negsuc n)) s p.addresses,
  changed-addresses a (assign a (updated s (negsuc n)) p.addresses) p,
)

-- After `insert` the address is known: with the assessment it had, or else with the given one.
pub find-insert :
    (a : Address) (s : ℕ) (p : Peers)
    → find a (insert a s p).addresses
      ≡ elim (find a p.addresses) [ none ↦ some s | some v ↦ some v ]
unfolding insert
find-insert a s p =
    ground (arith, find-emplace a s p.addresses, changed-addresses a (emplace a s p.addresses) p)

-- `erase` of an address with the port 0 ends after at most as many rounds as there are addresses, and
-- then no address with that IP is left, whatever its port.
count_ip-erase :
    (a : Address) (p : Peers)
    → a.port ≡ 0
    → (q : Peers) × (erase (suc (length p.addresses)) a p ≡ some q) × (count_ip a q ≡ false)
unfolding erase
count_ip-erase a p h =
    let zero_port : (a.port == 0) ≡ true = ground arith in
    let ends = erase_ports_lem (suc (length p.addresses)) a p (omega arith) in
    (ends.0, ground arith, ends.2)

-- Inserting an address of IPv6 with the port 0, the form of a ban, never marks the set as changed.
insert_unmarked :
    (a : Address) (s : ℕ) (p : Peers)
    → a.family ≡ af_inet6
    → a.port ≡ 0
    → ((insert a s p).ipv4changed ≡ p.ipv4changed) × ((insert a s p).ipv6changed ≡ p.ipv6changed)
unfolding insert
insert_unmarked a s p f h = ground (arith, null_port_IPv6 allow_null_port a f h)
