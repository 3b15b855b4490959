-- ===== src/Peers/Removal.antt =====
-- `erase` of a set of peers whose addresses stand in order.
use raddi.Base.{
  ℕ, zero, suc, ◌<◌, true, false, List, [], ◌∷◌, length, none, some, ◌≡◌, ◌==◌, refl, subst, arith,
  inl, inr, Bool-cases,
}
use raddi.Address.{Address, address_lt}
use raddi.Address.Order.{bytes_eq_self}
use raddi.Address.Strict.{IsProper, address-total}
use raddi.Peers.{
  Peers, find, changed, with_port, any_between, erase_first, erase_key, count_ip, erase_ports,
  erase,
}
use raddi.Peers.Laws.{changed-addresses, erase_first-length}
use raddi.Peers.Ordered.{IsBelow, IsOrdered, find-erase_key, erase_key-IsOrdered}

erase_first-IsBelow :
    (b l : Address) (ps : List (Address × ℕ)) → IsBelow b ps → IsBelow b (erase_first l ps)
unfolding erase_first
erase_first-IsBelow b l [] h = tt
erase_first-IsBelow b l ((k, s) ∷ ps) h = elim (Bool-cases (address_lt k l)) [
  | inl g ↦ rw g (h.0, erase_first-IsBelow b l ps h.1)
  | inr g ↦ rw g h.1
]

pub erase_first-IsOrdered :
    (l : Address) (ps : List (Address × ℕ)) → IsOrdered ps → IsOrdered (erase_first l ps)
unfolding erase_first
erase_first-IsOrdered l [] h = tt
erase_first-IsOrdered l ((k, s) ∷ ps) h = elim (Bool-cases (address_lt k l)) [
  | inl g ↦ rw g (h.0, erase_first-IsBelow k l ps h.1, erase_first-IsOrdered l ps h.2)
  | inr g ↦ rw g h.2
]

find-any_between :
    (a u : Address) (ps : List (Address × ℕ))
    → IsProper a
    → IsOrdered ps
    → address_lt u a ≡ false
    → any_between a u ps ≡ false
    → find a ps ≡ none
unfolding find any_between
find-any_between a u [] p h l e = refl
find-any_between a u ((k, s) ∷ ps) p h l e = elim (Bool-cases (address_lt k a)) [
  | inl g ↦
      let later : any_between a u ps ≡ false = ground (arith, e, g) in
      rw (g) (find-any_between a u ps p h.2 l later)
  | inr g ↦
      let past : address_lt u k ≡ true = ground (arith, e, g) in
      elim (Bool-cases (address_lt a k)) [
        | inl m ↦ rw (g, m) refl
        | inr m ↦ absurd (
            ground (
              arith,
              past,
              l,
              subst (λ x. address_lt u x ≡ true) (address-total k a h.0 p g m) past,
            ))
      ]
]

highest_port : (a : Address) → a.port ≡ 0 → address_lt (with_port 65535 a) a ≡ false
unfolding address_lt
highest_port a h = ground (arith, bytes_eq_self a.bytes)

pub find-count_ip :
    (a : Address) (p : Peers)
    → IsProper a
    → a.port ≡ 0
    → IsOrdered p.addresses
    → count_ip a p ≡ false
    → find a p.addresses ≡ none
unfolding count_ip
find-count_ip a p w z h e =
    let same : with_port 0 a ≡ a = ground (arith, z) in
    find-any_between a (with_port 65535 a) p.addresses w h (highest_port a z)
      (subst (λ x. any_between x (with_port 65535 a) p.addresses ≡ false) same e)

erase_ports-IsOrdered :
    (fuel : ℕ) (a : Address) (p : Peers)
    → IsOrdered p.addresses
    → length p.addresses < fuel
    → (q : Peers) × (erase_ports fuel a p ≡ some q) × (count_ip a q ≡ false) × IsOrdered q.addresses
unfolding erase_ports count_ip
erase_ports-IsOrdered zero a p o l = ground arith
erase_ports-IsOrdered (suc fuel) a p o l = elim (Bool-cases (count_ip a p)) [
  | inl h ↦
      let first = erase_first (with_port 0 a) p.addresses in
      let shorter = erase_first-length (with_port 0 a) (with_port 65535 a) p.addresses h in
      let same = changed-addresses a first p in
      let rest =
        erase_ports-IsOrdered fuel a (changed a first p)
          (rw same (erase_first-IsOrdered (with_port 0 a) p.addresses o)) (ground (arith, same)) in
      rw h rest
  | inr h ↦ (p, rw h, h, o)
]

-- `erase` of an address from a set in order ends after at most as many rounds as there are addresses;
-- the set stays in order and does not know the address any more.
pub erase_lem :
    (a : Address) (p : Peers)
    → IsProper a
    → IsOrdered p.addresses
    → (q : Peers) × (erase (suc (length p.addresses)) a p ≡ some q)
      × (find a q.addresses ≡ none)
      × IsOrdered q.addresses
unfolding erase
erase_lem a p w o = elim (Bool-cases (a.port == 0)) [
  | inl z ↦
      let r = erase_ports-IsOrdered (suc (length p.addresses)) a p o (omega arith) in
      (r.0, rw z (r.1), find-count_ip a r.0 w (ground (arith, z)) r.3 r.2, r.3)
  | inr z ↦
      let same = changed-addresses a (erase_key a p.addresses) p in
      (
        changed a (erase_key a p.addresses) p,
        rw z refl,
        rw same (find-erase_key a p.addresses w o),
        rw same (erase_key-IsOrdered a p.addresses o),
      )
]
