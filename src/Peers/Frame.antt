-- ===== src/Peers/Frame.antt =====
-- What the operations on a set of peers leave of the other addresses.
use raddi.Base.{
  ℕ, zero, suc, Bool, true, ◌||◌, ◌⊎◌, Option-cases, List, [], ◌∷◌, none, some, ◌≡◌, ◌==◌, refl,
  sym, subst, arith, inl, inr, Bool-cases,
}
use raddi.Address.{Address, address_lt}
use raddi.Address.Strict.{IsProper, address_lt_asymmetric, address_lt_trans, address-total}
use raddi.Peers.{
  Peers, ℤ, is_zero, updated, find, assign, changed, with_port, emplace, insert, adjust,
  erase_first, erase_key, count_ip, erase_ports, erase,
}
use raddi.Peers.Laws.{changed-addresses}
use raddi.Peers.Ordered.{IsBelow, IsOrdered, emplace-IsOrdered}
use raddi.Peers.Removal.{erase_first-IsOrdered}

-- Two addresses one of which is below the other.
abbrev pub differ : Address → Address → Bool
differ a b = address_lt a b || address_lt b a

find-past :
    (k b : Address) (v : ℕ) (ps : List (Address × ℕ))
    → IsProper b
    → IsOrdered ps
    → IsBelow k ps
    → find b ps ≡ some v
    → address_lt k b ≡ true
unfolding find
find-past k b v [] w o l h = ground (arith, h)
find-past k b v ((j, s) ∷ ps) w o l h = elim (Bool-cases (address_lt j b)) [
  | inl g ↦ address_lt_trans k j b l.0 g
  | inr g ↦ elim (Bool-cases (address_lt b j)) [
    | inl m ↦ ground (arith, h, g, m)
    | inr m ↦ subst (λ x. address_lt k x ≡ true) (address-total j b o.0 w g m) l.0
  ]
]

find-drop :
    (k b : Address) (s v : ℕ) (ps : List (Address × ℕ))
    → IsProper b
    → IsOrdered ((k, s) ∷ ps)
    → find b ps ≡ some v
    → find b ((k, s) ∷ ps) ≡ some v
unfolding find
find-drop k b s v ps w o h = ground (arith, find-past k b v ps w o.2 o.1 h, h)

pub find-erase_key_other :
    (a b : Address) (v : ℕ) (ps : List (Address × ℕ))
    → IsProper b
    → IsOrdered ps
    → find b (erase_key a ps) ≡ some v
    → find b ps ≡ some v
unfolding erase_key find
find-erase_key_other a b v [] w o h = h
find-erase_key_other a b v ((k, s) ∷ ps) w o h =
    ground (arith, h, find-drop k b s v ps w o, find-erase_key_other a b v ps w o.2)

find-erase_first :
    (a b : Address) (v : ℕ) (ps : List (Address × ℕ))
    → IsProper b
    → IsOrdered ps
    → find b (erase_first a ps) ≡ some v
    → find b ps ≡ some v
unfolding erase_first find
find-erase_first a b v [] w o h = h
find-erase_first a b v ((k, s) ∷ ps) w o h =
    ground (arith, h, find-drop k b s v ps w o, find-erase_first a b v ps w o.2)

pub find-emplace_other :
    (a b : Address) (v : ℕ) (ps : List (Address × ℕ))
    → differ a b ≡ true
    → find b (emplace a v ps) ≡ find b ps
unfolding emplace find
find-emplace_other a b v [] d = ground (arith, d)
find-emplace_other a b v ((k, s) ∷ ps) d = ground (
  arith,
  d,
  find-emplace_other a b v ps d,
  address_lt_trans b a k,
  address_lt_asymmetric b k,
  address_lt_asymmetric a b,
)

erase_ports_other :
    (fuel : ℕ) (a b : Address) (v : ℕ) (p q : Peers)
    → IsProper b
    → IsOrdered p.addresses
    → erase_ports fuel a p ≡ some q
    → find b q.addresses ≡ some v
    → find b p.addresses ≡ some v
unfolding erase_ports
erase_ports_other zero a b v p q w o e h = ground (arith, e)
erase_ports_other (suc fuel) a b v p q w o e h = elim (Bool-cases (count_ip a p)) [
  | inl c ↦
      let rest = erase_first (with_port 0 a) p.addresses in
      let same = changed-addresses a rest p in
      let found : find b (changed a rest p).addresses ≡ some v =
        erase_ports_other fuel a b v (changed a rest p) q w
          (rw same (erase_first-IsOrdered (with_port 0 a) p.addresses o)) (ground (arith, e, c))
          h in
      find-erase_first (with_port 0 a) b v p.addresses w o (rw (sym same) found)
  | inr c ↦
      let same : p ≡ q = ground (arith, e, c) in
      subst (λ x. find b x.addresses ≡ some v) (sym same) h
]

-- What `erase` leaves was there before.
pub find-erase_other :
    (fuel : ℕ) (a b : Address) (v : ℕ) (p q : Peers)
    → IsProper b
    → IsOrdered p.addresses
    → erase fuel a p ≡ some q
    → find b q.addresses ≡ some v
    → find b p.addresses ≡ some v
unfolding erase
find-erase_other fuel a b v p q w o e h = elim (Bool-cases (a.port == 0)) [
  | inl z ↦ erase_ports_other fuel a b v p q w o (ground (arith, e, z)) h
  | inr z ↦
      let same = changed-addresses a (erase_key a p.addresses) p in
      let new : changed a (erase_key a p.addresses) p ≡ q = ground (arith, e, z) in
      find-erase_key_other a b v p.addresses w o
        (rw (sym same) (subst (λ x. find b x.addresses ≡ some v) (sym new) h))
]

find-assign_other :
    (a b : Address) (v : ℕ) (ps : List (Address × ℕ))
    → find b ps ≡ none
    → find b (assign a v ps) ≡ none
unfolding assign find
find-assign_other a b v [] h = refl
find-assign_other a b v ((k, s) ∷ ps) h = ground (arith, h, find-assign_other a b v ps)

assign-IsBelow :
    (b a : Address) (v : ℕ) (ps : List (Address × ℕ)) → IsBelow b ps → IsBelow b (assign a v ps)
unfolding assign
assign-IsBelow b a v [] h = tt
assign-IsBelow b a v ((k, s) ∷ ps) h = elim (Bool-cases (address_lt k a)) [
  | inl l ↦ rw l (h.0, assign-IsBelow b a v ps h.1)
  | inr l ↦ rw l (elim (Bool-cases (address_lt a k)) [ inl g ↦ rw g h | inr g ↦ rw g h ])
]

assign-IsOrdered :
    (a : Address) (v : ℕ) (ps : List (Address × ℕ)) → IsOrdered ps → IsOrdered (assign a v ps)
unfolding assign
assign-IsOrdered a v [] h = tt
assign-IsOrdered a v ((k, s) ∷ ps) h = elim (Bool-cases (address_lt k a)) [
  | inl l ↦ rw l (h.0, assign-IsBelow k a v ps h.1, assign-IsOrdered a v ps h.2)
  | inr l ↦ rw l (elim (Bool-cases (address_lt a k)) [ inl g ↦ rw g h | inr g ↦ rw g h ])
]

-- What `adjust` does to the addresses.
adjust_cases :
    (a : Address) (adj : ℤ) (p : Peers)
    → (v : ℕ) × (((adjust a adj p).0.addresses ≡ p.addresses)
        ⊎ ((adjust a adj p).0.addresses ≡ assign a v p.addresses))
unfolding adjust
adjust_cases a adj p = elim (Option-cases (find a p.addresses)) [
  | inl h ↦ (0, inl (ground (arith, h)))
  | inr (s, h) ↦ elim (Bool-cases (is_zero adj)) [
    | inl z ↦ (0, inl (ground (arith, h, z)))
    | inr z ↦
        let new = assign a (updated s adj) p.addresses in
        (updated s adj, inr (ground (arith, h, z, changed-addresses a new p)))
  ]
]

pub adjust-IsOrdered :
    (a : Address) (adj : ℤ) (p : Peers)
    → IsOrdered p.addresses
    → IsOrdered (adjust a adj p).0.addresses
adjust-IsOrdered a adj p o =
    let (v, either) = adjust_cases a adj p in
    elim either [ inl e ↦ rw e o | inr e ↦ rw e (assign-IsOrdered a v p.addresses o) ]

-- `adjust` brings in no address.
pub find-adjust_other :
    (a b : Address) (adj : ℤ) (p : Peers)
    → find b p.addresses ≡ none
    → find b (adjust a adj p).0.addresses ≡ none
find-adjust_other a b adj p h =
    let (v, either) = adjust_cases a adj p in
    elim either [ inl e ↦ rw e h | inr e ↦ rw e (find-assign_other a b v p.addresses h) ]

insert-addresses :
    (a : Address) (s : ℕ) (p : Peers)
    → ((insert a s p).addresses ≡ p.addresses)
      ⊎ ((insert a s p).addresses ≡ emplace a s p.addresses)
unfolding insert
insert-addresses a s p = elim (Option-cases (find a p.addresses)) [
  | inl h ↦ inr (ground (arith, h, changed-addresses a (emplace a s p.addresses) p))
  | inr (v, h) ↦ inl (ground (arith, h))
]

pub insert-IsOrdered :
    (a : Address) (s : ℕ) (p : Peers)
    → IsProper a
    → IsOrdered p.addresses
    → IsOrdered (insert a s p).addresses
insert-IsOrdered a s p w o = elim (insert-addresses a s p) [
  | inl e ↦ rw e o
  | inr e ↦ rw e (emplace-IsOrdered a s p.addresses w o)
]

pub find-insert_other :
    (a b : Address) (s : ℕ) (p : Peers)
    → differ a b ≡ true
    → find b (insert a s p).addresses ≡ find b p.addresses
find-insert_other a b s p d = elim (insert-addresses a s p) [
  | inl e ↦ rw e refl
  | inr e ↦ rw e (find-emplace_other a b s p.addresses d)
]
