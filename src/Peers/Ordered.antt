-- ===== src/Peers/Ordered.antt =====
-- The addresses of a set of peers stand in the order of its map, each once.
use raddi.Base.{ℕ, true, List, [], ◌∷◌, All, none, ◌≡◌, refl, subst, arith, inl, inr, Bool-cases}
use raddi.Address.{Address, address_lt}
use raddi.Address.Strict.{IsProper, address_lt_asymmetric, address_lt_trans, address-total}
use raddi.Peers.{find, emplace, erase_key}

-- Is the address below every key?
abbrev pub IsBelow : Address → List (Address × ℕ) → Type 0
IsBelow a ps = All (λ q. address_lt a q.0 ≡ true) ps

abbrev pub IsOrdered : List (Address × ℕ) → Type 0
IsOrdered [] = Unit
IsOrdered ((k, s) ∷ ps) = IsProper k × IsBelow k ps × IsOrdered ps

pub find-IsBelow : (a : Address) (ps : List (Address × ℕ)) → IsBelow a ps → find a ps ≡ none
unfolding find
find-IsBelow a [] h = refl
find-IsBelow a ((k, s) ∷ ps) h = ground (arith, address_lt_asymmetric a k h.0, h.0)

pub IsBelow-transitive :
    (a b : Address) (ps : List (Address × ℕ)) → address_lt a b ≡ true → IsBelow b ps → IsBelow a ps
IsBelow-transitive a b [] l h = tt
IsBelow-transitive a b ((k, s) ∷ ps) l h =
    (address_lt_trans a b k l h.0, IsBelow-transitive a b ps l h.1)

pub find-erase_key :
    (a : Address) (ps : List (Address × ℕ))
    → IsProper a
    → IsOrdered ps
    → find a (erase_key a ps) ≡ none
unfolding find erase_key
find-erase_key a [] p h = refl
find-erase_key a ((k, s) ∷ ps) p h = elim (Bool-cases (address_lt k a)) [
  | inl l ↦ rw (l, l) (find-erase_key a ps p h.2)
  | inr l ↦ elim (Bool-cases (address_lt a k)) [
    | inl g ↦ ground arith
    | inr g ↦
        let below : IsBelow a ps = subst (λ x. IsBelow x ps) (address-total k a h.0 p l g) h.1 in
        ground (arith, find-IsBelow a ps below)
  ]
]

erase_key-IsBelow :
    (b a : Address) (ps : List (Address × ℕ)) → IsBelow b ps → IsBelow b (erase_key a ps)
unfolding erase_key
erase_key-IsBelow b a [] h = tt
erase_key-IsBelow b a ((k, s) ∷ ps) h = elim (Bool-cases (address_lt k a)) [
  | inl l ↦ rw l (h.0, erase_key-IsBelow b a ps h.1)
  | inr l ↦ rw l (elim (Bool-cases (address_lt a k)) [ inl g ↦ rw g h | inr g ↦ rw g h.1 ])
]

pub erase_key-IsOrdered :
    (a : Address) (ps : List (Address × ℕ)) → IsOrdered ps → IsOrdered (erase_key a ps)
unfolding erase_key
erase_key-IsOrdered a [] h = tt
erase_key-IsOrdered a ((k, s) ∷ ps) h = elim (Bool-cases (address_lt k a)) [
  | inl l ↦ rw l (h.0, erase_key-IsBelow k a ps h.1, erase_key-IsOrdered a ps h.2)
  | inr l ↦ rw l (elim (Bool-cases (address_lt a k)) [ inl g ↦ rw g h | inr g ↦ rw g h.2 ])
]

emplace-IsBelow :
    (b a : Address) (v : ℕ) (ps : List (Address × ℕ))
    → address_lt b a ≡ true
    → IsBelow b ps
    → IsBelow b (emplace a v ps)
unfolding emplace
emplace-IsBelow b a v [] l h = (l, tt)
emplace-IsBelow b a v ((k, s) ∷ ps) l h = elim (Bool-cases (address_lt k a)) [
  | inl m ↦ rw m (h.0, emplace-IsBelow b a v ps l h.1)
  | inr m ↦ rw m (elim (Bool-cases (address_lt a k)) [ inl g ↦ rw g (l, h) | inr g ↦ rw g h ])
]

pub emplace-IsOrdered :
    (a : Address) (v : ℕ) (ps : List (Address × ℕ))
    → IsProper a
    → IsOrdered ps
    → IsOrdered (emplace a v ps)
unfolding emplace
emplace-IsOrdered a v [] p h = (p, tt, tt)
emplace-IsOrdered a v ((k, s) ∷ ps) p h = elim (Bool-cases (address_lt k a)) [
  | inl m ↦ rw m (h.0, emplace-IsBelow k a v ps m h.1, emplace-IsOrdered a v ps p h.2)
  | inr m ↦ rw m (elim (Bool-cases (address_lt a k)) [
    | inl g ↦ rw g (p, (g, IsBelow-transitive a k ps g h.1), h)
    | inr g ↦ rw g h
  ])
]
