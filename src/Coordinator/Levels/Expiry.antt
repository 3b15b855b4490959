-- ===== src/Coordinator/Levels/Expiry.antt =====
-- core/raddi_coordinator.cpp: how long a ban lasts.
use raddi.Base.{
  ℕ, ◌/◌, ◌%◌, false, List, [], ◌∷◌, Option, none, some, ◌≡◌, ◌≢◌, refl, subst, arith, leb,
  if◌then◌else◌, inl, inr, Bool-cases,
}
use raddi.Address.{Address, address_lt}
use raddi.Address.Strict.{IsProper, address-total}
use raddi.Peers.{find, count, prune, prune_rows}
use raddi.Peers.Ordered.{IsBelow, IsOrdered, find-IsBelow, IsBelow-transitive}
use raddi.Coordinator.Levels.{Network, ban, lifted, flush}
use raddi.Coordinator.Levels.Known.{IsKept}
use raddi.Coordinator.Levels.Moves.{ban_lem}

-- What is left of an assessment.
abbrev pub unless_past : ℕ → Option ℕ → Option ℕ
unless_past threshold none = none
unless_past threshold (some s) = if leb s threshold then none else some s

prune_rows-IsBelow :
    (b : Address) (threshold : ℕ) (ps : List (Address × ℕ))
    → IsBelow b ps
    → IsBelow b (prune_rows threshold ps)
unfolding prune_rows
prune_rows-IsBelow b t [] h = tt
prune_rows-IsBelow b t ((k, s) ∷ ps) h = elim (Bool-cases (leb s t)) [
  | inl e ↦ rw e (prune_rows-IsBelow b t ps h.1)
  | inr e ↦ rw e (h.0, prune_rows-IsBelow b t ps h.1)
]

find-prune_rows :
    (a : Address) (threshold : ℕ) (ps : List (Address × ℕ))
    → IsProper a
    → IsOrdered ps
    → find a (prune_rows threshold ps) ≡ unless_past threshold (find a ps)
unfolding find prune_rows
find-prune_rows a t [] w o = refl
find-prune_rows a t ((k, s) ∷ ps) w o =
    let rest = find-prune_rows a t ps w o.2 in
    elim (Bool-cases (address_lt k a)) [
      | inl l ↦ ground (arith, l, rest)
      | inr l ↦ elim (Bool-cases (address_lt a k)) [
        | inl g ↦
            let below =
              find-IsBelow a (prune_rows t ps)
                (prune_rows-IsBelow a t ps (IsBelow-transitive a k ps g o.1)) in
            ground (arith, l, g, below)
        | inr g ↦
            let below = find-IsBelow a (prune_rows t ps) (
              subst (λ x. IsBelow x (prune_rows t ps)) (address-total k a o.0 w l g)
                (prune_rows-IsBelow k t ps o.1)) in
            ground (arith, l, g, below)
      ]
    ]

flush-find :
    (now : ℕ) (a : Address) (n : Network)
    → IsProper a
    → IsKept n
    → find a (flush now n).blacklisted.addresses
      ≡ unless_past ((now / 86400) % 0x10000) (find a n.blacklisted.addresses)
unfolding flush prune
flush-find now a n w k =
    find-prune_rows a ((now / 86400) % 0x10000) n.blacklisted.addresses w k.blacklisted

-- A ban of an address that is not blacklisted ends, and stands until the day that it was given for: a
-- `flush` erases it from the blacklist if its day, in 16 bits, is that day or later, and else keeps
-- it. The address is proper, the levels are in order, and the days are not 0.
pub ban-flush :
    (now later : ℕ) (a : Address) (days : ℕ) (n : Network)
    → IsProper a
    → IsKept n
    → days ≢ 0
    → count a n.blacklisted ≡ false
    → (m : Network) × (ban now a days n ≡ some m)
      × (find a (flush later m).blacklisted.addresses ≡ (
          if leb (lifted now days) ((later / 86400) % 0x10000)
          then none
          else some (lifted now days)))
ban-flush now later a days n w k d c =
    let (m, ends, black, how, kept) = ban_lem now a days n w k d in
    elim how [
      | inl (was, same) ↦ absurd (ground (arith, was, c))
      | inr (once, found) ↦ (m, ends, rw (flush-find later a m w kept, found) refl)
    ]
