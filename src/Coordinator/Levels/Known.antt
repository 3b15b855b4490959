-- ===== src/Coordinator/Levels/Known.antt =====
-- core/raddi_coordinator.cpp: on which levels an address stands after `move`.
use raddi.Base.{
  length, ℕ, zero, suc, ◌+◌, ◌≤◌, ◌<◌, Bool, true, false, none, some, ◌≡◌, ◌≢◌, refl, arith, inl,
  inr, Option-cases, ◌>>=◌, ◌∙◌,
}
use raddi.Address.{Address}
use raddi.Address.Strict.{IsProper}
use raddi.Peers.{Peers, count, find, erase}
use raddi.Peers.Ordered.{IsOrdered}
use raddi.Peers.Removal.{erase_lem}
use raddi.Peers.Frame.{find-erase_other}
use raddi.Coordinator.Levels.{
  Level, core_nodes, established_nodes, validated_nodes, announced_nodes, blacklisted_nodes,
  Network, peers, with_peers, level_of, erase_at, withdraw,
}

-- Every level's addresses stand in order.
pub record IsKept (n : Network) : Type 0 where
  pub core : IsOrdered n.core.addresses
  pub established : IsOrdered n.established.addresses
  pub validated : IsOrdered n.validated.addresses
  pub announced : IsOrdered n.announced.addresses
  pub blacklisted : IsOrdered n.blacklisted.addresses

pub kept_at : (l : Level) (n : Network) → IsKept n → IsOrdered (peers l n).addresses
kept_at core_nodes n k = k.core
kept_at established_nodes n k = k.established
kept_at validated_nodes n k = k.validated
kept_at announced_nodes n k = k.announced
kept_at blacklisted_nodes n k = k.blacklisted

pub peers-with_peers : (l : Level) (p : Peers) (n : Network) → peers l (with_peers l p n) ≡ p
peers-with_peers core_nodes p n = refl
peers-with_peers established_nodes p n = refl
peers-with_peers validated_nodes p n = refl
peers-with_peers announced_nodes p n = refl
peers-with_peers blacklisted_nodes p n = refl

pub with_peers-IsKept :
    (l : Level) (p : Peers) (n : Network)
    → IsOrdered p.addresses
    → IsKept n
    → IsKept (with_peers l p n)
with_peers-IsKept core_nodes p n o k = record {
  core = o;
  established = k.established;
  validated = k.validated;
  announced = k.announced;
  blacklisted = k.blacklisted;
}
with_peers-IsKept established_nodes p n o k = record {
  core = k.core;
  established = o;
  validated = k.validated;
  announced = k.announced;
  blacklisted = k.blacklisted;
}
with_peers-IsKept validated_nodes p n o k = record {
  core = k.core;
  established = k.established;
  validated = o;
  announced = k.announced;
  blacklisted = k.blacklisted;
}
with_peers-IsKept announced_nodes p n o k = record {
  core = k.core;
  established = k.established;
  validated = k.validated;
  announced = o;
  blacklisted = k.blacklisted;
}
with_peers-IsKept blacklisted_nodes p n o k = record {
  core = k.core;
  established = k.established;
  validated = k.validated;
  announced = k.announced;
  blacklisted = o;
}

abbrev pub one : Bool → ℕ
one true = 1
one false = 0

-- On how many levels does an address stand?
unfoldable pub standing : Address → Network → ℕ
standing a n =
    one (count a n.core)
    + (one (count a n.established)
        + (one (count a n.validated) + (one (count a n.announced) + one (count a n.blacklisted))))

standing-with_peers :
    (l : Level) (a : Address) (p : Peers) (n : Network)
    → count a (peers l n) ≡ true
    → count a p ≡ false
    → standing a (with_peers l p n) < standing a n
unfolding standing
standing-with_peers core_nodes a p n h k = ground (arith, h, k)
standing-with_peers established_nodes a p n h k = ground (arith, h, k)
standing-with_peers validated_nodes a p n h k = ground (arith, h, k)
standing-with_peers announced_nodes a p n h k = ground (arith, h, k)
standing-with_peers blacklisted_nodes a p n h k = ground (arith, h, k)

pub standing_bound : (a : Address) (n : Network) → standing a n ≤ 5
unfolding standing
standing_bound a n = ground arith

level_of-count :
    (l : Level) (a : Address) (n : Network) → level_of a n ≡ some l → count a (peers l n) ≡ true
unfolding level_of
level_of-count core_nodes a n h = ground (arith, h)
level_of-count established_nodes a n h = ground (arith, h)
level_of-count validated_nodes a n h = ground (arith, h)
level_of-count announced_nodes a n h = ground (arith, h)
level_of-count blacklisted_nodes a n h = ground (arith, h)

pub level_of-standing : (a : Address) (n : Network) → level_of a n ≡ none → standing a n ≡ 0
unfolding level_of standing
level_of-standing a n h = ground (arith, h)

level_of-blacklisted :
    (a : Address) (n : Network)
    → count a n.blacklisted ≡ false
    → level_of a n ≢ some blacklisted_nodes
unfolding level_of
level_of-blacklisted a n h e = ground (arith, h, e)

withdraw_step :
    (l : Level) (fuel : ℕ) (a : Address) (n : Network)
    → count a n.blacklisted ≡ false
    → level_of a n ≡ some l
    → (withdraw (suc fuel) a n ≡ (erase_at l a n >>= withdraw fuel a))
      × ((p : Peers) → (with_peers l p n).blacklisted ≡ n.blacklisted)
      × ((p : Peers) → (with_peers l p n).connections ≡ n.connections)
unfolding withdraw
withdraw_step core_nodes f a n h e = (rw (e, withdraw) refl, λ p. refl, λ p. refl)
withdraw_step established_nodes f a n h e = (rw (e, withdraw) refl, λ p. refl, λ p. refl)
withdraw_step validated_nodes f a n h e = (rw (e, withdraw) refl, λ p. refl, λ p. refl)
withdraw_step announced_nodes f a n h e = (rw (e, withdraw) refl, λ p. refl, λ p. refl)
withdraw_step blacklisted_nodes f a n h e = absurd (level_of-blacklisted a n h e)

pub find→count : (a : Address) (p : Peers) → find a p.addresses ≡ none → count a p ≡ false
unfolding count
find→count a p h = ground (arith, h)

count-erase :
    (fuel : ℕ) (a b : Address) (p q : Peers)
    → IsProper b
    → IsOrdered p.addresses
    → erase fuel a p ≡ some q
    → count b q ≡ true
    → count b p ≡ true
unfolding count
count-erase fuel a b p q w o e h = elim (Option-cases (find b q.addresses)) [
  | inl g ↦ ground (arith, h, g)
  | inr (v, g) ↦ ground (arith, find-erase_other fuel a b v p q w o e g)
]

pub standing_le :
    (l : Level) (b : Address) (p : Peers) (n : Network)
    → (count b p ≡ true → count b (peers l n) ≡ true)
    → standing b (with_peers l p n) ≤ standing b n
unfolding standing
standing_le core_nodes b p n h = ground (arith, h)
standing_le established_nodes b p n h = ground (arith, h)
standing_le validated_nodes b p n h = ground (arith, h)
standing_le announced_nodes b p n h = ground (arith, h)
standing_le blacklisted_nodes b p n h = ground (arith, h)

-- `erase` at a level ends, and then the address does not stand there, and none stands on more levels.
pub erase_at_lem :
    (l : Level) (a : Address) (n : Network)
    → IsProper a
    → IsKept n
    → (p : Peers) × (erase_at l a n ≡ some (with_peers l p n))
      × (count a p ≡ false)
      × IsOrdered p.addresses
      × ((b : Address) → IsProper b → standing b (with_peers l p n) ≤ standing b n)
unfolding erase_at
erase_at_lem l a n w k =
    let r = erase_lem a (peers l n) w (kept_at l n k) in
    let fuel = suc (length (peers l n).addresses) in
    let p = peers l n in
    (
      r.0,
      rw (r.1, erase_at) refl,
      find→count a r.0 r.2,
      r.3,
      λ b v. standing_le l b r.0 n (count-erase fuel a b p r.0 v (kept_at l n k) r.1),
    )

pub withdraw_lem :
    (fuel : ℕ) (a : Address) (n : Network)
    → IsProper a
    → IsKept n
    → standing a n < fuel
    → count a n.blacklisted ≡ false
    → (m : Network) × (withdraw fuel a n ≡ some (m, true))
      × (standing a m ≡ 0)
      × IsKept m
      × (m.connections ≡ n.connections)
      × ((b : Address) → IsProper b → standing b m ≤ standing b n)
unfolding withdraw
withdraw_lem zero a n w k h b = absurd (omega (arith, h))
withdraw_lem (suc f) a n w k h b = elim (Option-cases (level_of a n)) [
  | inl e ↦ (n, rw (e, withdraw) refl, level_of-standing a n e, k, refl, λ b v. omega arith)
  | inr (l, e) ↦
      let (step, still, same) = withdraw_step l f a n b e in
      let (p, ends, gone, order, less) = erase_at_lem l a n w k in
      let fewer = standing-with_peers l a p n (level_of-count l a n e) gone in
      let (m, rest, clear, kept, quiet, lesser) =
        withdraw_lem f a (with_peers l p n) w (with_peers-IsKept l p n order k)
          (omega (arith, fewer, h)) (rw (still p) b) in
      (
        m,
        ground (arith, step, ends, rest),
        clear,
        kept,
        quiet ∙ same p,
        λ b v. omega (arith, less b v, lesser b v),
      )
]
