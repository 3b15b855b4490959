-- ===== src/Coordinator/Levels/Moves.antt =====
-- core/raddi_coordinator.cpp: what `move` and `ban` make of an address.
use raddi.Base.{
  ℕ, suc, Bool, true, false, some, ◌≡◌, ◌≢◌, refl, arith, inl, inr, ◌⊎◌, Bool-cases, ◌∙◌, ◌==◌,
  List, if◌then◌else◌,
}
use raddi.Address.{Address}
use raddi.Address.Strict.{IsProper}
use raddi.Peers.{Peers, count, find, insert, count_ip}
use raddi.Peers.Laws.{find-insert}
use raddi.Peers.Removal.{find-count_ip}
use raddi.Peers.Frame.{insert-IsOrdered}
use raddi.Coordinator.Levels.{
  Level, core_nodes, established_nodes, validated_nodes, announced_nodes, blacklisted_nodes,
  Network, Contact, peers, with_peers, level_of, withdraw, move, ban, lifted, blacklisted, relevel,
}
use raddi.Coordinator.Levels.Known.{
  IsKept, kept_at, peers-with_peers, with_peers-IsKept, standing, standing_bound, withdraw_lem,
  find→count,
}

-- The network after a move that inserts.
abbrev pub moved : Address → Level → ℕ → Bool → Network → Network
moved a l s adjust m =
    let n = with_peers l (insert a s (peers l m)) m in
    if adjust then record n { connections = relevel a l m.connections } else n

pub find-insert_new :
    (a : Address) (s : ℕ) (p : Peers)
    → count a p ≡ false
    → (find a (insert a s p).addresses ≡ some s) × (count a (insert a s p) ≡ true)
unfolding count
find-insert_new a s p h = ground (arith, h, find-insert a s p)

pub standing-at :
    (a : Address) (l : Level) (n : Network) → standing a n ≡ 0 → count a (peers l n) ≡ false
unfolding standing
standing-at a core_nodes n h = ground (arith, h)
standing-at a established_nodes n h = ground (arith, h)
standing-at a validated_nodes n h = ground (arith, h)
standing-at a announced_nodes n h = ground (arith, h)
standing-at a blacklisted_nodes n h = ground (arith, h)

pub standing-insert :
    (a : Address) (l : Level) (p : Peers) (n : Network)
    → standing a n ≡ 0
    → count a p ≡ true
    → standing a (with_peers l p n) ≡ 1
unfolding standing
standing-insert a core_nodes p n h k = ground (arith, h, k)
standing-insert a established_nodes p n h k = ground (arith, h, k)
standing-insert a validated_nodes p n h k = ground (arith, h, k)
standing-insert a announced_nodes p n h k = ground (arith, h, k)
standing-insert a blacklisted_nodes p n h k = ground (arith, h, k)

peers_rewired :
    (l : Level) (n : Network) (cs : List Contact)
    → peers l (record n { connections = cs }) ≡ peers l n
peers_rewired core_nodes n cs = refl
peers_rewired established_nodes n cs = refl
peers_rewired validated_nodes n cs = refl
peers_rewired announced_nodes n cs = refl
peers_rewired blacklisted_nodes n cs = refl

pub rewired-IsKept :
    (n : Network) (cs : List Contact) → IsKept n → IsKept (record n { connections = cs })
rewired-IsKept n cs k = record {
  core = k.core;
  established = k.established;
  validated = k.validated;
  announced = k.announced;
  blacklisted = k.blacklisted;
}

pub standing_rewired :
    (a : Address) (n : Network) (cs : List Contact)
    → standing a (record n { connections = cs }) ≡ standing a n
unfolding standing
standing_rewired a n cs = refl

moved_lem :
    (a : Address) (l : Level) (s : ℕ) (adjust : Bool) (m : Network)
    → IsProper a
    → IsKept m
    → standing a m ≡ 0
    → (find a (peers l (moved a l s adjust m)).addresses ≡ some s)
      × (standing a (moved a l s adjust m) ≡ 1)
      × IsKept (moved a l s adjust m)
moved_lem a l s true m w k h =
    let (found, there) = find-insert_new a s (peers l m) (standing-at a l m h) in
    let p = insert a s (peers l m) in
    let n = with_peers l p m in
    let cs = relevel a l m.connections in
    (
      rw (peers_rewired l n cs, peers-with_peers l p m) found,
      standing_rewired a n cs ∙ standing-insert a l p m h there,
      rewired-IsKept n cs
          (with_peers-IsKept l p m (insert-IsOrdered a s (peers l m) w (kept_at l m k)) k),
    )
moved_lem a l s false m w k h =
    let (found, there) = find-insert_new a s (peers l m) (standing-at a l m h) in
    let p = insert a s (peers l m) in
    (
      rw (peers-with_peers l p m) found,
      standing-insert a l p m h there,
      with_peers-IsKept l p m (insert-IsOrdered a s (peers l m) w (kept_at l m k)) k,
    )

pub move_inserts :
    (a : Address) (l : Level) (s : ℕ) (adjust : Bool) (n m : Network)
    → withdraw 6 a n ≡ some (m, true)
    → move a l s adjust n ≡ some (moved a l s adjust m, true)
unfolding move
move_inserts a l s true n m e = rw (e, move) refl
move_inserts a l s false n m e = rw (e, move) refl

-- An address that is not blacklisted is moved, whatever levels it stood on: then it stands on one level,
-- the new one, with the given assessment, and the addresses of every level are still in order. The
-- address is proper, and the levels were in order.
pub move_lem :
    (a : Address) (l : Level) (s : ℕ) (adjust : Bool) (n : Network)
    → IsProper a
    → IsKept n
    → count a n.blacklisted ≡ false
    → (m : Network) × (move a l s adjust n ≡ some (m, true))
      × (find a (peers l m).addresses ≡ some s)
      × (standing a m ≡ 1)
      × IsKept m
move_lem a l s adjust n w k b =
    let (m, ends, clear, kept, same, others) =
      withdraw_lem 6 a n w k (omega (arith, standing_bound a n)) b in
    let (found, once, ordered) = moved_lem a l s adjust m w kept clear in
    (moved a l s adjust m, move_inserts a l s adjust n m ends, found, once, ordered)

level_of-banned :
    (a : Address) (n : Network)
    → count a n.blacklisted ≡ true
    → level_of a n ≡ some blacklisted_nodes
unfolding level_of
level_of-banned a n h = ground (arith, h)

withdraw-banned :
    (fuel : ℕ) (a : Address) (n : Network)
    → count a n.blacklisted ≡ true
    → withdraw (suc fuel) a n ≡ some (n, false)
unfolding withdraw
withdraw-banned fuel a n h = rw (level_of-banned a n h, withdraw) refl

-- A blacklisted address is not moved, whatever levels it stands on besides: nothing changes.
pub move-banned :
    (a : Address) (l : Level) (s : ℕ) (adjust : Bool) (n : Network)
    → count a n.blacklisted ≡ true
    → move a l s adjust n ≡ some (n, false)
unfolding move
move-banned a l s adjust n h = rw (withdraw-banned 5 a n h, move) refl

known→count : (a : Address) (s : ℕ) (p : Peers) → find a p.addresses ≡ some s → count a p ≡ true
unfolding count
known→count a s p h = ground (arith, h)

count→blacklisted :
    (a : Address) (n : Network)
    → IsProper a
    → IsKept n
    → count a n.blacklisted ≡ true
    → blacklisted a n ≡ true
unfolding blacklisted
count→blacklisted a n w k h = elim (Bool-cases (a.port == 0)) [
  | inl z ↦ elim (Bool-cases (count_ip a n.blacklisted)) [
    | inl c ↦ ground (arith, z, c)
    | inr c ↦ absurd (
        ground (
          arith,
          h,
          find→count a n.blacklisted
              (find-count_ip a n.blacklisted w (ground (arith, z)) k.blacklisted c),
        ))
  ]
  | inr z ↦ ground (arith, z, h)
]

-- `ban` for a number of days ends, and then the address is blacklisted, and the levels are still in
-- order. Either it was on the blacklist and nothing has changed, or it stands there alone, until the given
-- day. The address is proper, the levels were in order, and the days are not 0.
pub ban_lem :
    (now : ℕ) (a : Address) (days : ℕ) (n : Network)
    → IsProper a
    → IsKept n
    → days ≢ 0
    → (m : Network) × (ban now a days n ≡ some m)
      × (blacklisted a m ≡ true)
      × (((count a n.blacklisted ≡ true) × (m ≡ n))
          ⊎ ((standing a m ≡ 1) × (find a m.blacklisted.addresses ≡ some (lifted now days))))
      × IsKept m
unfolding ban
ban_lem now a days n w k d =
    let nonzero : (days == 0) ≡ false = ground (arith, d) in
    elim (Bool-cases (count a n.blacklisted)) [
      | inl h ↦ (
        n,
        rw (nonzero, move-banned a blacklisted_nodes (lifted now days) true n h, ban) refl,
        count→blacklisted a n w k h,
        inl (h, refl),
        k,
      )
      | inr h ↦
          let (m, ends, found, once, kept) =
            move_lem a blacklisted_nodes (lifted now days) true n w k h in
          (
            m,
            rw (nonzero, ends, ban) refl,
            count→blacklisted a m w kept (known→count a (lifted now days) m.blacklisted found),
            inr (once, found),
            kept,
          )
    ]
