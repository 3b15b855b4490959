-- ===== src/Coordinator/Contacts/Attempts.antt =====
-- core/raddi_coordinator.cpp: how often an address that cannot be reached is tried.
use raddi.Base.{ℕ, zero, suc, ◌≤◌, true, false, Option, some, ◌≡◌, ◌≢◌, refl, arith, ◌>>=◌, ◌==◌}
use raddi.Address.Strict.{IsProper}
use raddi.Peers.{Peers, negsuc, find, count, adjust, assign, updated}
use raddi.Peers.Laws.{find-assign, changed-addresses}
use raddi.Peers.Frame.{adjust-IsOrdered}
use raddi.Coordinator.Levels.{
  Level, core_nodes, established_nodes, validated_nodes, announced_nodes, blacklisted_nodes,
  Network, Contact, peers, with_peers, erase_at, same_level,
}
use raddi.Coordinator.Levels.Known.{
  IsKept, kept_at, with_peers-IsKept, peers-with_peers, erase_at_lem,
}
use raddi.Coordinator.Contacts.{unavailable, active, is_outbound}

-- One failed attempt after another.
unfoldable pub fail : ℕ → Contact → Network → Option Network
fail zero c n = some n
fail (suc k) c n = unavailable c n >>= fail k c

adjust_down :
    (c : Contact) (s : ℕ) (p : Peers)
    → s ≤ 255
    → find c.peer p.addresses ≡ some (suc s)
    → ((adjust c.peer (negsuc 0) p).1 ≡ s)
      × (find c.peer (adjust c.peer (negsuc 0) p).0.addresses ≡ some s)
unfolding adjust updated
adjust_down c s p l h = ground (
  arith,
  h,
  find-assign c.peer s (suc s) p.addresses h,
  changed-addresses c.peer (assign c.peer s p.addresses) p,
)

connections-with_peers :
    (l : Level) (p : Peers) (n : Network) → (with_peers l p n).connections ≡ n.connections
connections-with_peers core_nodes p n = refl
connections-with_peers established_nodes p n = refl
connections-with_peers validated_nodes p n = refl
connections-with_peers announced_nodes p n = refl
connections-with_peers blacklisted_nodes p n = refl

-- The network after the assessment of the peer has gone down.
abbrev lowered : Contact → Network → Network
lowered c n = with_peers c.level (adjust c.peer (negsuc 0) (peers c.level n)).0 n

unavailable_last :
    (c : Contact) (n : Network)
    → is_outbound c ≡ true
    → same_level c.level blacklisted_nodes ≡ false
    → active n.connections ≢ 0
    → (adjust c.peer (negsuc 0) (peers c.level n)).1 ≡ 0
    → unavailable c n ≡ erase_at c.level c.peer (lowered c n)
unfolding unavailable
unavailable_last c n o b a z =
    let some_active : (active n.connections == 0) ≡ false = ground (arith, a) in
    let none_left : ((adjust c.peer (negsuc 0) (peers c.level n)).1 == 0) ≡ true =
      ground (arith, z) in
    rw (o, some_active, unavailable) (rw b (rw none_left refl))

unavailable_more :
    (s : ℕ) (c : Contact) (n : Network)
    → is_outbound c ≡ true
    → same_level c.level blacklisted_nodes ≡ false
    → active n.connections ≢ 0
    → (adjust c.peer (negsuc 0) (peers c.level n)).1 ≡ suc s
    → unavailable c n ≡ some (lowered c n)
unfolding unavailable
unavailable_more s c n o b a z =
    let some_active : (active n.connections == 0) ≡ false = ground (arith, a) in
    let some_left : ((adjust c.peer (negsuc 0) (peers c.level n)).1 == 0) ≡ false =
      ground (arith, z) in
    rw (o, some_active, unavailable) (rw b (rw some_left refl))

-- While some connection is active, an outbound address that stands on its connection's level with an
-- assessment of 1 to 256 is erased from it by as many failed attempts as its assessment, and not before. The
-- level is not the blacklist, the address is proper, and the levels were in order.
pub fail_lem :
    (s : ℕ) (c : Contact) (n : Network)
    → IsProper c.peer
    → IsKept n
    → is_outbound c ≡ true
    → same_level c.level blacklisted_nodes ≡ false
    → active n.connections ≢ 0
    → s ≤ 255
    → find c.peer (peers c.level n).addresses ≡ some (suc s)
    → (m : Network) × (q : Network) × (fail s c n ≡ some m)
      × (find c.peer (peers c.level m).addresses ≡ some 1)
      × (fail (suc s) c n ≡ some q)
      × (count c.peer (peers c.level q) ≡ false)
unfolding fail
fail_lem zero c n w k o b a l h =
    let (down, found) = adjust_down c 0 (peers c.level n) l h in
    let kept =
      with_peers-IsKept c.level (adjust c.peer (negsuc 0) (peers c.level n)).0 n
        (adjust-IsOrdered c.peer (negsuc 0) (peers c.level n) (kept_at c.level n k)) k in
    let (p, ends, gone, order, fewer) = erase_at_lem c.level c.peer (lowered c n) w kept in
    let step = unavailable_last c n o b a down in
    (
      n,
      with_peers c.level p (lowered c n),
      refl,
      h,
      rw (step, ends, fail) refl,
      rw (peers-with_peers c.level p (lowered c n)) gone,
    )
fail_lem (suc s) c n w k o b a l h =
    let (down, found) = adjust_down c (suc s) (peers c.level n) l h in
    let p = (adjust c.peer (negsuc 0) (peers c.level n)).0 in
    let kept =
      with_peers-IsKept c.level p n
        (adjust-IsOrdered c.peer (negsuc 0) (peers c.level n) (kept_at c.level n k)) k in
    let step = unavailable_more s c n o b a down in
    let still : active (lowered c n).connections ≢ 0 = rw (connections-with_peers c.level p n) a in
    let (m, q, before, one, after, gone) =
      fail_lem s c (lowered c n) w kept o b still (omega (arith, l))
        (rw (peers-with_peers c.level p n) found) in
    (m, q, rw (step, fail) before, one, rw (step, fail) after, gone)
