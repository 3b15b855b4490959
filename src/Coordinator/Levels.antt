-- ===== src/Coordinator/Levels.antt =====
-- core/raddi_coordinator.cpp and core/raddi_peer_levels.h: the levels of the peers that a node knows, and
-- how they change. Locks, the log and the messages that are sent are left out.
pub mod Expiry
pub mod Known
pub mod Moves
pub mod Single
use raddi.Base.{
  ℕ, zero, suc, ◌+◌, ◌-◌, ◌/◌, ◌%◌, Bool, true, false, ◌&&◌, ◌||◌, not, List, [], ◌∷◌, length, ltb,
  leb, ◌==◌, if◌then◌else◌, Option, none, some, ◌>>=◌, map,
}
use raddi.Address.{Address, address_eq}
use raddi.Peers.{Peers, ℤ, pos, negsuc, count, insert, erase, prune, count_ip, with_port}

-- `level`.
pub data Level : Type 0 where
  core_nodes : Level
  established_nodes : Level
  validated_nodes : Level
  announced_nodes : Level
  blacklisted_nodes : Level

-- The numbers of the levels.
abbrev pub rank : Level → ℕ
rank core_nodes = 0
rank established_nodes = 1
rank validated_nodes = 2
rank announced_nodes = 3
rank blacklisted_nodes = 4

abbrev pub same_level : Level → Level → Bool
same_level l k = rank l == rank k

-- `connection::state`.
pub data Stage : Type 0 where
  pending : Stage
  secured : Stage
  retired : Stage

-- What the coordinator reads of a connection.
pub record Contact : Type 0 where
  pub peer : Address
  pub level : Level
  pub state : Stage
  pub connecting : Bool

-- `database.peers` by level, the connections, the newest first, and the wish for one more attempt.
pub record Network : Type 0 where
  pub core : Peers
  pub established : Peers
  pub validated : Peers
  pub announced : Peers
  pub blacklisted : Peers
  pub connections : List Contact
  pub connect_one_more_announced_node : Bool

-- `peerset::new_record_assessment`.
abbrev pub new_record_assessment : ℕ
new_record_assessment = 0x40

-- `database.peers [level]`.
abbrev pub peers : Level → Network → Peers
peers core_nodes n = n.core
peers established_nodes n = n.established
peers validated_nodes n = n.validated
peers announced_nodes n = n.announced
peers blacklisted_nodes n = n.blacklisted

abbrev pub with_peers : Level → Peers → Network → Network
with_peers core_nodes p n = record n { core = p }
with_peers established_nodes p n = record n { established = p }
with_peers validated_nodes p n = record n { validated = p }
with_peers announced_nodes p n = record n { announced = p }
with_peers blacklisted_nodes p n = record n { blacklisted = p }

-- `find`: from the last level to the first.
unfoldable pub level_of : Address → Network → Option Level
level_of a n =
    if count a n.blacklisted
    then some blacklisted_nodes
    else if count a n.announced
    then some announced_nodes
    else if count a n.validated
    then some validated_nodes
    else if count a n.established
    then some established_nodes
    else if count a n.core
    then some core_nodes
    else none

-- `database.peers [level]->erase (address)`, with fuel for its loop.
unfoldable pub erase_at : Level → Address → Network → Option Network
erase_at l a n = elim (erase (suc (length (peers l n).addresses)) a (peers l n)) [
  | none ↦ none
  | some p ↦ some (with_peers l p n)
]

-- The loop of `move`: does it end where it may insert? `none` when the fuel has run out.
unfoldable pub withdraw : ℕ → Address → Network → Option (Network × Bool)
withdraw zero a n = none
withdraw (suc fuel) a n = elim (level_of a n) [
  | none ↦ some (n, true)
  | some blacklisted_nodes ↦ some (n, false)
  | some l ↦ erase_at l a n >>= withdraw fuel a
]

-- The connections to the address take the new level, unless they are retired.
unfoldable pub relevel : Address → Level → List Contact → List Contact
relevel a l [] = []
relevel a l (c ∷ cs) = elim c.state [
  | retired ↦ c ∷ relevel a l cs
  | _ ↦ (if address_eq c.peer a then record c { level = l } else c) ∷ relevel a l cs
]

-- `move` of an address. Five levels need no more than six rounds of the loop.
unfoldable pub move : Address → Level → ℕ → Bool → Network → Option (Network × Bool)
move a new_level assessment adjust n = withdraw 6 a n >>= (λ r.
    let (m, free) = r in
    let moved = with_peers new_level (insert a assessment (peers new_level m)) m in
    if not free
    then some (m, false)
    else if adjust
    then some (record moved { connections = relevel a new_level m.connections }, true)
    else some (moved, true))

-- `now () / 86400 + days`, as a `std::uint16_t`.
abbrev pub lifted : ℕ → ℕ → ℕ
lifted now days = (now / 86400 + days) % 0x10000

-- `ban`.
unfoldable pub ban : ℕ → Address → ℕ → Network → Option Network
ban now a days n =
    if days == 0
    then erase_at blacklisted_nodes a n
    else (move a blacklisted_nodes (lifted now days) true n >>= (λ r. some r.0))

-- `blacklisted`.
unfoldable pub blacklisted : Address → Network → Bool
blacklisted a n =
    if not (a.port == 0)
    then count (with_port 0 a) n.blacklisted || count a n.blacklisted
    else count_ip a n.blacklisted

-- `add`.
unfoldable pub add : Level → Address → Network → Option Network
add place a n = elim (level_of a n) [
  | some previous ↦
      if ltb (rank place) (rank previous)
      then (move a place new_record_assessment true n >>= (λ r. some r.0))
      else some n
  | none ↦ some (with_peers place (insert a new_record_assessment (peers place n)) n)
]

-- `flush`, what it erases: the bans whose day has come.
unfoldable pub flush : ℕ → Network → Network
flush now n = with_peers blacklisted_nodes (prune ((now / 86400) % 0x10000) n.blacklisted) n
