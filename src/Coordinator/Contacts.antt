-- ===== src/Coordinator/Contacts.antt =====
-- core/raddi_coordinator.cpp: the connections to peers, and what becomes of the levels of the peers that
-- they reach, that fail, that misbehave, or that others announce.
pub mod Attempts
pub mod Invariant
pub mod Kept
use raddi.Base.{
  ℕ, zero, suc, ◌+◌, ◌-◌, ◌*◌, ◌/◌, ◌%◌, Bool, true, false, ◌&&◌, ◌||◌, not, List, [], ◌∷◌, ltb,
  leb, ◌==◌, if◌then◌else◌, Option, none, some, ◌>>=◌,
}
use raddi.Address.{Address, address_eq, accessible, full, allow_null_port, af_inet, af_inet6}
use raddi.Peers.{Peers, ℤ, pos, negsuc, count, adjust, insert, count_ip, with_port}
use raddi.Coordinator.Levels.{
  Level, core_nodes, established_nodes, validated_nodes, announced_nodes, blacklisted_nodes,
  same_level, Stage, pending, secured, retired, Contact, Network, peers, with_peers,
  new_record_assessment, level_of, erase_at, move, ban, blacklisted, add,
}

abbrev pub is_outbound : Contact → Bool
is_outbound c = not (c.peer.port == 0)

abbrev is_secured : Stage → Bool
is_secured pending = false
is_secured secured = true
is_secured retired = false

abbrev is_retired : Stage → Bool
is_retired pending = false
is_retired secured = false
is_retired retired = true

-- `active`: the connections that are secured, those of a level, and the attempts of a level.
unfoldable pub active : List Contact → ℕ
active [] = 0
active (c ∷ cs) = if is_secured c.state then suc (active cs) else active cs

unfoldable pub connected : Level → List Contact → ℕ
connected l [] = 0
connected l (c ∷ cs) =
    if is_secured c.state && same_level c.level l then suc (connected l cs) else connected l cs

unfoldable pub attempting : Level → List Contact → ℕ
attempting l [] = 0
attempting l (c ∷ cs) =
    if not (is_retired c.state) && (c.connecting && same_level c.level l)
    then suc (attempting l cs)
    else attempting l cs

-- `broadcasting`, by the two settings.
unfoldable pub broadcasting : ℕ → ℕ → Network → Bool
broadcasting min_connections min_core_connections n =
    leb min_connections (active n.connections)
    && leb min_core_connections (connected core_nodes n.connections)

unfoldable pub any_peer : (Address → Bool) → List Contact → Bool
any_peer f [] = false
any_peer f (c ∷ cs) = f c.peer || any_peer f cs

-- `inuse`.
unfoldable pub inuse : Address → Network → Bool
inuse a n = any_peer (λ p. address_eq p a || address_eq p (with_port 0 a)) n.connections

-- `incomming`: the new connection and the answer; `accepts` is what `accepted` of it answers.
unfoldable pub incomming : Address → Bool → Network → Network × Bool
incomming remote accepts n =
    let level = if count_ip remote n.core then core_nodes else blacklisted_nodes in
    let c : Contact = record {
      peer = with_port 0 remote;
      level = level;
      state = pending;
      connecting = false;
    } in
    if blacklisted remote n
    then (n, false)
    else (record n { connections = c ∷ n.connections }, accepts)

-- `move` of a connection: its level changes with that of its peer.
unfoldable pub move_connection : Contact → Level → Network → Option (Contact × Network)
move_connection c new_level n =
    move c.peer new_level new_record_assessment false n
    >>= (λ r. some ((if r.1 then record c { level = new_level } else c), r.0))

-- `established`, what it does to the levels of an outbound peer.
unfoldable pub established : Contact → Network → Option (Contact × Network)
established c n = if not (is_outbound c) then some (c, n) else elim c.level [
  | established_nodes ↦
      some (c, with_peers established_nodes (adjust c.peer (pos 1) n.established).0 n)
  | validated_nodes ↦
      let (p, assessment) = adjust c.peer (pos 1) n.validated in
      let m = with_peers validated_nodes p n in
      if ltb (new_record_assessment + 1) assessment
      then move_connection c established_nodes m
      else some (c, m)
  | announced_nodes ↦ move_connection c validated_nodes n
  | _ ↦ some (c, n)
]

-- `unavailable`.
unfoldable pub unavailable : Contact → Network → Option Network
unavailable c n =
    let (p, assessment) = adjust c.peer (negsuc 0) (peers c.level n) in
    let m = with_peers c.level p n in
    if not (is_outbound c)
    then some n
    else if active n.connections == 0
    then some n
    else if same_level c.level blacklisted_nodes
    then some n
    else if assessment == 0
    then erase_at c.level c.peer m
    else some m

-- `disagreed`.
unfoldable pub disagreed : ℕ → Contact → Network → Option Network
disagreed now c n =
    let (p, assessment) = adjust c.peer (negsuc (0xF - 1)) (peers c.level n) in
    let m = with_peers c.level p n in
    if same_level c.level blacklisted_nodes
    then some n
    else if not (is_outbound c)
    then some n
    else if assessment == 0
    then (if is_outbound c then ban now c.peer 14 m else ban now c.peer 1 m)
    else some m

-- The request `listening`: an inbound peer names the port that it listens on.
unfoldable pub listening : Contact → ℕ → Network → Network
listening c port n =
    let a = with_port port c.peer in
    let m = with_peers announced_nodes (insert a new_record_assessment n.announced) n in
    if port == 0 then n else elim (level_of a n) [
      | some l ↦ n
      | none ↦
          if not (count a n.blacklisted)
          then record m { connect_one_more_announced_node = true }
          else n
    ]

-- What a request `ipv4peer` or `ipv6peer` carries.
pub record NewPeer : Type 0 where
  pub family : ℕ
  pub bytes : List ℕ
  pub port : ℕ
  pub is_core : Bool

-- The address that is compared with the peer's own.
abbrev pub announced : Contact → NewPeer → Address
announced c r = record {
  family = r.family;
  port = if is_outbound c then r.port else 0;
  bytes = r.bytes;
}

-- Is the announced address acceptable from this peer?
unfoldable pub acceptable : Bool → Contact → Address → Bool
acceptable local_peers_only c a =
    if local_peers_only
    then not (accessible full a)
    else accessible full a || not (accessible allow_null_port c.peer)

-- An address that is not known is announced, or now and then taken for validated.
unfoldable pub learn : ℕ → ℕ → Address → Network → Network
learn random1 random2 a n =
    let fake_assessment = 9 * (random2 % new_record_assessment) / 8 + 1 in
    elim (level_of a n) [
      | some l ↦ n
      | none ↦
          if random1 % 8 == 0
          then with_peers validated_nodes (insert a fake_assessment n.validated) n
          else with_peers announced_nodes (insert a 2 n.announced) n
    ]

-- The requests `ipv4peer` and `ipv6peer`.
unfoldable pub newpeer : Bool → ℕ → ℕ → Contact → NewPeer → Network → Option Network
newpeer local_peers_only random1 random2 c r n =
    let a = with_port r.port (announced c r) in
    if address_eq (announced c r) c.peer
    then some n
    else if count a n.blacklisted
    then some n
    else if not (acceptable local_peers_only c a)
    then some n
    else if r.is_core && same_level c.level core_nodes
    then (move a core_nodes new_record_assessment true n >>= (λ q. some q.0))
    else some (learn random1 random2 a n)
