-- ===== src/Coordinator/Budget.antt =====
-- core/raddi_coordinator.cpp, `operator ()`: which new connections the coordinator attempts when it is
-- idle. Random numbers come from a source that is indexed by the draws made; the outcome of an attempt
-- is an argument. Reports and the saving of files are left out.
pub mod Bounds
use raddi.Base.{
  ℕ, zero, suc, ◌+◌, ◌-◌, ◌/◌, Bool, true, false, ◌&&◌, ◌||◌, not, List, [], ◌∷◌, length, ltb, leb,
  ◌==◌, if◌then◌else◌, min, Option, none, some, ◌>>=◌,
}
use raddi.Time.{sub32, older}
use raddi.Address.{Address, address_lt, accessible, full}
use raddi.Peers.{empty, select}
use raddi.Coordinator.Levels.{
  Level, core_nodes, established_nodes, validated_nodes, announced_nodes, Contact, Stage, pending,
  retired, Network, peers, ban, blacklisted,
}
use raddi.Coordinator.Contacts.{active, connected, attempting, inuse}

-- The settings that the budget reads.
pub record Settings : Type 0 where
  pub connections : ℕ
  pub max_connections : ℕ
  pub max_core_connections : ℕ
  pub min_core_connections : ℕ
  pub local_peers_only : Bool
  pub more_peers_query_delay : ℕ

-- The coordinator's own state: the times, the addresses asked for, in order, and the network; the
-- draws and the queries for peers that were broadcast are counted.
pub record Coordinator : Type 0 where
  pub network : Network
  pub pacing : ℕ
  pub started : ℕ
  pub last_peers_query : ℕ
  pub connect_requests : List Address
  pub draws : ℕ
  pub queries : ℕ

abbrev pub coordinator_max_concurrent_connection_attempts : ℕ
coordinator_max_concurrent_connection_attempts = 8

abbrev pub coordinator_override_min_core_connections_count : ℕ
coordinator_override_min_core_connections_count = 1

abbrev pub coordinator_override_min_core_connections_delay : ℕ
coordinator_override_min_core_connections_delay = 30

-- The number of connections that are wanted, and whether one more may be announced.
unfoldable pub wanted : Settings → ℕ → ℕ → Bool → ℕ × Bool
wanted settings secured total one_more =
    let n = min (settings.connections - secured) coordinator_max_concurrent_connection_attempts in
    if settings.max_connections == 0
    then (n, one_more)
    else if ltb (settings.max_connections - total) n
    then (settings.max_connections - total, false)
    else (n, one_more)

-- `addresses`, a map in the order of the addresses: `count` and the insertion of what is not there.
unfoldable pub chosen : Address → List (Address × Level) → Bool
chosen a [] = false
chosen a ((k, l) ∷ ks) = if address_lt k a then chosen a ks else not (address_lt a k)

unfoldable pub choose : Address → Level → List (Address × Level) → List (Address × Level)
choose a v [] = (a, v) ∷ []
choose a v ((k, l) ∷ ks) =
    let rest = choose a v ks in
    if address_lt k a
    then (k, l) ∷ rest
    else if address_lt a k
    then (a, v) ∷ (k, l) ∷ ks
    else (k, l) ∷ ks

-- What a selection may use: the source of random numbers, the addresses of the machine, the settings.
pub record Source : Type 0 where
  pub random : ℕ → ℕ
  pub is_local : Address → Bool
  pub settings : Settings

-- The addresses that are chosen, how many, and the draws made.
pub record Choice : Type 0 where
  pub addresses : List (Address × Level)
  pub taken : ℕ
  pub draws : ℕ

-- May the address be attempted?
unfoldable pub is_unused : Source → Network → Address → List (Address × Level) → Bool
is_unused src n a ks =
    not (inuse a n)
    && (not (chosen a ks)
        && (not (src.is_local a)
            && (not (blacklisted a n) && not (src.settings.local_peers_only && accessible full a))))

-- One round of the loop of `select_unused_addresses`.
unfoldable pub draw_one : Source → Network → Level → Choice → Choice
draw_one src n l c = elim (select (src.random c.draws) (peers l n)) [
  | none ↦ record c { draws = suc c.draws }
  | some (a, s) ↦
      if is_unused src n a c.addresses
      then record { addresses = choose a l c.addresses; taken = suc c.taken; draws = suc c.draws }
      else record c { draws = suc c.draws }
]

-- The loop, over a level that is not empty.
unfoldable pub draw : Source → Network → Level → ℕ → Choice → Choice
draw src n l zero c = c
draw src n l (suc amount) c = draw src n l amount (draw_one src n l c)

-- `select_unused_addresses`: `taken` is what it returns.
unfoldable pub select_unused_addresses : Source → Network → Level → ℕ → Choice → Choice
select_unused_addresses src n l amount c =
    if empty (peers l n)
    then record c { taken = 0 }
    else draw src n l amount (record c { taken = 0 })

-- The connect requests of addresses that are not connected to.
unfoldable pub erase_request : Address → List Address → List Address
erase_request a [] = []
erase_request a (k ∷ ks) =
    if address_lt k a then k ∷ erase_request a ks else if address_lt a k then k ∷ ks else ks

unfoldable pub erase_connected : List Contact → List Address → List Address
erase_connected [] ks = ks
erase_connected (c ∷ cs) ks = elim c.state [
  | retired ↦ erase_connected cs ks
  | _ ↦ erase_connected cs (erase_request c.peer ks)
]

-- The loop that takes connect requests: the addresses, the requests and the number that are left.
unfoldable pub take_requests :
    ℕ → List Address → List (Address × Level) → List (Address × Level) × List Address × ℕ
take_requests zero ks cs = (cs, ks, zero)
take_requests (suc n) [] cs = (cs, [], suc n)
take_requests (suc n) (k ∷ ks) cs = take_requests n ks (choose k announced_nodes cs)

-- Is a core node to be attempted?
unfoldable pub wants_core : Settings → ℕ → ℕ → ℕ → List Contact → Bool
wants_core settings now started secured cs =
    ltb (attempting core_nodes cs) settings.max_core_connections
    && (ltb (connected core_nodes cs) settings.min_core_connections
        || (leb secured coordinator_override_min_core_connections_count
            && ltb coordinator_override_min_core_connections_delay (sub32 now started)))

-- The selections in their order, each of them subtracting what it took: the addresses, what is left of
-- the connect requests, of the number and of the wish for one more, and the draws made.
pub record Plan : Type 0 where
  pub addresses : List (Address × Level)
  pub connect_requests : List Address
  pub left : ℕ
  pub one_more : Bool
  pub draws : ℕ

-- One selection: `n -= select_unused_addresses (level, amount, addresses)`.
unfoldable pub select_some : Source → Network → Level → ℕ → Plan → Plan
select_some src n l amount p =
    let c =
      select_unused_addresses src n l amount
        (record { addresses = p.addresses; taken = 0; draws = p.draws }) in
    record p { addresses = c.addresses; left = p.left - c.taken; draws = c.draws }

unfoldable pub request_some : Network → Plan → Plan
request_some n p =
    let (ks, rs, left) =
      take_requests p.left (erase_connected n.connections p.connect_requests) p.addresses in
    elim p.connect_requests [
      | [] ↦ p
      | r ∷ _ ↦
          if p.left == 0 then p else record p { addresses = ks; connect_requests = rs; left = left }
    ]

unfoldable pub announce_some : Source → Network → Plan → Plan
announce_some src n p =
    if not (p.left == 0) || p.one_more
    then record (select_some src n announced_nodes 1 p) { left = p.left; one_more = false }
    else p

unfoldable pub plan : Source → ℕ → ℕ → ℕ → Network → Plan → Plan
unfolding select_some request_some announce_some
plan src now started secured n p =
    let q =
      if not (p.left == 0) && wants_core src.settings now started secured n.connections
      then select_some src n core_nodes 1 p
      else p in
    let r = request_some n q in
    let s = select_some src n established_nodes (min r.left (src.settings.connections / 2)) r in
    let t = select_some src n validated_nodes (min s.left (src.settings.connections / 4)) s in
    announce_some src n t

-- What becomes of a new connection: its socket is not made, `connect` fails, or it is under way.
pub data Outcome : Type 0 where
  unmade : Outcome
  failed : Outcome
  begun : Outcome

-- The loop that connects.
unfoldable pub connect_all :
    ℕ → (Address → Outcome) → List (Address × Level) → Network → Option Network
connect_all now outcome [] n = some n
connect_all now outcome ((a, l) ∷ ks) n =
    let c : Contact = record { peer = a; level = l; state = pending; connecting = true } in
    let m = record n { connections = c ∷ n.connections } in
    elim (outcome a) [
      | unmade ↦ ban now a 64 n >>= connect_all now outcome ks
      | failed ↦ ban now a 64 m >>= connect_all now outcome ks
      | begun ↦ connect_all now outcome ks m
    ]

-- The query for more peers, when some are wanted for long enough.
unfoldable pub query_peers : ℕ → ℕ → ℕ → Coordinator → Coordinator
query_peers delay now n c =
    if n == 0
    then record c { last_peers_query = now }
    else if older c.last_peers_query (sub32 now delay)
    then record c { last_peers_query = now; queries = suc c.queries }
    else c

-- The plan that an idle coordinator starts from: nothing is chosen yet.
unfoldable pub start : Settings → Coordinator → Plan
start settings c =
    let n = c.network in
    let (left, one_more) =
      wanted settings (active n.connections) (length n.connections)
        n.connect_one_more_announced_node in
    record {
      addresses = [];
      connect_requests = c.connect_requests;
      left = left;
      one_more = one_more;
      draws = c.draws;
    }

-- The plan of an idle coordinator.
unfoldable pub idle_plan : Source → ℕ → Coordinator → Plan
idle_plan src now c =
    plan src now c.started (active c.network.connections) c.network (start src.settings c)

-- `operator ()`.
unfoldable pub idle : Source → (Address → Outcome) → ℕ → Coordinator → Option Coordinator
idle src outcome now c =
    let p = idle_plan src now c in
    let paced = record c { pacing = now } in
    let asked =
      query_peers src.settings.more_peers_query_delay now (start src.settings c).left paced in
    if c.pacing == now
    then some c
    else if ltb (length c.network.connections) src.settings.max_connections
        || (src.settings.max_connections == 0)
    then connect_all now outcome p.addresses
        (record c.network { connect_one_more_announced_node = p.one_more })
      >>= (λ m.
          some
            (record asked { network = m; connect_requests = p.connect_requests; draws = p.draws }))
    else some paced
