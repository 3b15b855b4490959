-- ===== src/Tests/Networks.antt =====
-- core/raddi_coordinator.cpp: levels, attempts and histories at small data.
use raddi.Base.{ℕ, ◌+◌, ◌≤◌, true, false, [], ◌∷◌, length, some, ◌≡◌, ◌≢◌, refl, arith, inl}
use raddi.Address.{Address, af_inet}
use raddi.Address.Strict.{IsProper}
use raddi.Peers.{Peers, find, count}
use raddi.Coordinator.Levels.{announced_nodes, secured, pending, Contact, Network, ban, flush}
use raddi.Coordinator.Levels.Known.{IsKept, standing}
use raddi.Coordinator.Levels.Single.{IsSingle}
use raddi.Coordinator.Levels.Expiry.{ban-flush}
use raddi.Coordinator.Contacts.Invariant.{banned, failed, listens, happen_all, happen_all-IsSingle}
use raddi.Coordinator.Contacts.{active}
use raddi.Coordinator.Contacts.Attempts.{fail, fail_lem}
use raddi.Coordinator.Budget.{Source, Coordinator, idle_plan}
use raddi.Coordinator.Budget.Bounds.{idle_plan_bounds}

abbrev host : ℕ → ℕ → Address
host n port = record { family = af_inet; port = port; bytes = 8 ∷ 8 ∷ 8 ∷ n ∷ [] }

host-IsProper : (n port : ℕ) → IsProper (host n port)
unfolding raddi.Address.size
host-IsProper n port = record { family = inl refl; bytes = refl }

abbrev empty : Peers
empty = record { addresses = []; ipv4changed = false; ipv6changed = false }

-- A freshly announced address, with two attempts, and one active connection.
abbrev small : Network
small = record {
  core = empty;
  established = empty;
  validated = empty;
  announced = record empty { addresses = (host 1 4000, 2) ∷ [] };
  blacklisted = empty;
  connections =
      record { peer = host 2 4000; level = announced_nodes; state = secured; connecting = false }
      ∷ [];
  connect_one_more_announced_node = true;
}

abbrev attempt : Contact
attempt = record { peer = host 1 4000; level = announced_nodes; state = pending; connecting = true }

small-IsKept : IsKept small
small-IsKept = record {
  core = tt;
  established = tt;
  validated = tt;
  announced = (host-IsProper 1 4000, tt, tt);
  blacklisted = tt;
}

small-IsSingle : IsSingle small
unfolding standing count find
small-IsSingle = record { kept = small-IsKept; once = λ b w. ground arith }

one_active : active small.connections ≢ 0
unfolding active
one_active = omega arith

two_attempts : find (host 1 4000) small.announced.addresses ≡ some 2
unfolding find raddi.Address.address_lt raddi.Address.bytes_eq raddi.Address.bytes_lt
two_attempts = refl

fail_lem_example :
    (m : Network) × (q : Network) × (fail 1 attempt small ≡ some m)
    × (find (host 1 4000) m.announced.addresses ≡ some 1)
    × (fail 2 attempt small ≡ some q)
    × (count (host 1 4000) q.announced ≡ false)
fail_lem_example =
    fail_lem 1 attempt small (host-IsProper 1 4000) small-IsKept refl refl one_active (omega arith)
      two_attempts

happen_all-IsSingle_example :
    (m : Network) × (happen_all
        (banned 86400000 (host 3 0) 14 ∷ listens attempt 5000 ∷ failed attempt ∷ [])
        small
      ≡ some m)
    × IsSingle m
happen_all-IsSingle_example =
    happen_all-IsSingle (banned 86400000 (host 3 0) 14 ∷ listens attempt 5000 ∷ failed attempt ∷ [])
      small (host-IsProper 3 0, (host-IsProper 1 5000, (host-IsProper 1 4000, tt))) small-IsSingle

not_banned : count (host 1 4000) small.blacklisted ≡ false
unfolding count find
not_banned = refl

ban-flush_example :
    (m : Network) × (ban 86400000 (host 1 4000) 14 small ≡ some m)
    × (find (host 1 4000) (flush (86400000 + 86400) m).blacklisted.addresses ≡ some 1014)
ban-flush_example =
    ban-flush 86400000 (86400000 + 86400) (host 1 4000) 14 small (host-IsProper 1 4000) small-IsKept
      (omega arith) not_banned

-- Room for one more connection, which is wanted, and a wish for one more.
abbrev source : Source
source = record {
  random = λ i. i;
  is_local = λ a. false;
  settings = record {
    connections = 2;
    max_connections = 2;
    max_core_connections = 3;
    min_core_connections = 1;
    local_peers_only = false;
    more_peers_query_delay = 180;
  };
}

abbrev coordinator : Coordinator
coordinator = record {
  network = small;
  pacing = 0;
  started = 0;
  last_peers_query = 0;
  connect_requests = host 5 4000 ∷ [];
  draws = 0;
  queries = 0;
}

idle_plan_bounds_example :
    (length (idle_plan source 9 coordinator).addresses ≤ 9)
    × (1 + length (idle_plan source 9 coordinator).addresses ≤ 2 + 1)
idle_plan_bounds_example = idle_plan_bounds source 9 coordinator (omega arith) (omega arith)
