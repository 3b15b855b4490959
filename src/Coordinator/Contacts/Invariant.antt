-- ===== src/Coordinator/Contacts/Invariant.antt =====
-- core/raddi_coordinator.cpp: the levels of the peers through a sequence of events.
use raddi.Base.{ℕ, Bool, List, [], ◌∷◌, All, Option, some, ◌≡◌, refl, ◌>>=◌}
use raddi.Address.{Address}
use raddi.Address.Strict.{IsProper}
use raddi.Peers.{with_port}
use raddi.Coordinator.Levels.{Level, Network, Contact, ban, add}
use raddi.Coordinator.Levels.Single.{IsSingle, ban-IsSingle, add-IsSingle}
use raddi.Coordinator.Contacts.{
  incomming, established, unavailable, disagreed, listening, NewPeer, announced, newpeer,
}
use raddi.Coordinator.Contacts.Kept.{
  Keeps, came-IsSingle, reached-IsSingle, failed-IsSingle, disagreeing-IsSingle, listens-IsSingle,
  announces-IsSingle,
}

-- What changes the levels of the peers.
pub data Event : Type 0 where
  banned : ℕ → Address → ℕ → Event
  added : Level → Address → Event
  came : Address → Bool → Event
  reached : Contact → Event
  failed : Contact → Event
  disagreeing : ℕ → Contact → Event
  listens : Contact → ℕ → Event
  announces : Bool → ℕ → ℕ → Contact → NewPeer → Event

-- The address that an event is about; an announced address keeps its bytes whatever its port.
abbrev pub subject : Event → Address
subject (banned now a days) = a
subject (added l a) = a
subject (came a accepts) = a
subject (reached c) = c.peer
subject (failed c) = c.peer
subject (disagreeing now c) = c.peer
subject (listens c port) = with_port port c.peer
subject (announces local random1 random2 c r) = with_port r.port (announced c r)

unfoldable pub happen : Event → Network → Option Network
happen (banned now a days) n = ban now a days n
happen (added l a) n = add l a n
happen (came a accepts) n = some (incomming a accepts n).0
happen (reached c) n = established c n >>= (λ r. some r.1)
happen (failed c) n = unavailable c n
happen (disagreeing now c) n = disagreed now c n
happen (listens c port) n = some (listening c port n)
happen (announces local random1 random2 c r) n = newpeer local random1 random2 c r n

unfoldable pub happen_all : List Event → Network → Option Network
happen_all [] n = some n
happen_all (e ∷ es) n = happen e n >>= happen_all es

happen-IsSingle : (e : Event) (n : Network) → IsProper (subject e) → IsSingle n → Keeps (happen e n)
unfolding happen
happen-IsSingle (banned now a days) n w i = ban-IsSingle now a days n w i
happen-IsSingle (added l a) n w i = add-IsSingle l a n w i
happen-IsSingle (came a accepts) n w i =
    ((incomming a accepts n).0, refl, came-IsSingle a accepts n i)
happen-IsSingle (reached c) n w i = reached-IsSingle c n w i
happen-IsSingle (failed c) n w i = failed-IsSingle c n w i
happen-IsSingle (disagreeing now c) n w i = disagreeing-IsSingle now c n w i
happen-IsSingle (listens c port) n w i = (listening c port n, refl, listens-IsSingle c port n w i)
happen-IsSingle (announces local random1 random2 c r) n w i =
    announces-IsSingle local random1 random2 c r n w i

-- Whatever events follow each other, as long as their addresses are proper: every loop ends, the addresses
-- of every level stay in order, and no proper address comes to stand on two levels. It was so before.
pub happen_all-IsSingle :
    (es : List Event) (n : Network)
    → All (λ e. IsProper (subject e)) es
    → IsSingle n
    → (m : Network) × (happen_all es n ≡ some m) × IsSingle m
unfolding happen_all
happen_all-IsSingle [] n w i = (n, refl, i)
happen_all-IsSingle (e ∷ es) n w i =
    let (m, ends, single) = happen-IsSingle e n w.0 i in
    let (q, rest, last) = happen_all-IsSingle es m w.1 single in
    (q, rw (ends, happen_all) rest, last)
