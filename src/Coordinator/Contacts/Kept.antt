-- ===== src/Coordinator/Contacts/Kept.antt =====
-- core/raddi_coordinator.cpp: no address comes to stand on two levels, in the functions about connections.
use raddi.Base.{
  ℕ, Bool, true, false, ◌&&◌, ◌∷◌, Option, some, ◌≡◌, refl, arith, inl, inr, Option-cases,
  Bool-cases, ◌>>=◌, ◌==◌, if◌then◌else◌, ltb, ◌%◌, ◌+◌, ◌-◌, ◌*◌, ◌/◌,
}
use raddi.Address.{Address, address_eq}
use raddi.Address.Strict.{IsProper}
use raddi.Peers.{count, insert, count_ip, adjust, pos, negsuc, with_port}
use raddi.Coordinator.Levels.{
  Level, core_nodes, established_nodes, validated_nodes, announced_nodes, blacklisted_nodes,
  Network, Contact, pending, peers, with_peers, level_of, new_record_assessment, same_level,
}
use raddi.Coordinator.Levels.Known.{level_of-standing}
use raddi.Coordinator.Levels.Single.{
  IsSingle, adjusted-IsSingle, inserted-IsSingle, move-IsSingle, erase_at-IsSingle, ban-IsSingle,
  rewired-IsSingle, woken-IsSingle,
}
use raddi.Coordinator.Contacts.{
  incomming, established, move_connection, unavailable, disagreed, active, listening, NewPeer,
  announced, acceptable, newpeer, learn, is_outbound, blacklisted,
}

abbrev pub Keeps : Option Network → Type 0
Keeps o = (m : Network) × (o ≡ some m) × IsSingle m

-- The connection of `incomming`.
abbrev inbound : Address → Network → Contact
inbound a n = record {
  peer = with_port 0 a;
  level = if count_ip a n.core then core_nodes else blacklisted_nodes;
  state = pending;
  connecting = false;
}

pub came-IsSingle :
    (a : Address) (accepts : Bool) (n : Network) → IsSingle n → IsSingle (incomming a accepts n).0
unfolding incomming
came-IsSingle a accepts n i = elim (Bool-cases (blacklisted a n)) [
  | inl h ↦ rw h i
  | inr h ↦ rw h (rewired-IsSingle n (inbound a n ∷ n.connections) i)
]

connection-IsSingle :
    (c : Contact) (l : Level) (n : Network)
    → IsProper c.peer
    → IsSingle n
    → Keeps (move_connection c l n >>= (λ r. some r.1))
unfolding move_connection
connection-IsSingle c l n w i =
    let (m, b, ends, single) = move-IsSingle c.peer l new_record_assessment false n w i in
    (m, rw (ends, move_connection) refl, single)

reached_at :
    (l : Level) (c : Contact) (n : Network)
    → c.level ≡ l
    → is_outbound c ≡ true
    → IsProper c.peer
    → IsSingle n
    → Keeps (established c n >>= (λ r. some r.1))
unfolding established
reached_at core_nodes c n e h w i = (n, rw (h, e, established) refl, i)
reached_at established_nodes c n e h w i = (
  with_peers established_nodes (adjust c.peer (pos 1) n.established).0 n,
  rw (h, e, established) refl,
  adjusted-IsSingle established_nodes c.peer (pos 1) n i,
)
reached_at validated_nodes c n e h w i =
    let m = with_peers validated_nodes (adjust c.peer (pos 1) n.validated).0 n in
    let kept = adjusted-IsSingle validated_nodes c.peer (pos 1) n i in
    elim (Bool-cases (ltb (new_record_assessment + 1) (adjust c.peer (pos 1) n.validated).1)) [
      | inl t ↦
          let (q, ends, single) = connection-IsSingle c established_nodes m w kept in
          (q, ground (arith, h, e, t, ends), single)
      | inr t ↦ (m, rw (h, e, established) (rw t refl), kept)
    ]
reached_at announced_nodes c n e h w i =
    let (q, ends, single) = connection-IsSingle c validated_nodes n w i in
    (q, ground (arith, h, e, ends), single)
reached_at blacklisted_nodes c n e h w i = (n, rw (h, e, established) refl, i)

pub reached-IsSingle :
    (c : Contact) (n : Network)
    → IsProper c.peer
    → IsSingle n
    → Keeps (established c n >>= (λ r. some r.1))
unfolding established
reached-IsSingle c n w i = elim (Bool-cases (is_outbound c)) [
  | inl h ↦ reached_at c.level c n refl h w i
  | inr h ↦ (n, rw (h, established) refl, i)
]

pub failed-IsSingle :
    (c : Contact) (n : Network) → IsProper c.peer → IsSingle n → Keeps (unavailable c n)
unfolding unavailable
failed-IsSingle c n w i = elim (Bool-cases (is_outbound c)) [
  | inr h ↦ (n, rw (h, unavailable) refl, i)
  | inl h ↦ elim (Bool-cases (active n.connections == 0)) [
    | inl g ↦ (n, rw (h, g, unavailable) refl, i)
    | inr g ↦ elim (Bool-cases (same_level c.level blacklisted_nodes)) [
      | inl b ↦ (n, rw (h, g, unavailable) (rw b refl), i)
      | inr b ↦
          let a = adjust c.peer (negsuc 0) (peers c.level n) in
          let m = with_peers c.level a.0 n in
          let kept = adjusted-IsSingle c.level c.peer (negsuc 0) n i in
          elim (Bool-cases (a.1 == 0)) [
            | inl z ↦
                let (q, ends, single) = erase_at-IsSingle c.level c.peer m w kept in
                (q, rw (h, g, unavailable) (rw b (rw z ends)), single)
            | inr z ↦ (m, rw (h, g, unavailable) (rw b (rw z refl)), kept)
          ]
    ]
  ]
]

pub disagreeing-IsSingle :
    (now : ℕ) (c : Contact) (n : Network) → IsProper c.peer → IsSingle n → Keeps (disagreed now c n)
unfolding disagreed
disagreeing-IsSingle now c n w i = elim (Bool-cases (same_level c.level blacklisted_nodes)) [
  | inl b ↦ (n, rw (b, disagreed) refl, i)
  | inr b ↦ elim (Bool-cases (is_outbound c)) [
    | inr h ↦ (n, rw (h, disagreed) (rw b refl), i)
    | inl h ↦
        let a = adjust c.peer (negsuc (0xF - 1)) (peers c.level n) in
        let m = with_peers c.level a.0 n in
        let kept = adjusted-IsSingle c.level c.peer (negsuc (0xF - 1)) n i in
        elim (Bool-cases (a.1 == 0)) [
          | inl z ↦
              let (q, ends, single) = ban-IsSingle now c.peer 14 m w kept in
              (q, rw (h, disagreed) (rw b (rw z ends)), single)
          | inr z ↦ (m, rw (h, disagreed) (rw b (rw z refl)), kept)
        ]
  ]
]

pub listens-IsSingle :
    (c : Contact) (port : ℕ) (n : Network)
    → IsProper (with_port port c.peer)
    → IsSingle n
    → IsSingle (listening c port n)
unfolding listening
listens-IsSingle c port n w i = elim (Bool-cases (port == 0)) [
  | inl z ↦ rw (z, listening) i
  | inr z ↦ elim (Option-cases (level_of (with_port port c.peer) n)) [
    | inr (l, e) ↦ rw (z, e, listening) i
    | inl e ↦ elim (Bool-cases (count (with_port port c.peer) n.blacklisted)) [
      | inl b ↦ rw (z, e, b, listening) i
      | inr b ↦
          let a = with_port port c.peer in
          let m = with_peers announced_nodes (insert a new_record_assessment n.announced) n in
          let kept =
            inserted-IsSingle a announced_nodes new_record_assessment n w (level_of-standing a n e)
              i in
          rw (z, e, b, listening) (woken-IsSingle m true kept)
    ]
  ]
]

learn-IsSingle :
    (random1 random2 : ℕ) (a : Address) (n : Network)
    → IsProper a
    → IsSingle n
    → IsSingle (learn random1 random2 a n)
unfolding learn
learn-IsSingle random1 random2 a n w i = elim (Option-cases (level_of a n)) [
  | inr (l, e) ↦ rw (e, learn) i
  | inl e ↦
      let z = level_of-standing a n e in
      let fake = 9 * (random2 % new_record_assessment) / 8 + 1 in
      elim (Bool-cases (random1 % 8 == 0)) [
        | inl r ↦ rw (e, r, learn) (inserted-IsSingle a validated_nodes fake n w z i)
        | inr r ↦ rw (e, r, learn) (inserted-IsSingle a announced_nodes 2 n w z i)
      ]
]

pub announces-IsSingle :
    (local : Bool) (random1 random2 : ℕ) (c : Contact) (r : NewPeer) (n : Network)
    → IsProper (with_port r.port (announced c r))
    → IsSingle n
    → Keeps (newpeer local random1 random2 c r n)
unfolding newpeer
announces-IsSingle local random1 random2 c r n w i =
    let a = with_port r.port (announced c r) in
    elim (Bool-cases (address_eq (announced c r) c.peer)) [
      | inl h ↦ (n, rw (h, newpeer) refl, i)
      | inr h ↦ elim (Bool-cases (count a n.blacklisted)) [
        | inl b ↦ (n, rw (h, b, newpeer) refl, i)
        | inr b ↦ elim (Bool-cases (acceptable local c a)) [
          | inr d ↦ (n, rw (h, b, newpeer) (rw d refl), i)
          | inl d ↦ elim (Bool-cases (r.is_core && same_level c.level core_nodes)) [
            | inl e ↦
                let (m, moves, ends, single) =
                  move-IsSingle a core_nodes new_record_assessment true n w i in
                (m, rw (h, b, newpeer) (rw d (rw e (rw ends refl))), single)
            | inr e ↦ (
              learn random1 random2 a n,
              rw (h, b, newpeer) (rw d (rw e refl)),
              learn-IsSingle random1 random2 a n w i,
            )
          ]
        ]
      ]
    ]
