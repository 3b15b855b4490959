-- ===== src/Coordinator/Budget/Bounds.antt =====
-- core/raddi_coordinator.cpp: how many connections an idle coordinator attempts.
use raddi.Base.{
  ℕ, zero, suc, ◌+◌, ◌/◌, ◌≤◌, ◌<◌, min, Bool, true, false, ◌&&◌, ◌||◌, not, List, [], ◌∷◌, length,
  if◌then◌else◌, ◌∙◌, ◌==◌, ◌≡◌, ◌≢◌, refl, ap, arith, inl, inr, Bool-cases, Option-cases,
}
use raddi.Address.{Address}
use raddi.Peers.{empty, select}
use raddi.Coordinator.Levels.{
  Level, core_nodes, established_nodes, validated_nodes, announced_nodes, Network, peers,
}
use raddi.Coordinator.Levels.Known.{one}
use raddi.Coordinator.Contacts.{active}
use raddi.Coordinator.Budget.{
  Settings, Coordinator, wanted, choose, Source, Choice, draw_one, draw, select_unused_addresses,
  erase_connected, take_requests, wants_core, Plan, select_some, request_some, announce_some, plan,
  start, idle_plan,
}

length-choose :
    (a : Address) (v : Level) (ks : List (Address × Level))
    → length (choose a v ks) ≤ suc (length ks)
unfolding choose
length-choose a v [] = omega arith
length-choose a v ((k, l) ∷ ks) = ground (arith, length-choose a v ks)

-- A choice is within an amount of another.
record IsWithin (amount : ℕ) (c d : Choice) : Type 0 where
  size : length d.addresses + c.taken ≤ length c.addresses + d.taken
  taken : d.taken ≤ c.taken + amount

draw_one-IsWithin :
    (src : Source) (n : Network) (l : Level) (c : Choice) → IsWithin 1 c (draw_one src n l c)
unfolding draw_one
draw_one-IsWithin src n l c = elim (Option-cases (select (src.random c.draws) (peers l n))) [
  | inl e ↦ record { size = ground (arith, e); taken = ground (arith, e) }
  | inr (p, e) ↦ record {
    size = ground (arith, e, length-choose p.0 l c.addresses);
    taken = ground (arith, e);
  }
]

draw-IsWithin :
    (src : Source) (n : Network) (l : Level) (amount : ℕ) (c : Choice)
    → IsWithin amount c (draw src n l amount c)
unfolding draw
draw-IsWithin src n l zero c = record { size = omega arith; taken = omega arith }
draw-IsWithin src n l (suc k) c =
    let one = draw_one-IsWithin src n l c in
    let more = draw-IsWithin src n l k (draw_one src n l c) in
    record {
      size = omega (arith, one.size, more.size);
      taken = omega (arith, one.taken, more.taken);
    }

-- What a selection takes: as many addresses as it says, and no more than it was asked for.
select_unused-IsWithin :
    (src : Source) (n : Network) (l : Level) (amount : ℕ) (c : Choice)
    → IsWithin amount (record c { taken = 0 }) (select_unused_addresses src n l amount c)
unfolding select_unused_addresses
select_unused-IsWithin src n l amount c = elim (Bool-cases (empty (peers l n))) [
  | inl e ↦ rw (e, select_unused_addresses) (record { size = omega arith; taken = omega arith })
  | inr e ↦ rw (e, select_unused_addresses) (draw-IsWithin src n l amount (record c { taken = 0 }))
]

-- A plan within a number of addresses.
IsBounded : ℕ → Plan → Type 0
IsBounded k p = length p.addresses + p.left ≤ k

select_some-IsBounded :
    (src : Source) (n : Network) (l : Level) (amount k : ℕ) (p : Plan)
    → amount ≤ p.left
    → IsBounded k p
    → IsBounded k (select_some src n l amount p)
unfolding select_some IsBounded
select_some-IsBounded src n l amount k p a b =
    let w =
      select_unused-IsWithin src n l amount
        (record { addresses = p.addresses; taken = 0; draws = p.draws }) in
    omega (arith, w.size, w.taken, a, b)

take_requests-length :
    (n : ℕ) (ks : List Address) (cs : List (Address × Level))
    → length (take_requests n ks cs).0 + (take_requests n ks cs).2 ≤ length cs + n
unfolding take_requests
take_requests-length zero ks cs = omega arith
take_requests-length (suc n) [] cs = omega arith
take_requests-length (suc n) (k ∷ ks) cs = omega (
  arith,
  take_requests-length n ks (choose k announced_nodes cs),
  length-choose k announced_nodes cs,
)

request_some-IsBounded :
    (n : Network) (k : ℕ) (p : Plan) → IsBounded k p → IsBounded k (request_some n p)
unfolding request_some IsBounded
request_some-IsBounded n k p b = ground (
  arith,
  b,
  take_requests-length p.left (erase_connected n.connections p.connect_requests) p.addresses,
)

announce_some-IsBounded :
    (src : Source) (n : Network) (k : ℕ) (p : Plan)
    → IsBounded k p
    → length (announce_some src n p).addresses ≤ suc k
unfolding announce_some IsBounded select_some
announce_some-IsBounded src n k p b =
    let w =
      select_unused-IsWithin src n announced_nodes 1
        (record { addresses = p.addresses; taken = 0; draws = p.draws }) in
    elim (Bool-cases (not (p.left == 0) || p.one_more)) [
      | inl h ↦ rw (h, announce_some) (omega (arith, w.size, w.taken, b))
      | inr h ↦ rw (h, announce_some) (omega (arith, b))
    ]

announce_none-IsBounded :
    (src : Source) (n : Network) (k : ℕ) (p : Plan)
    → p.one_more ≡ false
    → IsBounded k p
    → length (announce_some src n p).addresses ≤ k
unfolding announce_some IsBounded select_some
announce_none-IsBounded src n k p f b =
    let w =
      select_unused-IsWithin src n announced_nodes 1
        (record { addresses = p.addresses; taken = 0; draws = p.draws }) in
    elim (Bool-cases (p.left == 0)) [
      | inl h ↦
          let idle : (not (p.left == 0) || p.one_more) ≡ false = ground (arith, h, f) in
          rw (idle, announce_some) (omega (arith, b))
      | inr h ↦
          let going : (not (p.left == 0) || p.one_more) ≡ true = ground (arith, h) in
          rw (going, announce_some) (ground (arith, w.size, w.taken, b, h))
    ]

-- The steps before the last: bounded, and the wish for one more as it was.
record IsHeld (k : ℕ) (b : Bool) (p : Plan) : Type 0 where
  bounded : IsBounded k p
  wish : p.one_more ≡ b

select_some-IsHeld :
    (src : Source) (n : Network) (l : Level) (amount k : ℕ) (b : Bool) (p : Plan)
    → amount ≤ p.left
    → IsHeld k b p
    → IsHeld k b (select_some src n l amount p)
unfolding select_some
select_some-IsHeld src n l amount k b p a h = record {
  bounded = select_some-IsBounded src n l amount k p a h.bounded;
  wish = h.wish;
}

request_some-IsHeld :
    (n : Network) (k : ℕ) (b : Bool) (p : Plan) → IsHeld k b p → IsHeld k b (request_some n p)
unfolding request_some
request_some-IsHeld n k b p h = record {
  bounded = request_some-IsBounded n k p h.bounded;
  wish = ground (arith, h.wish);
}

core_some-IsHeld :
    (src : Source) (now started secured : ℕ) (n : Network) (k : ℕ) (b : Bool) (p : Plan)
    → IsHeld k b p
    → IsHeld k b (
        if not (p.left == 0) && wants_core src.settings now started secured n.connections
        then select_some src n core_nodes 1 p
        else p)
core_some-IsHeld src now started secured n k b p h =
    let wants = not (p.left == 0) && wants_core src.settings now started secured n.connections in
    elim (Bool-cases wants) [
      | inl e ↦ rw e (select_some-IsHeld src n core_nodes 1 k b p (ground (arith, e)) h)
      | inr e ↦ rw e h
    ]

plan_bounds :
    (src : Source) (now started secured : ℕ) (n : Network) (k : ℕ) (p : Plan)
    → IsBounded k p
    → (length (plan src now started secured n p).addresses ≤ suc k)
      × (p.one_more ≡ false → length (plan src now started secured n p).addresses ≤ k)
unfolding plan
plan_bounds src now started secured n k p b =
    let q =
      if not (p.left == 0) && wants_core src.settings now started secured n.connections
      then select_some src n core_nodes 1 p
      else p in
    let r = request_some n q in
    let s = select_some src n established_nodes (min r.left (src.settings.connections / 2)) r in
    let t = select_some src n validated_nodes (min s.left (src.settings.connections / 4)) s in
    let from : IsHeld k p.one_more p = record { bounded = b; wish = refl } in
    let cored : IsHeld k p.one_more q =
      core_some-IsHeld src now started secured n k p.one_more p from in
    let requested = request_some-IsHeld n k p.one_more q cored in
    let known =
      select_some-IsHeld src n established_nodes (min r.left (src.settings.connections / 2)) k
        p.one_more r (omega arith) requested in
    let valid =
      select_some-IsHeld src n validated_nodes (min s.left (src.settings.connections / 4)) k
        p.one_more s (omega arith) known in
    (
      announce_some-IsBounded src n k t valid.bounded,
      λ f. announce_none-IsBounded src n k t (valid.wish ∙ f) valid.bounded,
    )

start_bounds :
    (settings : Settings) (c : Coordinator)
    → settings.max_connections ≢ 0
    → length c.network.connections < settings.max_connections
    → ((start settings c).left ≤ 8)
      × (length c.network.connections + (start settings c).left ≤ settings.max_connections)
      × ((start settings c).one_more ≡ true → c.network.connect_one_more_announced_node ≡ true)
unfolding start wanted
start_bounds settings c h l = ground (arith, h, l)

start-IsBounded :
    (settings : Settings) (c : Coordinator) → IsBounded (start settings c).left (start settings c)
unfolding IsBounded start
start-IsBounded settings c = omega arith

-- Where a maximum of connections is set and not reached, an idle coordinator attempts at most nine more;
-- with them the connections exceed the maximum by at most one, and only if one more announced node was
-- wished for.
pub idle_plan_bounds :
    (src : Source) (now : ℕ) (c : Coordinator)
    → src.settings.max_connections ≢ 0
    → length c.network.connections < src.settings.max_connections
    → (length (idle_plan src now c).addresses ≤ 9)
      × (length c.network.connections + length (idle_plan src now c).addresses
          ≤ src.settings.max_connections + one c.network.connect_one_more_announced_node)
unfolding idle_plan
idle_plan_bounds src now c h l =
    let first = start src.settings c in
    let (few, fits, wish) = start_bounds src.settings c h l in
    let (more, exact) =
      plan_bounds src now c.started (active c.network.connections) c.network first.left first
        (start-IsBounded src.settings c) in
    elim (Bool-cases first.one_more) [
      | inl e ↦ (omega (arith, few, more), omega (arith, fits, more, ap one (wish e)))
      | inr e ↦ (omega (arith, few, more), omega (arith, fits, exact e))
    ]
