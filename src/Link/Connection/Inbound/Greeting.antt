-- ===== src/Link/Connection/Inbound/Greeting.antt =====
-- core/raddi_connection.cpp and node/node.cpp: how a new connection takes the proposal of its peer.
use raddi.Base.{
  ℕ, ◌<◌, true, false, ◌&&◌, Bool-cases, List, ◌++◌, some, length, length-append, take, leb, leb→le,
  ◌==◌, ◌≡◌, inl, inr, refl, sym, ap, ◌∙◌, arith,
}
use raddi.Link.Protocol.{Keyset, Initial, Encryption, AcceptFailReason, little_endian, accept}
use raddi.Link.Receiver.Reassembly.{IsFrame}
use raddi.Link.Connection.{
  State, pending, secured, retired, Connection, Node, proxied, initial_bytes, initial_size,
}
use raddi.Link.Connection.Inbound.{
  handlers, inbound, inbound_pending, inbound_proposal, inbound_secured, head, join,
}
use raddi.Link.Connection.Inbound.Proposal.{
  IsStorable, read_initial-initial_bytes, length-initial_bytes, initial_bytes_word, take_within,
}

-- A new connection that takes the proposal, and the link that it makes of it: there is no proxy, the peer
-- is neither this node nor linked already, the proposal is accepted, and its first four bytes are not
-- those that tell of an overload.
pub record IsWelcome (node : Node) (c : Connection) (i : Initial) (e : Encryption) : Type 0 where
  pub secret : Keyset
  pub reason : AcceptFailReason
  pub state : c.state ≡ pending secret
  pub direct : proxied node c ≡ false
  pub remote : node.localhost c.peer ≡ false
  pub other : node.reflecting i.keys ≡ false
  pub single : node.reciprocal ≡ false
  pub accepted : accept node.crypto node.mode node.available node.now secret i ≡ (some e, reason)
  pub word : 0 < little_endian (take 4 i.keys.inbound_key)

module _ (node : Node) (c : Connection) (i : Initial) (e : Encryption) (w : IsWelcome node c i e)
    (s : IsStorable i) where
  abbrev joined : Connection
  joined = record c { state = secured e }

  direct_lem : (bytes : List ℕ) → inbound_pending node bytes c ≡ inbound_proposal node 0 bytes c
  unfolding inbound_pending
  direct_lem bytes = ground (arith, w.direct)

  pending_lem : (bytes : List ℕ) → inbound node bytes c ≡ inbound_proposal node 0 bytes c
  unfolding inbound
  pending_lem bytes =
      ap
        (λ (s : State). elim s [
          | secured e ↦ inbound_secured node bytes e c
          | pending secret ↦ inbound_pending node bytes c
          | retired ↦ (c, true, length bytes)
        ])
        w.state
      ∙ direct_lem bytes

  head_lem : head node i c ≡ (joined, true)
  unfolding head join
  head_lem = ground (arith, w.state, w.remote, w.other, w.single, w.accepted)

  takes_initial :
      (tail : List ℕ)
      → inbound_proposal node 0 (initial_bytes i ++ tail) c
        ≡ (joined, true, length (initial_bytes i))
  unfolding inbound_proposal
  takes_initial tail =
      let size = length-initial_bytes i s in
      let parts = length-append (initial_bytes i) tail in
      let whole : leb initial_size (length (initial_bytes i ++ tail)) ≡ true =
        ground (arith, size, parts) in
      rw (read_initial-initial_bytes i tail s, head_lem, whole, size) refl

  not_overloaded :
      (part tail : List ℕ)
      → initial_bytes i ≡ part ++ tail
      → (leb 4 (length part) && (little_endian (take 4 part) == 0)) ≡ false
  not_overloaded part tail g = elim (Bool-cases (leb 4 (length part))) [
    | inl e ↦
        let same =
          sym (take_within 4 part tail (leb→le 4 (length part) e))
          ∙ sym (ap (take 4) g)
          ∙ initial_bytes_word i s in
        let word : 0 < little_endian (take 4 part) = rw (same) w.word in ground arith
    | inr e ↦ rw (e) refl
  ]

  asks_initial :
      (part tail : List ℕ)
      → initial_bytes i ≡ part ++ tail
      → 0 < length tail
      → (inbound_proposal node 0 part c ≡ (c, true, initial_size)) × (length part < initial_size)
  unfolding inbound_proposal
  asks_initial part tail g t =
      let size = length-initial_bytes i s in
      let n = ap length g in
      let parts = length-append part tail in
      let short : length part < initial_size = omega (arith, size, n, parts) in
      let some : leb initial_size (length part) ≡ false = ground arith in
      (rw (some, not_overloaded part tail g) refl, short)

  -- Such a connection waits for the whole proposal of its peer, and then is secured.
  pub initial-IsFrame : IsFrame (handlers node) c (initial_bytes i) joined
  initial-IsFrame = record {
    nonempty = omega (arith, length-initial_bytes i s);
    takes = λ tail. pending_lem (initial_bytes i ++ tail) ∙ takes_initial tail;
    asks = λ part tail g r t.
        let (h, short) = asks_initial part tail g t in
        (initial_size, pending_lem part ∙ h, short, omega arith);
  }
