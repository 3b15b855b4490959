-- ===== src/Link/Connection.antt =====
-- core/raddi_connection.h and core/raddi_connection.cpp: the state of a connection to a peer, and what
-- it sends.
-- The fields `delivered`, `discords` and `cancelled` record the calls of `message`, `discord` and
-- `cancel`. Messages of the log and the reports of the status are left out.
pub mod Inbound
pub mod Faults
use raddi.Base.{
  ℕ, zero, suc, ◌+◌, ◌-◌, ◌*◌, ◌/◌, ◌%◌, max, min, Bool, true, false, ◌&&◌, not, List, [], ◌∷◌,
  ◌++◌, Option, none, some, length, ltb, ◌==◌, if◌then◌else◌,
}
use raddi.Time.{u64}
use raddi.Address.{Address, full, size, accessible, af_inet, af_inet6}
use raddi.Link.Protocol.{
  Crypto, Mode, Available, Keyset, Initial, Encryption, propose, encode, max_payload,
  frame_overhead,
}
use raddi.Link.Transmitter.{
  Net, Transmitter, Counter, prepare, fill, transmit, post, unsynchronized_is_live,
}

-- `state`, with the union of `proposal` and `encryption`.
pub data State : Type 0 where
  pending : Keyset → State
  secured : Encryption → State
  retired : State

pub record Connection : Type 0 where
  pub state : State
  pub peer : Address
  pub transmitter : Transmitter
  pub latest : ℕ
  pub probed : ℕ
  pub messages : Counter
  pub keepalives : Counter
  pub delivered : List (List ℕ)
  pub discords : ℕ
  pub cancelled : Bool

-- What a connection asks of the node and of the system while it handles one event: the settings, the
-- clock in microseconds, random numbers, and what the coordinator and the handler of messages answer.
pub record Node : Type 0 where
  pub net : Net
  pub crypto : Crypto
  pub mode : Mode
  pub available : Available
  pub socks5proxy : Bool
  pub now : ℕ
  pub secret : Keyset
  pub random1 : ℕ
  pub random2 : ℕ
  pub localhost : Address → Bool
  pub reflecting : Keyset → Bool
  pub reciprocal : Bool
  pub accepts : List ℕ → Bool

-- A number in a fixed count of bytes, the lowest first.
unfoldable pub bytes_of : ℕ → ℕ → List ℕ
bytes_of zero x = []
bytes_of (suc n) x = (x % 256) ∷ bytes_of n (x / 256)

-- `sizeof (initial)`, and the bytes of an `initial`.
abbrev pub initial_size : ℕ
initial_size = 4 * 32 + 4 * 4 + 8 + 8

unfoldable pub initial_bytes : Initial → List ℕ
unfolding bytes_of
initial_bytes i =
    i.keys.inbound_key
    ++ (i.keys.outbound_key
        ++ (i.keys.inbound_nonce
            ++ (i.keys.outbound_nonce
                ++ (bytes_of 4 i.soft.a
                    ++ (bytes_of 4 i.soft.b
                        ++ (bytes_of 4 i.hard.a
                            ++ (bytes_of 4 i.hard.b
                                ++ (bytes_of 8 i.timestamp ++ bytes_of 8 i.check))))))))

-- Is the link made through the proxy?
unfoldable pub proxied : Node → Connection → Bool
proxied node c = node.socks5proxy && accessible full c.peer

-- What `connected` sends to the proxy before its proposal.
unfoldable pub socks_request : Address → Option (List ℕ)
socks_request a =
    let target = a.bytes ++ ((a.port / 256) ∷ (a.port % 256) ∷ []) in
    if a.family == af_inet
    then some ((5 ∷ 1 ∷ 0 ∷ 5 ∷ 1 ∷ 0 ∷ 1 ∷ []) ++ target)
    else if a.family == af_inet6
    then some ((5 ∷ 1 ∷ 0 ∷ 5 ∷ 1 ∷ 0 ∷ 4 ∷ []) ++ target)
    else none

-- `connected`: the proposal is made new, and sent.
unfoldable pub connected : Node → Connection → Connection × Bool
unfolding proxied socks_request initial_bytes
connected node c =
    let first =
      propose node.crypto node.mode node.available node.random1 node.random2 node.now node.secret in
    let prologue = if proxied node c then socks_request c.peer else some [] in
    let room = initial_size + (if proxied node c then 7 + size c.peer.family else 0) in
    let (only, place) = prepare node.net room c.transmitter in
    elim prologue [
      | none ↦ (record c { transmitter = only }, false)
      | some start ↦
          let (t, ok) = post node.net room (start ++ initial_bytes first) c.transmitter in
          elim place [
            | none ↦ (record c { transmitter = only }, false)
            | some at ↦ (record c { transmitter = t; state = pending node.secret }, ok)
          ]
    ]

-- `overloaded`.
unfoldable pub overloaded : Node → Connection → Connection
overloaded node c =
    let (t, ok) = post node.net 4 (0 ∷ 0 ∷ 0 ∷ 0 ∷ []) c.transmitter in
    if node.socks5proxy then c else record c { transmitter = t }

-- The part of `send` under the lock, over an established link.
unfoldable pub send_encrypted : Node → List ℕ → Encryption → Connection → Connection × Bool
send_encrypted node payload e c =
    let room = length payload + frame_overhead in
    let (t, place) = prepare node.net room c.transmitter in
    let (f, frame) = encode node.crypto e room payload in
    elim place [
      | none ↦ (record c { transmitter = t }, false)
      | some at ↦
          let (u, ok) = transmit node.net at (length frame) (fill at frame t) in
          (record c { transmitter = u; state = secured f }, ok)
    ]

-- `send`. Only established links send, so any other answers `false` here.
unfoldable pub send : Node → List ℕ → Connection → Connection × Bool
unfolding send_encrypted
send node payload c =
    if ltb max_payload (length payload)
    then (c, false)
    else elim c.state [ secured e ↦ send_encrypted node payload e c | _ ↦ (c, false) ]

-- Comparison as `std::int64_t`.
unfoldable pub signed_lt : ℕ → ℕ → Bool
signed_lt x y = ltb ((x + 0x8000_0000_0000_0000) % u64) ((y + 0x8000_0000_0000_0000) % u64)

-- `age`, by the clock.
unfoldable pub age : Node → Connection → ℕ
age node c = (node.now + (u64 - max c.probed c.latest)) % u64

-- The part of `keepalive` for an established link: a token, or the time of the next one.
unfoldable pub probe : Node → ℕ → ℕ → ℕ → Connection → Connection × ℕ
unfolding age signed_lt
probe node now expected period c =
    let (t, ok) = post node.net 2 (0 ∷ 0 ∷ []) c.transmitter in
    let last = max c.latest c.probed in
    if signed_lt period (age node c)
    then (if unsynchronized_is_live c.transmitter
        then (c, expected)
        else if ok
        then (record c { transmitter = t; probed = now }, expected)
        else (record c { transmitter = t }, expected))
    else (record c { probed = last }, min expected ((last + period) % u64))

-- `keepalive`.
unfoldable pub keepalive : Node → ℕ → ℕ → ℕ → Connection → Connection × ℕ
unfolding signed_lt probe
keepalive node now expected period c =
    let limit = max ((4 * period) % u64) 1_000_000 in
    let silent = signed_lt limit ((now + (u64 - c.latest)) % u64) in
    elim c.state [
      | retired ↦ (c, expected)
      | pending secret ↦ (if silent then record c { cancelled = true } else c, expected)
      | secured e ↦
          if silent
          then (record c { cancelled = true }, expected)
          else probe node now expected period c
    ]
