-- ===== src/Link/Connection/Inbound.antt =====
-- core/raddi_connection.cpp and node/node.cpp: what a connection does with the bytes that it receives.
-- Of `head` and `disconnected`, what the coordinator does when it is told is not part of the model.
pub mod Proposal
pub mod Frame
pub mod Greeting
pub mod Stream
use raddi.Base.{
  ℕ, zero, suc, ◌+◌, ◌*◌, Bool, true, false, ◌&&◌, ◌||◌, not, List, [], ◌∷◌, ◌++◌, Option, none,
  some, length, take, drop, get_or, ltb, leb, ◌==◌, if◌then◌else◌,
}
use raddi.Address.{Address, size}
use raddi.Link.Protocol.{Initial, Encryption, AcceptFailReason, little_endian, accept, max_payload}
use raddi.Link.Protocol as Protocol
use raddi.Link.Transmitter.{Counter, Transmitter, post, count}
use raddi.Link.Receiver.{Handlers}
use raddi.Link.Connection.{
  State, pending, secured, retired, Connection, Node, initial_size, proxied, connected,
}

-- The `initial` at the start of the bytes, field after field.
unfoldable pub read_initial : List ℕ → Initial
unfolding little_endian
read_initial bytes =
    let r1 = drop 32 bytes in
    let r2 = drop 32 r1 in
    let r3 = drop 32 r2 in
    let r4 = drop 32 r3 in
    let r5 = drop 4 r4 in
    let r6 = drop 4 r5 in
    let r7 = drop 4 r6 in
    let r8 = drop 4 r7 in
    let r9 = drop 8 r8 in
    record {
      keys = record {
        inbound_key = take 32 bytes;
        outbound_key = take 32 r1;
        inbound_nonce = take 32 r2;
        outbound_nonce = take 32 r3;
      };
      soft = record { a = little_endian (take 4 r4); b = little_endian (take 4 r5) };
      hard = record { a = little_endian (take 4 r6); b = little_endian (take 4 r7) };
      timestamp = little_endian (take 8 r8);
      check = little_endian (take 8 r9);
    }

unfoldable pub discord : Connection → Connection
discord c = record c { discords = suc c.discords }

unfoldable pub join : Connection → Option Encryption → Connection × Bool
join c none = (c, false)
join c (some e) = (record c { state = secured e }, true)

-- `head`, for a proposal with the given secret keys.
unfoldable pub head : Node → Initial → Connection → Connection × Bool
unfolding join
head node peer c =
    if node.localhost c.peer || node.reflecting peer.keys
    then (c, false)
    else if node.reciprocal
    then (c, false)
    else elim c.state [
      | pending secret ↦ join c (accept node.crypto node.mode node.available node.now secret peer).0
      | _ ↦ (c, false)
    ]

-- `decode` of a frame: the message is handed to the node.
unfoldable pub decode : Node → List ℕ → Encryption → Connection → Connection × Bool
unfolding count discord
decode node frame e c =
    let (f, entry) = Protocol.decode node.crypto e max_payload frame in
    let d = record c { state = secured f } in
    let taken = record d {
      messages = count d.messages (length entry);
      latest = node.now;
      delivered = d.delivered ++ (entry ∷ []);
    } in
    let refused = record d { delivered = d.delivered ++ (entry ∷ []) } in
    if length entry == 0
    then (discord d, false)
    else if node.accepts entry
    then (taken, true)
    else (discord refused, false)

-- The checks of the proxy's answer, as far as it has come.
unfoldable pub starts_with : List ℕ → List ℕ → Bool
starts_with [] bytes = true
starts_with (x ∷ xs) [] = true
starts_with (x ∷ xs) (b ∷ bytes) = (b == x) && starts_with xs bytes

-- The case `secured` of `inbound`.
unfoldable pub inbound_secured : Node → List ℕ → Encryption → Connection → Connection × Bool × ℕ
unfolding count decode
inbound_secured node bytes e c =
    let n = length bytes in
    let field = get_or bytes 0 0 + 256 * get_or bytes 1 0 in
    let counted = record c { keepalives = count c.keepalives 2 } in
    let (t, ok) = post node.net 2 (255 ∷ 255 ∷ []) c.transmitter in
    let (d, decoded) = decode node (take (field + 2) bytes) e c in
    if ltb n 2
    then (c, true, 2)
    else if field == 0
    then (record counted { transmitter = t }, ok, 2)
    else if field == 0xFFFF
    then (record c { latest = node.now }, true, 2)
    else if leb (field + 2) n
    then (d, decoded, if decoded then field + 2 else n)
    else (c, true, field + 2)

-- The proposal, behind the prologue of the proxy.
unfoldable pub inbound_proposal : Node → ℕ → List ℕ → Connection → Connection × Bool × ℕ
unfolding discord
inbound_proposal node prologue bytes c =
    let n = length bytes in
    let (d, joined) = head node (read_initial (drop prologue bytes)) c in
    if leb (initial_size + prologue) n
    then (if joined then (d, true, initial_size + prologue) else (discord d, false, n))
    else if leb 4 n && (little_endian (take 4 bytes) == 0)
    then (c, false, n)
    else (c, true, initial_size + prologue)

-- The case `pending` of `inbound`.
unfoldable pub inbound_pending : Node → List ℕ → Connection → Connection × Bool × ℕ
inbound_pending node bytes c =
    let through = proxied node c in
    let prologue = if through then 6 + size c.peer.family else 0 in
    let rest = inbound_proposal node prologue bytes c in
    if through && not (starts_with (5 ∷ 0 ∷ 5 ∷ 0 ∷ 0 ∷ []) bytes)
    then (c, false, length bytes)
    else rest

-- `inbound`: the number of bytes says what was processed, or what is needed.
unfoldable pub inbound : Node → List ℕ → Connection → Connection × Bool × ℕ
unfolding inbound_secured inbound_pending
inbound node bytes c = elim c.state [
  | secured e ↦ inbound_secured node bytes e c
  | pending secret ↦ inbound_pending node bytes c
  | retired ↦ (c, true, length bytes)
]

-- `disconnected`.
unfoldable pub disconnected : Connection → Connection
disconnected c = record c { state = retired }

-- The functions that the receiver calls.
abbrev pub handlers : Node → Handlers Connection
handlers node = record {
  inbound = inbound node;
  connected = connected node;
  disconnected = disconnected;
}
