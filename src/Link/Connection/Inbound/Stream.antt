-- ===== src/Link/Connection/Inbound/Stream.antt =====
-- core/raddi_connection.cpp and node/server.cpp: an established connection that receives what the other end
-- of its link sends.
use mathlib.Core.List.{append_assoc, append-nil}
use raddi.Base.{
  ℕ, suc, ◌+◌, ◌<◌, true, false, All, List, [], ◌∷◌, ◌++◌, length, ltb, ◌≡◌, refl, sym, ◌∙◌, arith,
}
use raddi.Link.Protocol.{Crypto, Encryption, encode, max_payload}
use raddi.Link.Protocol.Frames.{
  IsAead, IsFacing, sent, received, encode_lem, sent-received-IsFacing,
}
use raddi.Link.Transmitter.Post.{IsReady}
use raddi.Link.Receiver.Reassembly.{Frames, flatten, run, run_lem, waiting}
use raddi.Link.Connection.{secured, Connection, Node}
use raddi.Link.Connection.Inbound.Frame.{
  delivered_to, message-IsFrame, counted, query-IsFrame, reply-IsFrame,
}
use raddi.Link.Connection.Inbound.{handlers}

-- What a peer sends over the link: messages, and the tokens of two bytes that keep it alive.
pub data Item : Type 0 where
  message : List ℕ → Item
  query : Item
  reply : Item

-- The frames of what is sent, in order, and the sender's end of the link after them.
abbrev pub frames_of : Crypto → Encryption → List Item → List (List ℕ)
frames_of c e [] = []
frames_of c e (message m ∷ is) =
    (encode c e (length m + 18) m).1 ∷ frames_of c (encode c e (length m + 18) m).0 is
frames_of c e (query ∷ is) = (0 ∷ 0 ∷ []) ∷ frames_of c e is
frames_of c e (reply ∷ is) = (255 ∷ 255 ∷ []) ∷ frames_of c e is

abbrev pub after : Crypto → Encryption → List Item → Encryption
after c e [] = e
after c e (message m ∷ is) = after c (encode c e (length m + 18) m).0 is
after c e (query ∷ is) = after c e is
after c e (reply ∷ is) = after c e is

abbrev pub messages_of : List Item → List (List ℕ)
messages_of [] = []
messages_of (message m ∷ is) = m ∷ messages_of is
messages_of (query ∷ is) = messages_of is
messages_of (reply ∷ is) = messages_of is

two_at_least : (tail : List ℕ) → ltb (suc (suc (length tail))) 2 ≡ false
two_at_least tail = ground arith

-- The later connection has handed the messages to the node, and its end of the link faces the sender's.
pub record HasReceived (a : Encryption) (c u : Connection) (ms : List (List ℕ)) : Type 0 where
  pub end : Encryption
  pub delivered : u.delivered ≡ c.delivered ++ ms
  pub state : u.state ≡ secured end
  pub facing : IsFacing a end

module _ (node : Node) where
  -- A message that is not empty, one byte shorter than the longest at most, and that the node accepts.
  abbrev pub IsFit : Item → Type 0
  IsFit (message m) = (0 < length m) × (length m < max_payload) × (node.accepts m ≡ true)
  IsFit query = Unit
  IsFit reply = Unit

  module _ (laws : IsAead node.crypto) where
    -- Some frames lead to a connection that has got the messages.
    pub stream-Frames :
        (items : List Item) (a b : Encryption) (c : Connection)
        → IsReady node.net
        → All IsFit items
        → IsFacing a b
        → c.state ≡ secured b
        → (u : Connection) × Frames (handlers node) c (frames_of node.crypto a items) u
          × HasReceived (after node.crypto a items) c u (messages_of items)
    stream-Frames [] a b c ready fit f e = (
      c,
      refl,
      record { end = b; delivered = sym (append-nil c.delivered); state = e; facing = f },
    )
    stream-Frames (message m ∷ is) a b c ready (p, fit) f e =
        let (u, frames, got) =
          stream-Frames is (sent node.crypto a) (received node.crypto b) (delivered_to node c b m)
            ready fit (sent-received-IsFacing node.crypto a b f) refl in
        rw (encode_lem node.crypto laws a (length m + 18) m (omega arith) (omega arith)) (
          u,
          (delivered_to node c b m, message-IsFrame node laws a b c m f p e, frames),
          record {
            end = got.end;
            delivered = got.delivered ∙ append_assoc c.delivered (m ∷ []) (messages_of is);
            state = got.state;
            facing = got.facing;
          },
        )
    stream-Frames (query ∷ is) a b c ready (p, fit) f e =
        let (u, frames, got) = stream-Frames is a b (counted node laws c) ready fit f e in
        (
          u,
          (counted node laws c, query-IsFrame node laws b c ready e, frames),
          record {
            end = got.end;
            delivered = got.delivered;
            state = got.state;
            facing = got.facing;
          },
        )
    stream-Frames (reply ∷ is) a b c ready (p, fit) f e =
        let woken = record c { latest = node.now } in
        let (u, frames, got) = stream-Frames is a b woken ready fit f e in
        (
          u,
          (woken, reply-IsFrame node laws b c e, frames),
          record {
            end = got.end;
            delivered = got.delivered;
            state = got.state;
            facing = got.facing;
          },
        )

    -- Whatever a peer sends over an established link, messages that are accepted, not empty and shorter
    -- than `max_payload` and tokens in any order, and however its bytes are cut in chunks that are not
    -- empty: where the system sends and receives what it is asked to, the connection hands exactly the
    -- messages to the node, in order, and both ends of the link still face each other.
    pub stream_delivered :
        (items : List Item) (chunks : List (List ℕ)) (a b : Encryption) (c : Connection)
        → IsReady node.net
        → All IsFit items
        → IsFacing a b
        → c.state ≡ secured b
        → All (λ chunk. 0 < length chunk) chunks
        → flatten chunks ≡ flatten (frames_of node.crypto a items)
        → (u : Connection) × (run (handlers node) chunks (waiting c []) ≡ waiting u [])
          × HasReceived (after node.crypto a items) c u (messages_of items)
    stream_delivered items chunks a b c ready fit f e cuts same =
        let (u, frames, got) = stream-Frames items a b c ready fit f e in
        (
          u,
          run_lem (handlers node) (frames_of node.crypto a items) chunks c u frames cuts same,
          got,
        )
