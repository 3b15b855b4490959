-- ===== src/Link/Session.antt =====
-- core/raddi_connection.cpp, core/raddi_protocol.cpp and node/server.cpp: a new connection, from the
-- proposal of the peer to its messages.
use raddi.Base.{ℕ, ◌<◌, All, List, [], ◌∷◌, ◌++◌, some, length, ◌≡◌, refl, sym, subst}
use raddi.Link.Protocol.{Mode, Available, Keyset, Encryption, propose, accept, succeeded}
use raddi.Link.Protocol.Handshake.{IsCrypto, IsPeered, handshake-IsPeered}
use raddi.Link.Protocol.Frames.{IsAead, IsFacing}
use raddi.Link.Transmitter.Post.{IsReady}
use raddi.Link.Receiver.Reassembly.{flatten, run, run_lem, waiting}
use raddi.Link.Connection.{secured, Connection, Node, initial_bytes}
use raddi.Link.Connection.Inbound.{handlers}
use raddi.Link.Connection.Inbound.Proposal.{IsStorable}
use raddi.Link.Connection.Inbound.Greeting.{IsWelcome, initial-IsFrame}
use raddi.Link.Connection.Inbound.Stream.{
  Item, frames_of, after, messages_of, HasReceived, IsFit, stream-Frames,
}

peered-IsFacing : {x y : Encryption} → IsPeered x y → IsFacing y x
peered-IsFacing p = record {
  cipher = sym p.same_cipher;
  key = sym p.in_key;
  nonce = sym p.in_nonce;
}

-- A peer sends its proposal and, once it has accepted that of the node, messages and tokens over the
-- link. Where the new connection of the node takes the peer's proposal, whose fields have their sizes, the
-- messages are accepted, not empty and shorter than `max_payload`, the functions of libsodium obey what
-- `IsCrypto` and `IsAead` say, and the system sends and receives what it is asked to: however the bytes
-- are cut in chunks that are not empty, the connection becomes secured and hands exactly the messages to
-- the node, in order, and both ends of the link face each other.
pub session :
    (node : Node) (c : Connection) (e a : Encryption) (m : Mode) (v : Available)
    (sent1 sent2 now1 r1 r2 r3 r4 : ℕ) (s1 : Keyset) (items : List Item) (chunks : List (List ℕ))
    → IsCrypto node.crypto
    → IsAead node.crypto
    → IsReady node.net
    → IsStorable (propose node.crypto m v r1 r2 sent1 s1)
    → (w : IsWelcome node c (propose node.crypto m v r1 r2 sent1 s1) e) → w.reason ≡ succeeded
    → accept node.crypto m v now1 s1
        (propose node.crypto node.mode node.available r3 r4 sent2 w.secret)
      ≡ (some a, succeeded)
    → All (IsFit node) items
    → All (λ chunk. 0 < length chunk) chunks
    → flatten chunks
      ≡ initial_bytes (propose node.crypto m v r1 r2 sent1 s1)
        ++ flatten (frames_of node.crypto a items)
    → (u : Connection) × (run (handlers node) chunks (waiting c []) ≡ waiting u [])
      × HasReceived (after node.crypto a items) c u (messages_of items)
session node c e a m v sent1 sent2 now1 r1 r2 r3 r4 s1 items chunks laws aead ready s w good taken
      fit cuts bytes =
    let i = propose node.crypto m v r1 r2 sent1 s1 in
    let mine =
      subst (λ f. accept node.crypto node.mode node.available node.now w.secret i ≡ (some e, f))
        good w.accepted in
    let peered =
      handshake-IsPeered node.crypto laws node.mode m node.available v sent2 sent1 node.now now1 r1
        r2 r3 r4 w.secret s1 mine taken in
    let joined = record c { state = secured e } in
    let (u, frames, got) =
      stream-Frames node aead items a e joined ready fit (peered-IsFacing peered) refl in
    (
      u,
      run_lem (handlers node) (initial_bytes i ∷ frames_of node.crypto a items) chunks c u
          (joined, initial-IsFrame node c i e w s, frames) cuts bytes,
      record { end = got.end; delivered = got.delivered; state = got.state; facing = got.facing },
    )
