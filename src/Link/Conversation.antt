-- ===== src/Link/Conversation.antt =====
-- core/raddi_connection.cpp and node/server.cpp: a node sends messages over an established link, in any
-- interleaving with the sends that complete, and its peer receives the bytes.
use mathlib.Core.List.{append-nil}
use raddi.Base.{
  ℕ, ◌+◌, ◌≤◌, ◌<◌, true, false, All, List, [], ◌∷◌, ◌++◌, length, ltb, ◌≡◌, refl, sym, subst, ap,
  ◌∙◌, arith,
}
use raddi.Link.Protocol.{Crypto, Encryption, encode, max_payload}
use raddi.Link.Protocol.Frames.{IsAead, IsFacing, encode_lem}
use raddi.Link.Transmitter.{Transmitter, completion, prepare, post}
use raddi.Link.Transmitter.Post.{IsReady}
use raddi.Link.Transmitter.Queue.{
  Event, posted, completed, transmit_all, posted_by, IsProper, idle, transmit_all_lem,
}
use raddi.Link.Receiver.Reassembly.{flatten, run, waiting}
use raddi.Link.Connection.{secured, Connection, Node, send, send_encrypted}
use raddi.Link.Connection.Inbound.{handlers}
use raddi.Link.Connection.Inbound.Stream.{
  Item, message, frames_of, after, messages_of, HasReceived, IsFit, stream_delivered,
}

-- What happens to the sender: it sends a message, or the system has sent some bytes.
pub data Act : Type 0 where
  sends : List ℕ → Act
  completes : ℕ → Act

abbrev pub perform : Node → List Act → Connection → Connection
perform node [] c = c
perform node (sends m ∷ acts) c = perform node acts (send node m c).0
perform node (completes n ∷ acts) c =
    perform node acts (record c { transmitter = completion node.net true n c.transmitter })

abbrev pub items_of : List Act → List Item
items_of [] = []
items_of (sends m ∷ acts) = message m ∷ items_of acts
items_of (completes n ∷ acts) = items_of acts

-- The frames that are posted.
abbrev events_of : Crypto → Encryption → List Act → List Event
events_of c e [] = []
events_of c e (sends m ∷ acts) =
    posted (length m + 18) (encode c e (length m + 18) m).1
    ∷ events_of c (encode c e (length m + 18) m).0 acts
events_of c e (completes n ∷ acts) = completed n ∷ events_of c e acts

posted_by-events_of :
    (c : Crypto) (e : Encryption) (acts : List Act)
    → posted_by (events_of c e acts) ≡ flatten (frames_of c e (items_of acts))
posted_by-events_of c e [] = refl
posted_by-events_of c e (sends m ∷ acts) =
    ap (◌++◌ (encode c e (length m + 18) m).1)
      (posted_by-events_of c (encode c e (length m + 18) m).0 acts)
posted_by-events_of c e (completes n ∷ acts) = posted_by-events_of c e acts

-- A message that fits a frame, and a node whose system is ready.
module _ (node : Node) (ready : IsReady node.net) where
  send_lem :
      (m : List ℕ) (e : Encryption) (c : Connection)
      → length m ≤ max_payload
      → c.state ≡ secured e
      → (send node m c).0 ≡ record c {
        transmitter =
            (post node.net
              (length m + 18)
              (encode node.crypto e (length m + 18) m).1
              c.transmitter).0;
        state = secured (encode node.crypto e (length m + 18) m).0;
      }
  unfolding send send_encrypted post prepare
  send_lem m e c p s =
      let fits : ltb max_payload (length m) ≡ false = ground arith in ground (arith, fits)

  perform-transmit_all :
      (peer : Node) (acts : List Act) (e : Encryption) (c : Connection)
      → All (IsFit peer) (items_of acts)
      → c.state ≡ secured e
      → (perform node acts c).transmitter
        ≡ transmit_all node.net (events_of node.crypto e acts) c.transmitter
  perform-transmit_all peer [] e c p s = refl
  perform-transmit_all peer (sends m ∷ acts) e c ((long, short, ok), p) s =
      let (f, frame) = encode node.crypto e (length m + 18) m in
      let d : Connection = record c {
        transmitter = (post node.net (length m + 18) frame c.transmitter).0;
        state = secured f;
      } in
      ap (λ x. (perform node acts x).transmitter) (send_lem m e c (omega arith) s)
      ∙ perform-transmit_all peer acts f d p refl
  perform-transmit_all peer (completes n ∷ acts) e c p s =
      perform-transmit_all peer acts e
        (record c { transmitter = completion node.net true n c.transmitter }) p s

events_of-IsProper :
    (c : Crypto) (peer : Node) (acts : List Act) (e : Encryption)
    → IsAead c
    → All (IsFit peer) (items_of acts)
    → All IsProper (events_of c e acts)
events_of-IsProper c peer [] e laws p = tt
events_of-IsProper c peer (sends m ∷ acts) e laws ((long, short, ok), p) =
    let coded =
      ap (λ x. length x.1) (encode_lem c laws e (length m + 18) m (omega arith) (omega arith)) in
    (omega (arith, coded), events_of-IsProper c peer acts (encode c e (length m + 18) m).0 laws p)
events_of-IsProper c peer (completes n ∷ acts) e laws p =
    (tt, events_of-IsProper c peer acts e laws p)

-- Two nodes with the same functions of libsodium, which obey what `IsAead` says, and whose systems send
-- and receive what they are asked to, have an established link, and the first has sent nothing yet. It
-- sends messages that the second accepts, none empty and all shorter than `max_payload`, while its sends
-- complete at any times. Once all is sent, however the bytes are cut in chunks that are not empty when
-- they arrive: the second hands exactly these messages to its node, in order, and its end of the link
-- faces the sender's.
pub conversation :
    (sender receiver : Node) (acts : List Act) (chunks : List (List ℕ)) (a b : Encryption)
    (s r : Connection)
    → IsAead receiver.crypto
    → sender.crypto ≡ receiver.crypto
    → IsReady sender.net
    → IsReady receiver.net
    → All (IsFit receiver) (items_of acts)
    → IsFacing a b
    → s.state ≡ secured a
    → r.state ≡ secured b
    → s.transmitter ≡ idle
    → (perform sender acts s).transmitter.pending ≡ []
    → All (λ chunk. 0 < length chunk) chunks
    → flatten chunks ≡ flatten (perform sender acts s).transmitter.wire
    → (u : Connection) × (run (handlers receiver) chunks (waiting r []) ≡ waiting u [])
      × HasReceived (after receiver.crypto a (items_of acts)) r u (messages_of (items_of acts))
conversation sender receiver acts chunks a b s r laws same ready1 ready2 fit facing sa rb start done
      cuts bytes =
    let events = events_of sender.crypto a acts in
    let sent : (perform sender acts s).transmitter ≡ transmit_all sender.net events idle =
      perform-transmit_all sender ready1 receiver acts a s fit sa
      ∙ ap (transmit_all sender.net events) start in
    let proper =
      events_of-IsProper sender.crypto receiver acts a (subst IsAead (sym same) laws) fit in
    let (all, end) = transmit_all_lem sender.net events ready1 proper in
    let none = end (sym (ap (λ t. t.pending) sent) ∙ done) in
    let out =
      sym (append-nil (flatten (transmit_all sender.net events idle).wire))
      ∙ ap (◌++◌ (flatten (transmit_all sender.net events idle).wire)) (sym none)
      ∙ all
      ∙ posted_by-events_of sender.crypto a acts
      ∙ ap (λ c. flatten (frames_of c a (items_of acts))) same in
    let wire = ap (λ (t : Transmitter). flatten t.wire) sent in
    stream_delivered receiver laws (items_of acts) chunks a b r ready2 fit facing rb cuts
      (bytes ∙ wire ∙ out)
