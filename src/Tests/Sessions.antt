-- ===== src/Tests/Sessions.antt =====
-- core/raddi_connection.cpp and node/server.cpp at concrete connections.
use raddi.Base.{
  ℕ, ◌+◌, ◌<◌, true, false, List, [], ◌∷◌, ◌++◌, ◌≡◌, refl, arith, length, take, drop, max, ◌-◌,
  ◌*◌, ◌%◌,
}
use raddi.Time.{u64}
use raddi.Address.{af_inet}
use raddi.Link.Protocol.{automatic, succeeded, propose, encode, little_endian}
use raddi.Link.Transmitter.{no_count, completion, prepare, transmit, fill}
use raddi.Link.Transmitter.Queue.{idle}
use raddi.Link.Receiver.Reassembly.{flatten, run, waiting}
use raddi.Link.Receiver as Receiver
use raddi.Link.Connection.{
  State, pending, secured, Connection, Node, initial_bytes, send, proxied, signed_lt, age,
}
use raddi.Link.Connection.Inbound.{handlers}
use raddi.Link.Connection.Inbound.Proposal.{IsStorable}
use raddi.Link.Connection.Inbound.Greeting.{IsWelcome}
use raddi.Link.Connection.Inbound.Stream.{
  Item, message, query, reply, frames_of, after, messages_of, HasReceived,
}
use raddi.Link.Connection.Faults.{maximal_frame_closes}
use raddi.Link.Conversation.{Act, sends, completes, perform, items_of, conversation}
use raddi.Link.Session.{session}
use raddi.Tests.Links.{
  plain, plain-IsCrypto, plain-IsAead, hardware, keys_of, offer, link, offer_accepted,
  answer_accepted, ready_net, ready_net-IsReady, zeros,
}

abbrev node : Node
node = record {
  net = ready_net;
  crypto = plain;
  mode = automatic;
  available = hardware;
  socks5proxy = false;
  now = 2000;
  secret = keys_of 3;
  random1 = 77;
  random2 = 78;
  localhost = λ a. false;
  reflecting = λ k. false;
  reciprocal = false;
  accepts = λ m. true;
}

abbrev new : State → Connection
new s = record {
  state = s;
  peer = record { family = af_inet; port = 44303; bytes = 9 ∷ 9 ∷ 9 ∷ 9 ∷ [] };
  transmitter = idle;
  latest = 2000;
  probed = 0;
  messages = no_count;
  keepalives = no_count;
  delivered = [];
  discords = 0;
  cancelled = false;
}

abbrev acts : List Act
acts = sends (1 ∷ 2 ∷ 3 ∷ []) ∷ sends (4 ∷ []) ∷ completes 21 ∷ completes 19 ∷ []

-- The first chunk is one byte of the first frame, the second ends in the middle of the second frame.
abbrev chunks : List (List ℕ)
chunks = (19 ∷ []) ∷ (0 ∷ zeros 16 (1 ∷ 2 ∷ 3 ∷ 17 ∷ 0 ∷ 0 ∷ [])) ∷ zeros 15 (4 ∷ []) ∷ []

-- The sender has sent everything.
acts_done : (perform node acts (new (secured (link 5 3)))).transmitter.pending ≡ []
unfolding send encode completion prepare transmit fill
acts_done = refl

chunks_wire :
    flatten chunks ≡ flatten (perform node acts (new (secured (link 5 3)))).transmitter.wire
unfolding send encode completion prepare transmit fill
chunks_wire = refl

conversation_example :
    (u : Connection) × (run (handlers node) chunks (waiting (new (secured (link 3 5))) [])
      ≡ waiting u [])
    × HasReceived
        (after plain (link 5 3) (items_of acts))
        (new (secured (link 3 5)))
        u
        (messages_of (items_of acts))
conversation_example =
    conversation node node acts chunks (link 5 3) (link 3 5) (new (secured (link 5 3)))
      (new (secured (link 3 5))) plain-IsAead refl ready_net-IsReady ready_net-IsReady
      ((omega arith, omega arith, refl), ((omega arith, omega arith, refl), tt))
      (record { cipher = refl; key = refl; nonce = refl }) refl refl refl acts_done
      (omega arith, (omega arith, (omega arith, tt))) chunks_wire

new_offer-IsStorable : IsStorable (offer 5)
unfolding propose
new_offer-IsStorable = record {
  keys = record {
    inbound_key = refl;
    outbound_key = refl;
    inbound_nonce = refl;
    outbound_nonce = refl;
  };
  soft_a = omega arith;
  soft_b = omega arith;
  hard_a = omega arith;
  hard_b = omega arith;
  timestamp = omega arith;
  check = omega arith;
}

not_proxied : proxied node (new (pending (keys_of 3))) ≡ false
unfolding proxied
not_proxied = refl

first_word : 0 < little_endian (take 4 (offer 5).keys.inbound_key)
unfolding propose little_endian
first_word = omega arith

abbrev welcome : IsWelcome node (new (pending (keys_of 3))) (offer 5) (link 3 5)
welcome = record {
  secret = keys_of 3;
  reason = succeeded;
  state = refl;
  direct = not_proxied;
  remote = refl;
  other = refl;
  single = refl;
  accepted = offer_accepted;
  word = first_word;
}

abbrev items : List Item
items = message (1 ∷ 2 ∷ 3 ∷ []) ∷ query ∷ message (4 ∷ []) ∷ reply ∷ []

-- The first chunk ends in the middle of the proposal.
abbrev stream : List ℕ
stream = initial_bytes (offer 5) ++ flatten (frames_of plain (link 5 3) items)

stream_cut : flatten (take 50 stream ∷ drop 50 stream ∷ []) ≡ stream
unfolding propose initial_bytes encode
stream_cut = refl

first_long : 0 < length (take 50 stream)
unfolding propose initial_bytes encode
first_long = omega arith

second_long : 0 < length (drop 50 stream)
unfolding propose initial_bytes encode
second_long = omega arith

session_example :
    (u : Connection) × (run
        (handlers node)
        (take 50 stream ∷ drop 50 stream ∷ [])
        (waiting (new (pending (keys_of 3))) [])
      ≡ waiting u [])
    × HasReceived (after plain (link 5 3) items) (new (pending (keys_of 3))) u (messages_of items)
session_example =
    session node (new (pending (keys_of 3))) (link 3 5) (link 5 3) automatic hardware 1000 1000 2000
      77 78 77 78 (keys_of 5) items (take 50 stream ∷ drop 50 stream ∷ []) plain-IsCrypto
      plain-IsAead ready_net-IsReady new_offer-IsStorable welcome refl answer_accepted
      ((omega arith, omega arith, refl), (tt, ((omega arith, omega arith, refl), (tt, tt))))
      (first_long, (second_long, tt)) stream_cut

maximal_frame_closes_example :
    (Receiver.completion
      (handlers node)
      true
      true
      (254 ∷ 255 ∷ 1 ∷ [])
      (waiting (new (secured (link 3 5))) [])).retired
    ≡ true
maximal_frame_closes_example =
    maximal_frame_closes node true (link 3 5) (new (secured (link 3 5))) (254 ∷ 255 ∷ 1 ∷ []) refl
      (omega arith) (omega arith) refl

-- A connection that has been idle for two seconds, while a byte is being sent.
abbrev idling : Connection
idling = record (new (secured (link 3 5))) {
  latest = 0;
  transmitter = record idle { pending = 7 ∷ [] };
}

not_silent :
    signed_lt (max ((4 * 1000) % u64) 1_000_000) ((2000 + (u64 - idling.latest)) % u64) ≡ false
unfolding signed_lt
not_silent = refl

too_old : signed_lt 1000 (age node idling) ≡ true
unfolding signed_lt age
too_old = refl
