-- ===== src/Link/Connection/Faults.antt =====
-- core/raddi_connection.cpp and node/server.cpp: where the code falls short of what its comments say.
use raddi.Base.{
  ℕ, ◌+◌, ◌-◌, ◌*◌, ◌%◌, max, ◌≤◌, ◌<◌, Bool, true, false, List, [], ◌∷◌, ◌++◌, length, ltb, ◌==◌,
  ◌≡◌, refl, ap, ◌∙◌, arith,
}
use raddi.Time.{u64}
use raddi.Link.Protocol.{Encryption}
use raddi.Link.Transmitter.{unsynchronized_is_live}
use raddi.Link.Transmitter.Post.{IsReady, post_behind, is_empty_long_false}
use raddi.Link.Receiver.{more, completion}
use raddi.Link.Receiver.Reassembly.{waiting}
use raddi.Link.Connection.{secured, Connection, Node, keepalive, probe, age, signed_lt}
use raddi.Link.Connection.Inbound.{handlers}
use raddi.Link.Connection.Inbound.Frame.{field_of, secured_lem, asks_whole}

-- An established connection with nothing left in its buffer that gets at least two bytes, but not all, of a
-- frame of 65536 bytes, the largest that `encode` makes, is closed: the size needed does not fit the
-- 16 bits of the offset.
pub maximal_frame_closes :
    (node : Node) (receives : Bool) (b : Encryption) (c : Connection) (part : List ℕ)
    → c.state ≡ secured b
    → 2 ≤ length part
    → length part < 65536
    → field_of node part ≡ 65534
    → (completion (handlers node) receives true part (waiting c [])).retired ≡ true
unfolding completion more
maximal_frame_closes node receives b c part e p q f =
    let some : (length part == 0) ≡ false = ground arith in
    let asked =
      secured_lem node b c part e
      ∙ asks_whole node part b c 65534 p f (omega arith) (omega arith) (omega arith) in
    let more_needed : (65536 == length part) ≡ false = ground arith in
    let short : ltb (length part) 65536 ≡ true = ground arith in
    rw (some, asked, more_needed, short) refl

-- `keepalive` of an established connection that has been idle for longer than the period, but not long
-- enough to be cancelled, queues a token behind what is being sent, when nothing else waits.
keepalive_behind :
    (node : Node) (now expected period : ℕ) (b : Encryption) (c : Connection)
    → IsReady node.net
    → c.state ≡ secured b
    → 0 < length c.transmitter.pending
    → c.transmitter.awaiting ≡ []
    → signed_lt (max ((4 * period) % u64) 1_000_000) ((now + (u64 - c.latest)) % u64) ≡ false
    → signed_lt period (age node c) ≡ true
    → (keepalive node now expected period c).0.transmitter.awaiting ≡ 0 ∷ 0 ∷ []
unfolding keepalive probe unsynchronized_is_live
keepalive_behind node now expected period b c ready e p none alive idle =
    let sending = is_empty_long_false c.transmitter.pending p in
    let queued = post_behind node.net 2 (0 ∷ 0 ∷ []) c.transmitter ready sending in
    let only : c.transmitter.awaiting ++ (0 ∷ 0 ∷ []) ≡ 0 ∷ 0 ∷ [] =
      ap (λ x. x ++ (0 ∷ 0 ∷ [])) none in
    ground (arith, queued, only, sending, alive, idle)
