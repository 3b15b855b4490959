-- ===== src/Link/Transmitter/Post.antt =====
-- node/server.cpp, class `Transmitter`: what the operations do to the two buffers.
use mathlib.Core.List.{append_assoc}
use raddi.Base.{
  ℕ, suc, ◌+◌, ◌<◌, true, false, ◌&&◌, List, [], ◌∷◌, ◌++◌, length, take, drop, length-append, ltb,
  ◌≡◌, refl, sym, ap, arith,
}
use raddi.Link.Transmitter.{
  Net, Transmitter, count, is_empty, resize, send_buffer, prepare, fill, transmit_pending, transmit,
  post, send_awaiting, completion,
}

-- The socket is valid, the system accepts what is sent, and there is memory.
pub record IsReady (net : Net) : Type 0 where
  pub valid : net.valid ≡ true
  pub sends : net.sends ≡ true
  pub memory : net.memory ≡ true

pub post_ok :
    (net : Net) (room : ℕ) (bytes : List ℕ) (t : Transmitter)
    → IsReady net
    → (post net room bytes t).1 ≡ true
unfolding post prepare transmit transmit_pending send_buffer
post_ok net room bytes t r = ground arith

resize_append : (xs ys : List ℕ) → resize (length xs) (xs ++ ys) ≡ xs
unfolding resize
resize_append [] ys = refl
resize_append (x ∷ xs) ys = ap (◌∷◌ x) (resize_append xs ys)

take-resize : (xs : List ℕ) (n : ℕ) → take (length xs) (resize (length xs + n) xs) ≡ xs
unfolding resize
take-resize [] n = refl
take-resize (x ∷ xs) n =
    let next : suc (length xs) + n ≡ suc (length xs + n) = omega arith in
    rw (next) (ap (◌∷◌ x) (take-resize xs n))

resize_written :
    (xs ys : List ℕ) (n : ℕ)
    → resize (length xs + length ys) (
        take (length xs) (resize (length xs + n) xs)
        ++ (ys ++ drop (length xs + length ys) (resize (length xs + n) xs)))
      ≡ xs ++ ys
resize_written xs ys n =
    let rest = drop (length (xs ++ ys)) (resize (length xs + n) xs) in
    rw (take-resize xs n, sym (length-append xs ys), sym (append_assoc xs ys rest))
      (resize_append (xs ++ ys) rest)

pub is_empty_lem : (xs : List ℕ) → is_empty xs ≡ true → xs ≡ []
is_empty_lem [] h = refl
is_empty_lem (x ∷ xs) h = absurd cc

is_empty_long : (xs : List ℕ) → is_empty xs ≡ false → 0 < length xs
is_empty_long [] h = absurd cc
is_empty_long (x ∷ xs) h = omega arith

pub is_empty_long_false : (xs : List ℕ) → 0 < length xs → is_empty xs ≡ false
is_empty_long_false [] h = absurd (omega arith)
is_empty_long_false (x ∷ xs) h = refl

send_buffer_ok :
    (net : Net) (bytes : List ℕ) (t : Transmitter)
    → net.sends ≡ true
    → 0 < length bytes
    → send_buffer net bytes t ≡ (record t { wire = t.wire ++ (bytes ∷ []) }, true)
unfolding send_buffer
send_buffer_ok net [] t s p = absurd (omega arith)
send_buffer_ok net (x ∷ xs) t s p = rw (s) refl

send_buffer_refused :
    (net : Net) (bytes : List ℕ) (t : Transmitter)
    → net.sends ≡ false
    → 0 < length bytes
    → send_buffer net bytes t ≡ (t, false)
unfolding send_buffer
send_buffer_refused net [] t s p = absurd (omega arith)
send_buffer_refused net (x ∷ xs) t s p = rw (s) refl

-- While nothing is being sent, the bytes go out at once.
pub post_first :
    (net : Net) (room : ℕ) (bytes : List ℕ) (t : Transmitter)
    → IsReady net
    → is_empty t.pending ≡ true
    → 0 < length bytes
    → post net room bytes t ≡ (record t { pending = bytes; wire = t.wire ++ (bytes ∷ []) }, true)
unfolding post prepare transmit transmit_pending fill
post_first net room bytes t r e p =
    let cut = resize_append bytes (drop (length bytes) (resize room [])) in
    let mem : (ltb (length (bytes ++ drop (length bytes) (resize room []))) (length bytes) && false)
        ≡ false =
      ground arith in
    let go = send_buffer_ok net bytes (record t { pending = bytes }) r.sends p in
    ground (arith, cut, mem, go)

-- While something is being sent, the bytes wait behind those that wait already.
pub post_behind :
    (net : Net) (room : ℕ) (bytes : List ℕ) (t : Transmitter)
    → IsReady net
    → is_empty t.pending ≡ false
    → post net room bytes t ≡ (
      record t { awaiting = t.awaiting ++ bytes; delayed = count t.delayed (length bytes) },
      true,
    )
unfolding post prepare transmit fill
post_behind net room bytes t r e =
    let room_for = resize (length t.awaiting + room) t.awaiting in
    let written =
      take (length t.awaiting) room_for
      ++ (bytes ++ drop (length t.awaiting + length bytes) room_for) in
    let cut = resize_written t.awaiting bytes room in
    let mem : (ltb (length written) (length t.awaiting + length bytes) && false) ≡ false =
      ground arith in
    ground (arith, cut, mem)

pub completion_idle :
    (net : Net) (n : ℕ) (t : Transmitter)
    → is_empty t.awaiting ≡ true
    → completion net true n t ≡ record t { sent = count t.sent n; pending = [] }
unfolding completion
completion_idle net n t e = ground arith

pub completion_goes_on :
    (net : Net) (n : ℕ) (t : Transmitter)
    → IsReady net
    → is_empty t.awaiting ≡ false
    → completion net true n t ≡ record t {
      sent = count t.sent n;
      pending = t.awaiting;
      awaiting = [];
      wire = t.wire ++ (t.awaiting ∷ []);
    }
unfolding completion send_awaiting
completion_goes_on net n t r e =
    let u = record t { sent = count t.sent n; pending = [] } in
    let go = send_buffer_ok net t.awaiting u r.sends (is_empty_long t.awaiting e) in
    ground (arith, go)

pub completion_refused :
    (net : Net) (n : ℕ) (t : Transmitter)
    → net.sends ≡ false
    → 0 < length t.awaiting
    → completion net true n t
      ≡ record t { sent = count t.sent n; pending = []; dropped = count t.dropped n }
unfolding completion send_awaiting
completion_refused net n t s p =
    let some = is_empty_long_false t.awaiting p in
    let go =
      send_buffer_refused net t.awaiting (record t { sent = count t.sent n; pending = [] }) s p in
    ground (arith, some, go)
