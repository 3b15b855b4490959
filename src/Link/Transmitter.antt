-- ===== src/Link/Transmitter.antt =====
-- node/server.h and node/server.cpp, class `Transmitter`: the bytes that a connection has handed to the
-- system, in `pending`, and those that wait until these are sent, in `awaiting`.
-- The model adds `wire`, the buffers that were handed to the system, in order. The counter that all
-- transmitters share and the release of memory are left out.
pub mod Post
pub mod Queue
use raddi.Base.{
  ℕ, zero, suc, ◌+◌, Bool, true, false, ◌&&◌, not, List, [], ◌∷◌, ◌++◌, Option, none, some, length,
  take, drop, ltb, if◌then◌else◌,
}

-- common/counter.h.
pub record Counter : Type 0 where
  pub number : ℕ
  pub bytes : ℕ

abbrev pub no_count : Counter
no_count = record { number = 0; bytes = 0 }

unfoldable pub count : Counter → ℕ → Counter
count c value = record { number = suc c.number; bytes = c.bytes + value }

-- Is the socket valid, does `WSASend` accept a buffer, does `WSARecv` accept one, is there memory?
pub record Net : Type 0 where
  pub valid : Bool
  pub sends : Bool
  pub receives : Bool
  pub memory : Bool

pub record Transmitter : Type 0 where
  pub pending : List ℕ
  pub awaiting : List ℕ
  pub delayed : Counter
  pub dropped : Counter
  pub sent : Counter
  pub oom : Counter
  pub wire : List (List ℕ)

-- The pointer that `prepare` returns: to the start of `pending`, or into `awaiting`.
pub data Place : Type 0 where
  at_pending : Place
  at_awaiting : ℕ → Place

abbrev pub is_empty : List ℕ → Bool
is_empty [] = true
is_empty (x ∷ xs) = false

-- `std::vector::resize`.
unfoldable pub resize : ℕ → List ℕ → List ℕ
resize zero xs = []
resize (suc n) [] = 0 ∷ resize n []
resize (suc n) (x ∷ xs) = x ∷ resize n xs

unfoldable pub send_buffer : Net → List ℕ → Transmitter → Transmitter × Bool
send_buffer net [] t = (t, true)
send_buffer net (x ∷ xs) t =
    if net.sends then (record t { wire = t.wire ++ ((x ∷ xs) ∷ []) }, true) else (t, false)

unfoldable pub prepare : Net → ℕ → Transmitter → Transmitter × Option Place
unfolding resize count
prepare net size t =
    let offset = length t.awaiting in
    if not net.valid
    then (t, none)
    else if not net.memory
    then (record t { oom = count t.oom size }, none)
    else if is_empty t.pending
    then (record t { pending = resize size [] }, some at_pending)
    else (record t { awaiting = resize (offset + size) t.awaiting }, some (at_awaiting offset))

-- What the caller writes to the memory that `prepare` returned.
unfoldable pub fill : Place → List ℕ → Transmitter → Transmitter
fill at_pending bytes t = record t { pending = bytes ++ drop (length bytes) t.pending }
fill (at_awaiting offset) bytes t = record t {
  awaiting = take offset t.awaiting ++ (bytes ++ drop (offset + length bytes) t.awaiting);
}

unfoldable pub transmit_pending : Net → ℕ → Transmitter → Transmitter × Bool
unfolding resize count send_buffer
transmit_pending net size t =
    let buffer = resize size t.pending in
    let (u, accepted) = send_buffer net buffer (record t { pending = buffer }) in
    if accepted
    then (u, true)
    else (record u { dropped = count u.dropped size; pending = [] }, false)

-- `transmit` of the first bytes of the memory that `prepare` returned.
unfoldable pub transmit : Net → Place → ℕ → Transmitter → Transmitter × Bool
unfolding resize count transmit_pending
transmit net at_pending size t =
    if ltb (length t.pending) size && not net.memory
    then (record t { oom = count t.oom size }, false)
    else transmit_pending net size t
transmit net (at_awaiting offset) size t =
    if ltb (length t.awaiting) (offset + size) && not net.memory
    then (record t { oom = count t.oom size }, false)
    else (
      record t { awaiting = resize (offset + size) t.awaiting; delayed = count t.delayed size },
      true,
    )

-- What follows the `prepare` of a buffer of the given size: the bytes are written and transmitted.
unfoldable pub post : Net → ℕ → List ℕ → Transmitter → Transmitter × Bool
unfolding prepare fill transmit
post net size bytes t =
    let (u, place) = prepare net size t in
    elim place [ none ↦ (u, false) | some at ↦ transmit net at (length bytes) (fill at bytes u) ]

unfoldable pub send_awaiting : Net → ℕ → Transmitter → Transmitter
unfolding count send_buffer
send_awaiting net n t =
    let (u, accepted) = send_buffer net t.awaiting t in
    if accepted
    then record u { pending = u.awaiting; awaiting = u.pending }
    else record u { dropped = count u.dropped n }

-- `completion` of a `WSASend` of `n` bytes.
unfoldable pub completion : Net → Bool → ℕ → Transmitter → Transmitter
unfolding count send_awaiting
completion net success n t =
    let u = record t { sent = count t.sent n; pending = [] } in
    if not success
    then record t { dropped = count t.dropped n }
    else if is_empty t.awaiting
    then u
    else send_awaiting net n u

unfoldable pub unsynchronized_is_live : Transmitter → Bool
unsynchronized_is_live t = not (is_empty t.awaiting) && not (is_empty t.pending)

unfoldable pub buffer_size : Transmitter → ℕ
buffer_size t = length t.awaiting
