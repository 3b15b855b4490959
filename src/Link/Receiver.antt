-- ===== src/Link/Receiver.antt =====
-- node/server.h and node/server.cpp, class `Receiver`: the bytes that arrive are handed to `inbound`,
-- which answers how many of them it has processed, or how many it needs.
-- A receiver keeps the start of its buffer, `offset` bytes, and the state of the connection that
-- derives from it. The counters of what was received are left out.
pub mod Reassembly
use raddi.Base.{
  ℕ, zero, suc, ◌+◌, Bool, true, false, not, List, [], ◌∷◌, ◌++◌, Option, none, some, length, drop,
  ltb, ◌==◌, if◌then◌else◌,
}

-- The functions that a connection defines. `inbound` answers the new state, whether to go on, and the
-- number of bytes.
pub record Handlers (State : Type 0) : Type 0 where
  pub inbound : List ℕ → State → State × Bool × ℕ
  pub connected : State → State × Bool
  pub disconnected : State → State

-- A receiver that waits for the system: the bytes that it keeps, of which there are `offset`.
pub record Receiver (State : Type 0) : Type 0 where
  pub state : State
  pub kept : List ℕ
  pub connecting : Bool
  pub retired : Bool

module _ {State : Type 0} (handlers : Handlers State) (receives : Bool) where
  open handlers use {inbound, connected, disconnected}

  unfoldable pub stop : State → Receiver State
  stop s = record { state = disconnected s; kept = []; connecting = false; retired = true }

  -- `next`, where the system accepts to receive more or does not.
  unfoldable pub next : State → List ℕ → Receiver State
  unfolding stop
  next s kept =
      if receives
      then record { state = s; kept = kept; connecting = false; retired = false }
      else stop s

  -- The loop at `more` of `completion`.
  unfoldable pub more : ℕ → List ℕ → State → Receiver State
  unfolding stop next
  more zero bytes s = stop s
  more (suc fuel) bytes s =
      let n = length bytes in
      let (t, ok, size) = inbound bytes s in
      let rest = more fuel (drop size bytes) t in
      if not ok
      then stop t
      else if size == n
      then next t []
      else if ltb n size
      then if ltb size 65536 then next t bytes else stop t
      else rest

  -- `completion` with the bytes that arrived.
  unfoldable pub completion : Bool → List ℕ → Receiver State → Receiver State
  unfolding stop next more
  completion success bytes r =
      let (t, ok) = connected r.state in
      if r.retired
      then r
      else if not success
      then stop r.state
      else if r.connecting
      then if ok then next t [] else stop t
      else if length bytes == 0
      then stop r.state
      else more (suc (length r.kept + length bytes)) (r.kept ++ bytes) r.state
