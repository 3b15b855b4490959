-- ===== src/Link/Receiver/Reassembly.antt =====
-- node/server.cpp, class `Receiver`: the same frames, however the bytes are cut.
use mathlib.Core.List.{append_assoc, append-nil}
use raddi.Base.{
  ℕ, zero, suc, ◌+◌, ◌<◌, true, false, All, List, [], ◌∷◌, ◌++◌, length, drop_append, length-append,
  ltb, ◌==◌, ◌≡◌, ◌≢◌, ◌⊎◌, inl, inr, refl, sym, subst, ap, ◌∙◌, arith, ==_self,
}
use raddi.Link.Receiver.{Handlers, Receiver, next, more, completion}

-- Two ways to cut the same bytes in two: the first cut is not behind the other, or it is.
cut :
    (f ys xs rest : List ℕ)
    → f ++ ys ≡ xs ++ rest
    → ((q : List ℕ) × (xs ≡ f ++ q) × (ys ≡ q ++ rest))
      ⊎ ((q : List ℕ) × (f ≡ xs ++ q) × (rest ≡ q ++ ys) × (0 < length q))
cut [] ys xs rest h = inl (xs, refl, h)
cut (b ∷ f) ys [] rest h = inr (b ∷ f, refl, sym h, omega arith)
cut (b ∷ f) ys (x ∷ xs) rest h =
    let head : b ≡ x = cc in
    let tail : f ++ ys ≡ xs ++ rest = cc in
    elim (cut f ys xs rest tail) [
      | inl (q, e, r) ↦ inl (q, cc, r)
      | inr (q, e, r, long) ↦ inr (q, cc, r, long)
    ]

nonempty_append : (xs ys : List ℕ) → 0 < length xs → xs ++ ys ≢ []
nonempty_append [] ys p e = omega arith
nonempty_append (x ∷ xs) ys p e = cc

-- The bytes of all pieces.
abbrev pub flatten : List (List ℕ) → List ℕ
flatten [] = []
flatten (f ∷ fs) = f ++ flatten fs

module _ {State : Type 0} where
  abbrev pub waiting : State → List ℕ → Receiver State
  waiting s kept = record { state = s; kept = kept; connecting = false; retired = false }

module _ {State : Type 0} (handlers : Handlers State) where
  open handlers use {inbound, connected, disconnected}

  -- `inbound` takes exactly the frame, whatever follows, and asks for more where a part of it has come.
  pub record IsFrame (s : State) (frame : List ℕ) (t : State) : Type 0 where
    pub nonempty : 0 < length frame
    pub takes : (tail : List ℕ) → inbound (frame ++ tail) s ≡ (t, true, length frame)
    pub asks :
        (part tail : List ℕ)
        → frame ≡ part ++ tail
        → 0 < length part
        → 0 < length tail
        → (k : ℕ) × (inbound part s ≡ (s, true, k)) × (length part < k) × (k < 65536)

  -- The frames lead from the one state to the other.
  abbrev pub Frames : State → List (List ℕ) → State → Type 0
  Frames s [] u = s ≡ u
  Frames s (f ∷ fs) u = (t : State) × IsFrame s f t × Frames t fs u

  -- What is left to receive: the frames that follow what the receiver keeps.
  record IsWaiting (r : Receiver State) (rest : List ℕ) (u : State) : Type 0 where
    frames : List (List ℕ)
    leads : Frames r.state frames u
    bytes : r.kept ++ rest ≡ flatten frames
    idle : rest ≡ [] → r.kept ≡ []
    live : r.retired ≡ false
    established : r.connecting ≡ false

  more_asks :
      (fuel : ℕ) (xs : List ℕ) (s t : State) (k : ℕ)
      → inbound xs s ≡ (t, true, k)
      → length xs < k
      → k < 65536
      → more handlers true (suc fuel) xs s ≡ waiting t xs
  unfolding more next
  more_asks fuel xs s t k e p q =
      let some : (k == length xs) ≡ false = ground arith in
      let short : ltb (length xs) k ≡ true = ground arith in
      let small : ltb k 65536 ≡ true = ground arith in rw (e, some, short, small) refl

  more_exact :
      (fuel : ℕ) (xs : List ℕ) (s t : State)
      → inbound xs s ≡ (t, true, length xs)
      → more handlers true (suc fuel) xs s ≡ waiting t []
  unfolding more next
  more_exact fuel xs s t e = rw (e, ==_self (length xs)) refl

  more_over :
      (fuel : ℕ) (xs ys : List ℕ) (s t : State)
      → inbound (xs ++ ys) s ≡ (t, true, length xs)
      → 0 < length ys
      → more handlers true (suc fuel) (xs ++ ys) s ≡ more handlers true fuel ys t
  unfolding more
  more_over fuel xs ys s t e p =
      let n : length (xs ++ ys) ≡ length xs + length ys = length-append xs ys in
      let less : (length xs == length (xs ++ ys)) ≡ false = ground arith in
      let whole : ltb (length (xs ++ ys)) (length xs) ≡ false = ground arith in
      rw (e, less, whole) (ap (λ r. more handlers true fuel r t) (drop_append xs ys))

  more_lem :
      (fs : List (List ℕ)) (fuel : ℕ) (xs rest : List ℕ) (s u : State)
      → Frames s fs u
      → xs ++ rest ≡ flatten fs
      → 0 < length xs
      → length xs < fuel
      → IsWaiting (more handlers true fuel xs s) rest u
  unfolding more next
  more_lem [] fuel [] rest s u l e p q = absurd (omega arith)
  more_lem [] fuel (x ∷ xs) rest s u l e p q = absurd cc
  more_lem (f ∷ fs) zero xs rest s u l e p q = absurd (omega arith)
  more_lem (f ∷ fs) (suc fuel) xs rest s u (t, frame, l) e p q =
      elim (cut f (flatten fs) xs rest (sym e)) [
        | inl ([], g, h) ↦
            let all : xs ≡ f = g ∙ append-nil f in
            let end =
              subst (λ x. inbound x s ≡ (t, true, length f)) (append-nil f) (frame.takes []) in
            let done = more_exact fuel f s t end in
            rw (all, done)
              (record {
                frames = fs;
                leads = l;
                bytes = sym h;
                idle = λ none. refl;
                live = refl;
                established = refl;
              })
        | inl (y ∷ ys, g, h) ↦
            let n : length (f ++ (y ∷ ys)) ≡ length f + suc (length ys) =
              length-append f (y ∷ ys) in
            let m : length xs ≡ length f + suc (length ys) = ap length g ∙ n in
            let long = frame.nonempty in
            let on = more_over fuel f (y ∷ ys) s t (frame.takes (y ∷ ys)) (omega arith) in
            rw (g, on) (more_lem fs fuel (y ∷ ys) rest t u l (sym h) (omega arith) (omega arith))
        | inr (tail, g, h, long) ↦
            let ask = frame.asks xs tail g p long in
            rw (more_asks fuel xs s s ask.0 ask.1 ask.2 ask.3) (record {
              frames = f ∷ fs;
              leads = (t, frame, l);
              bytes = e;
              idle = λ none. absurd (nonempty_append tail (flatten fs) long (sym h ∙ none));
              live = refl;
              established = refl;
            })
      ]

  abbrev pub run : List (List ℕ) → Receiver State → Receiver State
  run [] r = r
  run (c ∷ cs) r = run cs (completion handlers true true c r)

  Frames-done : (fs : List (List ℕ)) (s u : State) → Frames s fs u → flatten fs ≡ [] → s ≡ u
  Frames-done [] s u l e = l
  Frames-done (f ∷ fs) s u (t, frame, l) e =
      absurd (nonempty_append f (flatten fs) frame.nonempty e)

  -- Nothing more is to come just when all frames have led to the last state.
  waiting_done : (r : Receiver State) (u : State) → IsWaiting r [] u → r ≡ waiting u []
  waiting_done r u w =
      let none = w.idle refl in
      let end = Frames-done w.frames r.state u w.leads (sym w.bytes ∙ append-nil r.kept ∙ none) in
      let live = w.live in let established = w.established in cc

  completion-IsWaiting :
      (chunk rest : List ℕ) (r : Receiver State) (u : State)
      → 0 < length chunk
      → IsWaiting r (chunk ++ rest) u
      → IsWaiting (completion handlers true true chunk r) rest u
  unfolding completion
  completion-IsWaiting chunk rest r u p w =
      let some : (length chunk == 0) ≡ false = ground arith in
      let n : length (r.kept ++ chunk) ≡ length r.kept + length chunk =
        length-append r.kept chunk in
      let bytes = append_assoc r.kept chunk rest ∙ w.bytes in
      rw (w.live, w.established, some)
        (more_lem w.frames (suc (length r.kept + length chunk)) (r.kept ++ chunk) rest r.state u
          w.leads bytes (omega arith) (omega arith))

  run-IsWaiting :
      (chunks : List (List ℕ)) (r : Receiver State) (u : State)
      → All (λ chunk. 0 < length chunk) chunks
      → IsWaiting r (flatten chunks) u
      → IsWaiting (run chunks r) [] u
  run-IsWaiting [] r u a w = w
  run-IsWaiting (c ∷ cs) r u (p, a) w =
      run-IsWaiting cs (completion handlers true true c r) u a
        (completion-IsWaiting c (flatten cs) r u p w)

  -- A receiver that keeps nothing and gets the bytes of frames in any chunks, none empty, while the
  -- system accepts to receive more, ends in the state to which the frames lead, and keeps nothing.
  pub run_lem :
      (frames chunks : List (List ℕ)) (s u : State)
      → Frames s frames u
      → All (λ chunk. 0 < length chunk) chunks
      → flatten chunks ≡ flatten frames
      → run chunks (waiting s []) ≡ waiting u []
  run_lem frames chunks s u l a e = waiting_done (run chunks (waiting s [])) u (
      run-IsWaiting chunks (waiting s []) u a (record {
        frames = frames;
        leads = l;
        bytes = e;
        idle = λ none. refl;
        live = refl;
        established = refl;
      }))
