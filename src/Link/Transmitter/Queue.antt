-- ===== src/Link/Transmitter/Queue.antt =====
-- node/server.cpp, class `Transmitter`: a sequence of posted frames and completed sends.
use mathlib.Core.List.{append_assoc, append-nil}
use raddi.Base.{
  ℕ, ◌<◌, Bool-cases, true, false, All, List, [], ◌∷◌, ◌++◌, length, ◌≡◌, inl, inr, refl, sym,
  subst, ap, ◌∙◌,
}
use raddi.Link.Transmitter.{Net, Transmitter, no_count, count, is_empty, post, completion}
use raddi.Link.Transmitter.Post.{
  IsReady, is_empty_lem, post_first, post_behind, completion_idle, completion_goes_on,
  completion_refused,
}
use raddi.Link.Receiver.Reassembly.{flatten}

-- Nothing waits while nothing is being sent.
pub IsOrdered : Transmitter → Type 0
IsOrdered t = is_empty t.pending ≡ true → t.awaiting ≡ []

-- The bytes that were handed to the system, and those that wait.
pub output : Transmitter → List ℕ
output t = flatten t.wire ++ t.awaiting

flatten_snoc : (xs : List (List ℕ)) (ys : List ℕ) → flatten (xs ++ (ys ∷ [])) ≡ flatten xs ++ ys
flatten_snoc [] ys = append-nil ys
flatten_snoc (x ∷ xs) ys = ap (◌++◌ x) (flatten_snoc xs ys) ∙ sym (append_assoc x (flatten xs) ys)

-- What happens to the transmitter of a connection: a frame is posted, or a send completes.
pub data Event : Type 0 where
  posted : ℕ → List ℕ → Event
  completed : ℕ → Event

abbrev pub transmit_all : Net → List Event → Transmitter → Transmitter
transmit_all net [] t = t
transmit_all net (posted room bytes ∷ es) t = transmit_all net es (post net room bytes t).0
transmit_all net (completed n ∷ es) t = transmit_all net es (completion net true n t)

abbrev pub posted_by : List Event → List ℕ
posted_by [] = []
posted_by (posted room bytes ∷ es) = bytes ++ posted_by es
posted_by (completed n ∷ es) = posted_by es

abbrev pub IsProper : Event → Type 0
IsProper (posted room bytes) = 0 < length bytes
IsProper (completed n) = Unit

record IsQueue (t : Transmitter) (bytes : List ℕ) : Type 0 where
  out : output t ≡ bytes
  ordered : IsOrdered t

post-IsQueue :
    (net : Net) (room : ℕ) (bytes before : List ℕ) (t : Transmitter)
    → IsReady net
    → 0 < length bytes
    → IsQueue t before
    → IsQueue (post net room bytes t).0 (before ++ bytes)
unfolding output IsOrdered
post-IsQueue net room bytes before t r p q = elim (Bool-cases (is_empty t.pending)) [
  | inl e ↦
      let none = q.ordered e in
      let here =
        sym (append-nil (flatten t.wire)) ∙ ap (◌++◌ (flatten t.wire)) (sym none) ∙ q.out in
      rw (post_first net room bytes t r e p) (record {
        out =
            ap (◌++◌ (flatten (t.wire ++ (bytes ∷ [])))) none
            ∙ append-nil (flatten (t.wire ++ (bytes ∷ [])))
            ∙ flatten_snoc t.wire bytes
            ∙ ap (λ x. x ++ bytes) here;
        ordered = λ h. none;
      })
  | inr e ↦ rw (post_behind net room bytes t r e) (record {
    out = sym (append_assoc (flatten t.wire) t.awaiting bytes) ∙ ap (λ x. x ++ bytes) q.out;
    ordered = λ h. absurd (cc);
  })
]

completion-IsQueue :
    (net : Net) (n : ℕ) (before : List ℕ) (t : Transmitter)
    → IsReady net
    → IsQueue t before
    → IsQueue (completion net true n t) before
unfolding output IsOrdered
completion-IsQueue net n before t r q = elim (Bool-cases (is_empty t.awaiting)) [
  | inl e ↦
      let none = is_empty_lem t.awaiting e in
      rw (completion_idle net n t e) (record { out = q.out; ordered = λ h. none })
  | inr e ↦ rw (completion_goes_on net n t r e) (record {
    out =
        append-nil (flatten (t.wire ++ (t.awaiting ∷ []))) ∙ flatten_snoc t.wire t.awaiting ∙ q.out;
    ordered = λ h. refl;
  })
]

queue_lem :
    (net : Net) (es : List Event) (t : Transmitter) (before : List ℕ)
    → IsReady net
    → All IsProper es
    → IsQueue t before
    → IsQueue (transmit_all net es t) (before ++ posted_by es)
queue_lem net [] t before r p q = rw (append-nil before) q
queue_lem net (posted room bytes ∷ es) t before r (p, ps) q =
    subst (IsQueue (transmit_all net (posted room bytes ∷ es) t))
      (append_assoc before bytes (posted_by es))
      (queue_lem net es (post net room bytes t).0 (before ++ bytes) r ps
        (post-IsQueue net room bytes before t r p q))
queue_lem net (completed n ∷ es) t before r (p, ps) q =
    queue_lem net es (completion net true n t) before r ps (completion-IsQueue net n before t r q)

-- A transmitter to which nothing has been handed yet.
abbrev pub idle : Transmitter
idle = record {
  pending = [];
  awaiting = [];
  delayed = no_count;
  dropped = no_count;
  sent = no_count;
  oom = no_count;
  wire = [];
}

-- While the system accepts what is sent, and whatever the order in which frames are posted and sends
-- complete: the bytes handed to the system, followed by those that wait, are the frames in the order in
-- which they were posted, none of them empty. Once nothing is being sent, nothing waits.
pub transmit_all_lem :
    (net : Net) (es : List Event)
    → IsReady net
    → All IsProper es
    → (flatten (transmit_all net es idle).wire ++ (transmit_all net es idle).awaiting
        ≡ posted_by es)
      × ((transmit_all net es idle).pending ≡ [] → (transmit_all net es idle).awaiting ≡ [])
unfolding output IsOrdered
transmit_all_lem net es r p =
    let q = queue_lem net es idle [] r p (record { out = refl; ordered = λ h. refl }) in
    (q.out, λ h. q.ordered (ap is_empty h))

-- When the system does not accept the bytes that waited, they stay, and a frame that is posted next, if
-- the system accepts it, is handed over without them.
pub post_overtakes :
    (net later : Net) (n room : ℕ) (bytes : List ℕ) (t : Transmitter)
    → net.sends ≡ false
    → IsReady later
    → 0 < length t.awaiting
    → 0 < length bytes
    → ((post later room bytes (completion net true n t)).0.wire ≡ t.wire ++ (bytes ∷ []))
      × ((post later room bytes (completion net true n t)).0.awaiting ≡ t.awaiting)
post_overtakes net later n room bytes t s r p q =
    let stuck = completion_refused net n t s p in
    let u = record t { sent = count t.sent n; pending = []; dropped = count t.dropped n } in
    rw (stuck, post_first later room bytes u r refl q) (refl, refl)
