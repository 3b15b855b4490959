-- ===== src/Coordinator/Limiter/Window.antt =====
-- core/raddi_coordinator.cpp: a minute of the requests of a connection.
use raddi.Base.{
  ℕ, suc, ◌+◌, ◌-◌, ◌/◌, ◌≤◌, ◌<◌, true, List, [], ◌∷◌, leb, ◌==◌, if◌then◌else◌, ◌≡◌, inl, inr,
  refl, arith, ap, Bool-cases, All, Option, none, some, false,
}
use raddi.Time.{sub32, older}
use raddi.Coordinator.Limiter.{
  Record, Limiter, Request, increment, requests_in, forget, total, report, limit, charge,
  answer_peers, process,
}

-- The requests from a second on, of those on record and of those that have come.
unfoldable pub since : ℕ → List Record → ℕ
since from [] = 0
since from (r ∷ rs) =
    let rest = since from rs in if leb from r.second then r.requests + rest else rest

unfoldable pub came_since : ℕ → List Request → ℕ
came_since from [] = 0
came_since from (r ∷ rs) =
    let rest = came_since from rs in if leb from r.second then suc rest else rest

since-increment :
    (from now : ℕ) (rs : List Record)
    → since from (increment now rs) ≡ (if leb from now then suc (since from rs) else since from rs)
unfolding since increment
since-increment from now [] = ground arith
since-increment from now (r ∷ rs) = ground (arith, since-increment from now rs)

since-charge : (from now n : ℕ) (rs : List Record) → since from rs ≤ since from (charge now n rs)
unfolding since charge
since-charge from now n [] = ground arith
since-charge from now n (r ∷ rs) = ground (arith, since-charge from now n rs)

older_lem : (a b : ℕ) → a < 0x8000_0000 → b < 0x8000_0000 → older a b ≡ true → a < b
unfolding older
older_lem a b p q h = ground arith

-- Times of which `older` is the order, up to the year 2088.
abbrev pub Near : List Record → Type 0
Near = All (λ r. r.second < 0x8000_0000)

increment-Near :
    (now : ℕ) (rs : List Record) → now < 0x8000_0000 → Near rs → Near (increment now rs)
unfolding increment
increment-Near now [] p n = (p, tt)
increment-Near now (r ∷ rs) p (q, n) = ground (arith, increment-Near now rs p n)

charge-Near : (now n : ℕ) (rs : List Record) → now < 0x8000_0000 → Near rs → Near (charge now n rs)
unfolding charge
charge-Near now n [] p a = (p, tt)
charge-Near now n (r ∷ rs) p (q, a) = ground (arith, charge-Near now n rs p a)

forget-Near : (limit : ℕ) (rs : List Record) → Near rs → Near (forget limit rs)
unfolding forget
forget-Near limit [] n = tt
forget-Near limit (r ∷ rs) (q, n) = ground (arith, forget-Near limit rs n)

since-forget :
    (from limit : ℕ) (rs : List Record)
    → limit ≤ from
    → limit < 0x8000_0000
    → Near rs
    → since from (forget limit rs) ≡ since from rs
unfolding since forget
since-forget from limit [] p q n = refl
since-forget from limit (r ∷ rs) p q (b, n) = elim (Bool-cases (older r.second limit)) [
  | inl h ↦ ground (arith, since-forget from limit rs p q n, older_lem r.second limit b q h)
  | inr h ↦ ground (arith, h)
]

since_le : (from : ℕ) (rs : List Record) → since from rs ≤ total rs
unfolding since total
since_le from [] = omega arith
since_le from (r ∷ rs) = ground (arith, since_le from rs)

-- A connection from which nothing has come, and after the given requests, the latest first.
abbrev pub fresh : Limiter
fresh = record { records = []; report_time = 0; reports = 0 }

abbrev pub after : ℕ → List Request → Limiter
after max_requests [] = fresh
after max_requests (r ∷ rs) = (process max_requests r (after max_requests rs)).0

-- The second in which a request is done with.
abbrev pub done : Request → ℕ
done r = elim r.peers [ none ↦ r.second | some now ↦ now ]

-- The clock does not go back, and stays between the first minute and the year 2088.
abbrev pub Timed : List Request → Type 0
Timed [] = Unit
Timed (r ∷ rs) =
    (60 ≤ r.second)
    × (r.second ≤ done r)
    × (done r < 0x8000_0000)
    × All (λ q. done q ≤ r.second) rs
    × Timed rs

-- The records hold at least what has come in the last minute.
record IsKept (l : Limiter) (ts : List Request) (now : ℕ) : Type 0 where
  near : Near l.records
  kept : (from : ℕ) → now ≤ from + 60 → came_since from ts ≤ since from l.records

minute_before : (t : ℕ) → 60 ≤ t → t < 0x8000_0000 → sub32 t 60 ≡ t - 60
minute_before t p q = omega arith

abbrev kept_records : ℕ → List Record → List Record
kept_records t rs =
    if requests_in t (increment t rs) == 1
    then forget (sub32 t 60) (increment t rs)
    else increment t rs

records_lem :
    (max_requests t : ℕ) (l : Limiter)
    → 0 < max_requests
    → (limit max_requests t l).0.records ≡ kept_records t l.records
unfolding limit report
records_lem max_requests t l p = ground arith

since-kept_records :
    (from t : ℕ) (rs : List Record)
    → 60 ≤ t
    → t < 0x8000_0000
    → t ≤ from + 60
    → Near rs
    → since from (kept_records t rs) ≡ since from (increment t rs)
since-kept_records from t rs p q r n =
    let small = minute_before t p q in
    let near = increment-Near t rs q n in
    let same =
      since-forget from (sub32 t 60) (increment t rs) (omega (arith, small)) (omega (arith, small))
        near in
    elim (Bool-cases (requests_in t (increment t rs) == 1)) [
      | inl h ↦ rw (h) same
      | inr h ↦ rw (h) refl
    ]

kept_records-Near :
    (t : ℕ) (rs : List Record) → t < 0x8000_0000 → Near rs → Near (kept_records t rs)
kept_records-Near t rs q n =
    let near = increment-Near t rs q n in
    elim (Bool-cases (requests_in t (increment t rs) == 1)) [
      | inl h ↦ rw (h) (forget-Near (sub32 t 60) (increment t rs) near)
      | inr h ↦ rw (h) near
    ]

limit-IsKept :
    (max_requests u : ℕ) (l : Limiter) (r : Request) (rs : List Request)
    → 0 < max_requests
    → 60 ≤ r.second
    → r.second < 0x8000_0000
    → u ≤ r.second
    → IsKept l rs u
    → IsKept (limit max_requests r.second l).0 (r ∷ rs) r.second
unfolding came_since
limit-IsKept max_requests u l r rs m p q below k =
    let t = r.second in
    let e = records_lem max_requests t l m in
    record {
      near = rw (e) (kept_records-Near t l.records q k.near);
      kept = λ from h.
          let before = k.kept from (omega arith) in
          rw (e, since-kept_records from t l.records p q h k.near, since-increment from t l.records)
            (ground (arith, before));
    }

charge-IsKept :
    (now n t : ℕ) (l : Limiter) (rs : List Request)
    → now < 0x8000_0000
    → IsKept l rs t
    → IsKept (record l { records = charge now n l.records }) rs t
charge-IsKept now n t l rs p k = record {
  near = charge-Near now n l.records p k.near;
  kept = λ from h. omega (arith, k.kept from h, since-charge from now n l.records);
}

later-IsKept : (l : Limiter) (rs : List Request) (t u : ℕ) → t ≤ u → IsKept l rs t → IsKept l rs u
later-IsKept l rs t u p k = record { near = k.near; kept = λ from h. k.kept from (omega arith) }

answer_peers-IsKept :
    (max_requests second : ℕ) (peers : Option ℕ) (l : Limiter) (rs : List Request)
    → let r : Request = record { second = second; peers = peers } in
      done r < 0x8000_0000 → IsKept l rs second → IsKept (answer_peers max_requests r l) rs second
unfolding answer_peers
answer_peers-IsKept max_requests second none l rs p k = k
answer_peers-IsKept max_requests second (some now) l rs p k =
    charge-IsKept now (max_requests / 3) second l rs p k

process_lem :
    (max_requests : ℕ) (r : Request) (l : Limiter)
    → process max_requests r l ≡ (
        if (limit max_requests r.second l).1
        then (answer_peers max_requests r (limit max_requests r.second l).0, true)
        else ((limit max_requests r.second l).0, false))
unfolding process
process_lem max_requests r l = refl

process-IsKept :
    (max_requests u : ℕ) (l : Limiter) (r : Request) (rs : List Request)
    → 0 < max_requests
    → 60 ≤ r.second
    → r.second ≤ done r
    → done r < 0x8000_0000
    → u ≤ r.second
    → IsKept l rs u
    → IsKept (process max_requests r l).0 (r ∷ rs) (done r)
process-IsKept max_requests u l r rs m p w q below k =
    let kept = limit-IsKept max_requests u l r rs m p (omega arith) below k in
    let more =
      answer_peers-IsKept max_requests r.second r.peers (limit max_requests r.second l).0 (r ∷ rs) q
        kept in
    later-IsKept (process max_requests r l).0 (r ∷ rs) r.second (done r) w
      (elim (Bool-cases (limit max_requests r.second l).1) [
        | inl h ↦ rw (process_lem max_requests r l, h) more
        | inr h ↦ rw (process_lem max_requests r l, h) kept
      ])

after-IsKept :
    (max_requests : ℕ) (rs : List Request) (now : ℕ)
    → 0 < max_requests
    → Timed rs
    → All (λ q. done q ≤ now) rs
    → IsKept (after max_requests rs) rs now
unfolding since came_since
after-IsKept max_requests [] now m t a = record { near = tt; kept = λ from h. omega arith }
after-IsKept max_requests (r ∷ rs) now m (p, w, q, all, s) (a, b) =
    later-IsKept (after max_requests (r ∷ rs)) (r ∷ rs) (done r) now a (
      process-IsKept max_requests r.second (after max_requests rs) r rs m p w q (omega arith)
        (after-IsKept max_requests rs r.second m s all))

answered_below :
    (max_requests t : ℕ) (l : Limiter)
    → 0 < max_requests
    → (limit max_requests t l).1 ≡ true
    → total (kept_records t l.records) < max_requests
unfolding limit
answered_below max_requests t l m h = ground arith

answered :
    (max_requests : ℕ) (r : Request) (l : Limiter)
    → (process max_requests r l).1 ≡ true
    → (limit max_requests r.second l).1 ≡ true
answered max_requests r l h =
    let e = ap (λ x. x.1) (process_lem max_requests r l) in ground (arith, e, h)

-- Where a limit is set and the clock does not go back, and stays between its first minute and the year
-- 2088: after any requests, of which those for peers count for more, when a request is answered, fewer
-- requests than the limit have come in the minute up to it, all counted, itself and those that were not
-- answered.
pub limit_lem :
    (max_requests : ℕ) (r : Request) (rs : List Request)
    → 0 < max_requests
    → Timed (r ∷ rs)
    → (process max_requests r (after max_requests rs)).1 ≡ true
    → came_since (r.second - 60) (r ∷ rs) < max_requests
limit_lem max_requests r rs m (p, w, q, all, s) h =
    let l = after max_requests rs in
    let t = r.second in
    let k =
      limit-IsKept max_requests t l r rs m p (omega arith) (omega arith)
        (after-IsKept max_requests rs t m s all) in
    let below = answered_below max_requests t l m (answered max_requests r l h) in
    let most = since_le (t - 60) (kept_records t l.records) in
    let e = ap (since (t - 60)) (records_lem max_requests t l m) in
    let came = k.kept (t - 60) (omega arith) in omega (arith, below, most, e, came)
