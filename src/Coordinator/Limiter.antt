-- ===== src/Coordinator/Limiter.antt =====
-- core/raddi_coordinator.cpp, the start of `process`: how many requests of a connection are answered.
pub mod Window
use raddi.Base.{
  ℕ, zero, suc, ◌+◌, Bool, true, false, not, List, [], ◌∷◌, ltb, leb, ◌==◌, if◌then◌else◌, ◌/◌,
  Option, none, some,
}
use raddi.Time.{sub32, older}

-- One second, and the number of requests in it.
pub record Record : Type 0 where
  pub second : ℕ
  pub requests : ℕ

-- `request_limiter` and `request_limiter_report_time` of a connection, and the reports made.
pub record Limiter : Type 0 where
  pub records : List Record
  pub report_time : ℕ
  pub reports : ℕ

-- `++request_limiter [now]`, in a map in the order of the seconds.
unfoldable pub increment : ℕ → List Record → List Record
increment now [] = record { second = now; requests = 1 } ∷ []
increment now (r ∷ rs) =
    let rest = increment now rs in
    if r.second == now
    then record r { requests = suc r.requests } ∷ rs
    else if ltb now r.second
    then record { second = now; requests = 1 } ∷ r ∷ rs
    else r ∷ rest

-- The number of requests in a second.
unfoldable pub requests_in : ℕ → List Record → ℕ
requests_in now [] = 0
requests_in now (r ∷ rs) = if r.second == now then r.requests else requests_in now rs

-- The loop that erases what is older than a minute.
unfoldable pub forget : ℕ → List Record → List Record
forget limit [] = []
forget limit (r ∷ rs) = let rest = forget limit rs in if older r.second limit then rest else r ∷ rs

unfoldable pub total : List Record → ℕ
total [] = 0
total (r ∷ rs) = r.requests + total rs

-- The reports, one in each second.
unfoldable pub report : ℕ → Limiter → Limiter
report now l =
    if l.report_time == now then l else record l { report_time = now; reports = suc l.reports }

-- The limit, where one is set: is the request answered?
unfoldable pub limit : ℕ → ℕ → Limiter → Limiter × Bool
unfolding increment requests_in forget total report
limit max_requests_per_minute now l =
    let counted = increment now l.records in
    let records = if requests_in now counted == 1 then forget (sub32 now 60) counted else counted in
    let m = record l { records = records } in
    if max_requests_per_minute == 0
    then (l, true)
    else if leb max_requests_per_minute (total records)
    then (report now m, false)
    else (m, true)

-- `request_limiter [now] += n`.
unfoldable pub charge : ℕ → ℕ → List Record → List Record
charge now n [] = record { second = now; requests = n } ∷ []
charge now n (r ∷ rs) =
    let rest = charge now n rs in
    if r.second == now
    then record r { requests = r.requests + n } ∷ rs
    else if ltb now r.second
    then record { second = now; requests = n } ∷ r ∷ rs
    else r ∷ rest

-- A request: the second in which it comes and, if it is one for peers, the second in which it has been
-- answered.
pub record Request : Type 0 where
  pub second : ℕ
  pub peers : Option ℕ

-- The end of the case of an answered request for peers: it counts for a third of the limit once more.
unfoldable pub answer_peers : ℕ → Request → Limiter → Limiter
unfolding charge
answer_peers max_requests_per_minute r m = elim r.peers [
  | none ↦ m
  | some now ↦ record m { records = charge now (max_requests_per_minute / 3) m.records }
]

-- `process`, as far as it concerns the limiter.
unfoldable pub process : ℕ → Request → Limiter → Limiter × Bool
unfolding limit answer_peers
process max_requests_per_minute r l =
    let (m, answered) = limit max_requests_per_minute r.second l in
    if answered then (answer_peers max_requests_per_minute r m, true) else (m, false)
