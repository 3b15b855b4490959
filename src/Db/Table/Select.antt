-- ===== src/Db/Table/Select.antt =====
-- core/raddi_database_table.tcc, `select`, and what it calls: a walk over the rows of the shards, in
-- the order of the shards' bases, that reads the content of the rows which `query` asks for.
pub mod Counts
use raddi.Base.{
  ℕ, ◌+◌, ◌-◌, ◌%◌, Bool, true, false, ◌&&◌, not, List, [], ◌∷◌, ◌++◌, Option, none, some, length,
  ◌==◌, if◌then◌else◌, ◌>>=◌,
}
use raddi.Time.{u64, add32, older}
use raddi.Db.Row.{RowOps}
use raddi.Db.Shard.{Shard, Settings, Os, Read, Got}
use raddi.Db.Shard.Ops.{unsynchronized_advance, unsynchronized_read}

-- What the callbacks are told: the shard, the row's index in it, the shard's rows, and the rows
-- evaluated and matched so far.
pub record Info : Type 0 where
  pub shard : ℕ
  pub index : ℕ
  pub count : ℕ
  pub total : ℕ
  pub match : ℕ

-- `advance_marks.erase`: the marks afterwards, and whether there was one.
unfoldable pub erase_mark : ℕ → List ℕ → List ℕ × Bool
erase_mark base [] = ([], false)
erase_mark base (m ∷ ms) =
    let (kept, found) = erase_mark base ms in if m == base then (kept, true) else (m ∷ kept, found)

module _ {Key RowId : Type 0} (ops : RowOps Key RowId) where
  open ops use {id, to_eid}

  -- `need_shard_to_advance`.
  unfoldable pub need_shard_to_advance : List ℕ → Shard Key → List ℕ × Bool
  unfolding erase_mark
  need_shard_to_advance marks s = if s.opened then erase_mark s.base marks else (marks, true)

  -- `shard::size`, as it is built for 64 bits.
  unfoldable pub size : Os Key → Shard Key → ℕ
  size os s =
      if s.opened
      then length s.cache
      else if os.open_index
      then (length s.index + (u64 - s.deleted)) % u64
      else 0

  -- The loop of `shard::enumerate`: `ask` is the callback without data, `give` the one with data.
  -- `none` where a read fails: that clears the vector under the loop's iterators.
  unfoldable pub enumerate_rows :
      {State : Type 0}
      → Settings
      → Os Key
      → (Key → State → State × Bool)
      → (Key → Got → State → State)
      → List Key
      → Shard Key
      → State
      → Option (Shard Key × State)
  enumerate_rows st os ask give [] s x = some (s, x)
  enumerate_rows st os ask give (r ∷ rs) s x =
      let (y, wanted) = ask r x in
      elim wanted [
        | false ↦ enumerate_rows st os ask give rs s y
        | true ↦
            let (t, got) = unsynchronized_read ops st os s r Read.everything 0 in
            elim got [ none ↦ none | some g ↦ enumerate_rows st os ask give rs t (give r g y) ]
      ]

  -- `shard::enumerate`.
  unfoldable pub enumerate :
      {State : Type 0}
      → Settings
      → Os Key
      → (Key → State → State × Bool)
      → (Key → Got → State → State)
      → Shard Key
      → State
      → Option (Shard Key × State)
  unfolding enumerate_rows
  enumerate st os ask give s x = do
    (t, y) ← enumerate_rows st os ask give s.cache s x
    some (record t { accessed = os.now }, y)

  -- Is the row's timestamp from `oldest` to `latest`, both included?
  unfoldable pub within : ℕ → ℕ → Key → Bool
  within oldest latest r =
      let t = (to_eid (id r)).timestamp in not (older t oldest) && older t (add32 latest 1)

  -- The lambda's part without data.
  unfoldable pub evaluate :
      ℕ → ℕ → (Key → Info → Bool) → (Key → Info → Bool) → Key → Info → Info × Bool
  unfolding within
  evaluate oldest latest constrain query r info =
      let matched = record info { match = info.match + 1 } in
      let (now, wanted) =
        if within oldest latest r && constrain r info
        then (matched, query r matched)
        else (info, false) in
      (record now { index = now.index + 1; total = now.total + 1 }, wanted)

  -- One shard of `select`, with the marks, the rows that `callback` has been given, and `info`.
  unfoldable pub select_shard :
      Settings
      → Os Key
      → ℕ
      → ℕ
      → (Key → Info → Bool)
      → (Key → Info → Bool)
      → List ℕ
      → Shard Key
      → Info × List (Key × Got)
      → Option (List ℕ × Shard Key × (Info × List (Key × Got)))
  unfolding need_shard_to_advance size enumerate evaluate
  select_shard st os oldest latest constrain query marks s (info, given) =
      let (left, needed) = need_shard_to_advance marks s in
      let t = if needed then (unsynchronized_advance ops st os s).0 else s in
      let ask : Key → Info × List (Key × Got) → (Info × List (Key × Got)) × Bool = λ r x.
        let (y, wanted) = evaluate oldest latest constrain query r x.0 in ((y, x.1), wanted) in
      let started = record info { shard = t.base; index = 0; count = size os t } in
      do
        (u, x) ← enumerate st os ask (λ r g x. (x.0, x.1 ++ ((r, g) ∷ []))) t (started, given)
        some (left, u, x)

  -- `select`: the marks and the shards afterwards, `info`, whose `match` is returned, and the rows
  -- and contents that `callback` was given.
  unfoldable pub select :
      Settings
      → Os Key
      → ℕ
      → ℕ
      → (Key → Info → Bool)
      → (Key → Info → Bool)
      → List ℕ
      → List (Shard Key)
      → Info × List (Key × Got)
      → Option (List ℕ × List (Shard Key) × (Info × List (Key × Got)))
  unfolding select_shard
  select st os oldest latest constrain query marks [] x = some (marks, [], x)
  select st os oldest latest constrain query marks (s ∷ ss) x = elim (older latest s.base) [
    | true ↦ some (marks, s ∷ ss, x)
    | false ↦ do
      (left, t, y) ← select_shard st os oldest latest constrain query marks s x
      (rest, ts, z) ← select st os oldest latest constrain query left ss y
      some (rest, t ∷ ts, z)
  ]
