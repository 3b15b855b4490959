-- ===== src/Db/Table/Select/Counts.antt =====
-- core/raddi_database_table.tcc, `select`, where no content is asked for: what it counts.
use raddi.Base.{
  ℕ, suc, ◌+◌, Bool, true, false, ◌&&◌, List, [], ◌∷◌, ◌++◌, some, length, if◌then◌else◌, ◌≡◌, refl,
  arith, ◌∙◌, subst, inl, inr, Bool-cases,
}
use raddi.Time.{older}
use raddi.Db.Row.{RowOps}
use raddi.Db.Shard.{Shard, Settings, Os, Got}
use raddi.Db.Table.Select.{
  Info, enumerate_rows, within, evaluate, need_shard_to_advance, erase_mark, size, enumerate,
  select_shard, select,
}

module _ {Key RowId : Type 0} (ops : RowOps Key RowId) where
  -- How many of the rows are in the range and satisfy the constraint?
  unfoldable pub matches : ℕ → ℕ → (Key → Bool) → List Key → ℕ
  matches oldest latest c [] = 0
  matches oldest latest c (r ∷ rs) =
      let rest = matches oldest latest c rs in
      if within ops oldest latest r && c r then suc rest else rest

  -- The rows of the shards up to the first one that begins after `latest`.
  unfoldable pub rows_until : ℕ → List (Shard Key) → List Key
  rows_until latest [] = []
  rows_until latest (s ∷ ss) =
      let rest = rows_until latest ss in if older latest s.base then [] else s.cache ++ rest

  unfoldable pub all_opened : List (Shard Key) → Bool
  all_opened [] = true
  all_opened (s ∷ ss) = if s.opened then all_opened ss else false

  matches-++ :
      (oldest latest : ℕ) (c : Key → Bool) (rs us : List Key)
      → matches oldest latest c (rs ++ us) ≡ matches oldest latest c rs + matches oldest latest c us
  unfolding matches
  matches-++ oldest latest c [] us = ground arith
  matches-++ oldest latest c (r ∷ rs) us = ground (arith, matches-++ oldest latest c rs us)

  -- A callback that never asks for content only changes its own state.
  unfoldable run : {State : Type 0} → (Key → State → State) → List Key → State → State
  run f [] x = x
  run f (r ∷ rs) x = run f rs (f r x)

  enumerate_quietly :
      {State : Type 0} (st : Settings) (os : Os Key) (ask : Key → State → State × Bool)
      (give : Key → Got → State → State) (f : Key → State → State)
      → ((r : Key) (x : State) → ask r x ≡ (f r x, false))
      → (rs : List Key) (s : Shard Key) (x : State)
      → enumerate_rows ops st os ask give rs s x ≡ some (s, run f rs x)
  unfolding enumerate_rows run
  enumerate_quietly st os ask give f h [] s x = refl
  enumerate_quietly st os ask give f h (r ∷ rs) s x =
      ground (arith, h r x, enumerate_quietly st os ask give f h rs s (f r x))

  unfoldable tally : ℕ → ℕ → (Key → Bool) → Key → Info × List (Key × Got) → Info × List (Key × Got)
  tally oldest latest c r (info, given) =
      let next = record info { index = info.index + 1; total = info.total + 1 } in
      if within ops oldest latest r && c r
      then (record next { match = info.match + 1 }, given)
      else (next, given)

  unfoldable asked :
      ℕ → ℕ → (Key → Bool) → Key → Info × List (Key × Got) → (Info × List (Key × Got)) × Bool
  asked oldest latest c r x =
      let (y, wanted) = evaluate ops oldest latest (λ r i. c r) (λ r i. false) r x.0 in
      ((y, x.1), wanted)

  asked-tally :
      (oldest latest : ℕ) (c : Key → Bool) (r : Key) (x : Info × List (Key × Got))
      → asked oldest latest c r x ≡ (tally oldest latest c r x, false)
  unfolding tally asked evaluate
  asked-tally oldest latest c r x = ground arith

  tally-match :
      (oldest latest : ℕ) (c : Key → Bool) (r : Key) (x : Info × List (Key × Got))
      → ((tally oldest latest c r x).0.match
          ≡ x.0.match + (if within ops oldest latest r && c r then 1 else 0))
        × ((tally oldest latest c r x).1 ≡ x.1)
  unfolding tally
  tally-match oldest latest c r x = ground arith

  run-tally :
      (oldest latest : ℕ) (c : Key → Bool) (rs : List Key) (x : Info × List (Key × Got))
      → ((run (tally oldest latest c) rs x).0.match ≡ x.0.match + matches oldest latest c rs)
        × ((run (tally oldest latest c) rs x).1 ≡ x.1)
  unfolding run matches
  run-tally oldest latest c [] x = (ground arith, refl)
  run-tally oldest latest c (r ∷ rs) x =
      let rest = run-tally oldest latest c rs (tally oldest latest c r x) in
      let first = tally-match oldest latest c r x in
      (ground (arith, rest.0, first.0), rest.1 ∙ first.1)

  unfoldable begin : Shard Key → Info × List (Key × Got) → Info × List (Key × Got)
  begin s (info, given) = (record info { shard = s.base; index = 0; count = length s.cache }, given)

  select_shard_count :
      (st : Settings) (os : Os Key) (oldest latest : ℕ) (c : Key → Bool) (s : Shard Key)
      (x : Info × List (Key × Got))
      → s.opened ≡ true
      → select_shard ops st os oldest latest (λ r i. c r) (λ r i. false) [] s x
        ≡ some ([], record s { accessed = os.now }, run (tally oldest latest c) s.cache (begin s x))
  unfolding select_shard need_shard_to_advance erase_mark size enumerate begin asked
  select_shard_count st os oldest latest c s x h =
      let counted =
        enumerate_quietly st os (asked oldest latest c) (λ r g y. (y.0, y.1 ++ ((r, g) ∷ [])))
          (tally oldest latest c) (asked-tally oldest latest c) s.cache s (begin s x) in
      ground (arith, counted)

  begin_keeps :
      (s : Shard Key) (x : Info × List (Key × Got))
      → ((begin s x).0.match ≡ x.0.match) × ((begin s x).1 ≡ x.1)
  unfolding begin
  begin_keeps s x = (refl, refl)

  opened_parts :
      (s : Shard Key) (ss : List (Shard Key))
      → all_opened (s ∷ ss) ≡ true
      → (s.opened ≡ true) × (all_opened ss ≡ true)
  unfolding all_opened
  opened_parts s ss h = (ground arith, ground arith)

  select_further :
      (st : Settings) (os : Os Key) (oldest latest : ℕ) (c q : Key → Info → Bool) (s : Shard Key)
      (ss : List (Shard Key)) (x : Info × List (Key × Got)) {t : Shard Key} {ts : List (Shard Key)}
      {y z : Info × List (Key × Got)}
      → older latest s.base ≡ false
      → select_shard ops st os oldest latest c q [] s x ≡ some ([], t, y)
      → select ops st os oldest latest c q [] ss y ≡ some ([], ts, z)
      → select ops st os oldest latest c q [] (s ∷ ss) x ≡ some ([], t ∷ ts, z)
  unfolding select
  select_further st os oldest latest c q s ss x e f g = rw (e, select) (rw f (rw g refl))

  -- `select` on opened shards without marks, when no content is asked for, returns; it counts the
  -- rows that are in the range and satisfy the constraint, in every shard up to the first one that
  -- begins after `latest`, gives no row to `callback`, and leaves the marks empty.
  select_count :
      (st : Settings) (os : Os Key) (oldest latest : ℕ) (c : Key → Bool) (ss : List (Shard Key))
      (x : Info × List (Key × Got))
      → all_opened ss ≡ true
      → (ts : List (Shard Key)) × (z : Info) × (select ops st os oldest latest
            (λ r i. c r)
            (λ r i. false)
            []
            ss
            x
          ≡ some ([], ts, (z, x.1)))
        × (z.match ≡ x.0.match + matches oldest latest c (rows_until latest ss))
  unfolding select matches rows_until all_opened
  select_count st os oldest latest c [] x h = ([], x.0, refl, ground arith)
  select_count st os oldest latest c (s ∷ ss) x h =
      let y = run (tally oldest latest c) s.cache (begin s x) in
      let counted = run-tally oldest latest c s.cache (begin s x) in
      let opened = opened_parts s ss h in
      let shard = select_shard_count st os oldest latest c s x opened.0 in
      let begun = begin_keeps s x in
      let rest = select_count st os oldest latest c ss y opened.1 in
      let added = matches-++ oldest latest c s.cache (rows_until latest ss) in
      elim (Bool-cases (older latest s.base)) [
        | inl e ↦ (s ∷ ss, x.0, ground (arith, e), ground (arith, e))
        | inr e ↦ (
          record s { accessed = os.now } ∷ rest.0,
          rest.1,
          subst
              (λ g.
                select ops st os oldest latest (λ r i. c r) (λ r i. false) [] (s ∷ ss) x
                ≡ some ([], record s { accessed = os.now } ∷ rest.0, (rest.1, g)))
              (counted.1 ∙ begun.1)
              (select_further st os oldest latest (λ r i. c r) (λ r i. false) s ss x e shard
                rest.2),
          ground (arith, e, rest.3, counted.0, added, begun.0),
        )
      ]
