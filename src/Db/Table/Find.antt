-- ===== src/Db/Table/Find.antt =====
-- core/raddi_database_table.tcc: `unsynchronized_find_shard`, by the number of shards that begin
-- in time.
use raddi.Base.{
  ℕ, suc, ◌+◌, ◌-◌, ◌≤◌, ◌<◌, Bool, none, some, List, [], ◌∷◌, length, leb, ◌==◌, if◌then◌else◌,
  true, false, ◌≡◌, refl, arith,
}
use raddi.Db.Shard.{Shard}
use raddi.Db.Table.{upper_bound, last_base, find_shard}

module _ {Key : Type 0} where
  -- How many shards begin at `t` or before.
  unfoldable pub begun : ℕ → List (Shard Key) → ℕ
  begun t [] = 0
  begun t (s ∷ ss) = if leb s.base t then suc (begun t ss) else begun t ss

  -- Do the bases of the shards ascend strictly, from `b` on?
  unfoldable pub ascending : ℕ → List (Shard Key) → Bool
  ascending b [] = true
  ascending b (s ∷ ss) = if leb b s.base then ascending (s.base + 1) ss else false

  begun_none : (t b : ℕ) (ss : List (Shard Key)) → t < b → ascending b ss ≡ true → begun t ss ≡ 0
  unfolding begun ascending
  begun_none t b [] l h = refl
  begun_none t b (s ∷ ss) l h = ground (arith, begun_none t (s.base + 1) ss)

  upper_bound-begun :
      (t b : ℕ) (ss : List (Shard Key)) → ascending b ss ≡ true → upper_bound t ss ≡ begun t ss
  unfolding begun ascending upper_bound
  upper_bound-begun t b [] h = refl
  upper_bound-begun t b (s ∷ ss) h =
      ground (arith, upper_bound-begun t (s.base + 1) ss, begun_none t (s.base + 1) ss)

  begun_all :
      (t b : ℕ) (s : Shard Key) (ss : List (Shard Key))
      → ascending b (s ∷ ss) ≡ true
      → (m : ℕ) × (last_base (s ∷ ss) ≡ some m)
        × (s.base ≤ m)
        × (m ≤ t → begun t (s ∷ ss) ≡ length (s ∷ ss))
  unfolding begun ascending last_base
  begun_all t b s [] h = (s.base, refl, ground arith, λ k. ground arith)
  begun_all t b s (u ∷ us) h =
      let rest = begun_all t (s.base + 1) u us (ground arith) in
      (rest.0, rest.1, ground (arith), λ k. ground (arith, rest.3 k))

  -- With ascending bases, the shard found is the last one that begins at the timestamp or before;
  -- none is found just when every shard begins later.
  pub find_shard_lem :
      (t : ℕ) (ss : List (Shard Key))
      → ascending 0 ss ≡ true
      → find_shard t ss ≡ (if begun t ss == 0 then none else some (begun t ss - 1))
  unfolding find_shard begun last_base
  find_shard_lem t [] h = refl
  find_shard_lem t (s ∷ ss) h =
      let m = begun_all t 0 s ss h in
      let all = m.3 in rw (m.1, upper_bound-begun t 0 (s ∷ ss) h) (ground arith)
