-- ===== src/Db/Cache/Map.antt =====
-- The sorted vector as a finite map: what insertion and removal do to a lookup.
use raddi.Base.{
  true, false, List, [], ◌∷◌, some, none, if◌then◌else◌, ◌≡◌, refl, arith, Bool-cases, inl, inr,
}
use raddi.Id.Order.{IsOrder}
use raddi.Db.Row.{RowOps}
use raddi.Db.Cache.Laws.{Above, Sorted, place_row, take_out, look_up}

module _ {Key RowId : Type 0} (ops : RowOps Key RowId) (o : IsOrder (ops.lt) (ops.eq)) where
  open ops use {id, lt, eq}

  pub look_up-place_row :
      (j : RowId) (r : Key) (rows : List Key)
      → look_up ops j (place_row ops r rows) ≡ (if eq (id r) j then some r else look_up ops j rows)
  unfolding place_row look_up
  look_up-place_row j r [] = ground (arith, o.eq_iff (id r) j, o.irrefl j)
  look_up-place_row j r (x ∷ xs) = ground (
    arith,
    o.eq_iff (id r) j,
    o.eq_iff (id x) j,
    o.eq_iff (id x) (id r),
    o.irrefl j,
    o.total (id r) j,
    o.total (id x) (id r),
    o.trans (id x) j (id r),
    o.trans j (id r) (id x),
    o.trans (id x) j (id x),
    o.irrefl (id x),
    look_up-place_row j r xs,
  )

  Above-take_out :
      (k j : RowId) (rows : List Key) → Above ops k rows → Above ops k (take_out ops j rows)
  unfolding take_out
  Above-take_out k j [] a = tt
  Above-take_out k j (x ∷ xs) a = ground (arith, Above-take_out k j xs a.1)

  pub Sorted-take_out :
      (k : RowId) (rows : List Key) → Sorted ops rows → Sorted ops (take_out ops k rows)
  unfolding take_out
  Sorted-take_out k [] s = tt
  Sorted-take_out k (x ∷ xs) s = elim (Bool-cases (lt (id x) k)) [
    | inl t ↦ rw t (Above-take_out (id x) k xs s.0, Sorted-take_out k xs s.1)
    | inr t ↦ rw t s.1
  ]

  look_up-Above :
      (k j : RowId) (rows : List Key) → lt j k ≡ true → Above ops k rows → look_up ops j rows ≡ none
  unfolding look_up
  look_up-Above k j [] h a = refl
  look_up-Above k j (x ∷ xs) h a =
      ground (arith, o.trans j k (id x) h a.0, o.trans j (id x) j, o.irrefl j, o.eq_iff (id x) j)

  look_up_head : (k : RowId) (rows : List Key) → Above ops k rows → look_up ops k rows ≡ none
  unfolding look_up
  look_up_head k [] a = refl
  look_up_head k (x ∷ xs) a = ground (arith, o.trans k (id x) k, o.irrefl k, o.eq_iff (id x) k)

  pub look_up-take_out :
      (j k : RowId) (rows : List Key) {r : Key}
      → Sorted ops rows
      → look_up ops k rows ≡ some r
      → look_up ops j (take_out ops k rows) ≡ (if eq k j then none else look_up ops j rows)
  unfolding take_out look_up
  look_up-take_out j k [] s h = cc
  look_up-take_out j k (x ∷ xs) {r} s h = ground (
    arith,
    o.eq_iff (id x) k,
    o.eq_iff (id x) j,
    o.eq_iff k j,
    o.irrefl k,
    o.total k j,
    o.trans (id x) j k,
    look_up_head (id x) xs s.0,
    look_up-Above (id x) j xs,
    look_up-take_out j k xs {r = r} s.1,
  )

  pub take_out-place_row_self :
      (r : Key) (rows : List Key) → take_out ops (id r) (place_row ops r rows) ≡ rows
  unfolding take_out place_row
  take_out-place_row_self r [] = ground (arith, o.irrefl (id r))
  take_out-place_row_self r (x ∷ xs) = ground (arith, o.irrefl (id r), take_out-place_row_self r xs)

  place_row-Above :
      (k : RowId) (r : Key) (rows : List Key)
      → Above ops k rows
      → lt k (id r) ≡ false
      → place_row ops r rows ≡ r ∷ rows
  unfolding place_row
  place_row-Above k r [] a h = refl
  place_row-Above k r (x ∷ xs) a h = ground (arith, o.trans k (id x) (id r) a.0)

  pub take_out-place_row :
      (k : RowId) (r : Key) (rows : List Key) {x : Key}
      → Sorted ops rows
      → look_up ops k rows ≡ some x
      → eq (id r) k ≡ false
      → take_out ops k (place_row ops r rows) ≡ place_row ops r (take_out ops k rows)
  unfolding take_out place_row look_up
  take_out-place_row k r [] s h d = cc
  take_out-place_row k r (y ∷ ys) {x} s h d = ground (
    arith,
    o.eq_iff (id y) k,
    o.eq_iff (id r) k,
    o.total (id y) (id r),
    o.total (id r) k,
    o.trans (id r) (id y) k,
    o.trans k (id r) (id y),
    place_row-Above (id y) r ys s.0,
    take_out-place_row k r ys {x = x} s.1,
  )
