-- ===== src/Db/Cache/Laws.antt =====
-- The laws of the sorted vector, from the laws of the order on ids.
use raddi.Base.{
  true, false, List, [], ◌∷◌, ◌++◌, Option, none, some, if◌then◌else◌, ◌≡◌, refl, ap, arith,
  Bool-cases, inl, inr, All,
}
use raddi.Id.Order.{IsOrder}
use raddi.Db.Row.{RowOps}
use raddi.Db.Cache.{lower_bound, find, remove, back_below, insert_to_cache, sort}

module _ {Key RowId : Type 0} (ops : RowOps Key RowId) where
  open ops use {id, lt, eq, erased}

  -- The operations, by recursion on the vector.
  unfoldable pub place_row : Key → List Key → List Key
  place_row r [] = r ∷ []
  place_row r (x ∷ xs) = if lt (id x) (id r) then x ∷ place_row r xs else r ∷ x ∷ xs

  unfoldable pub take_out : RowId → List Key → List Key
  take_out k [] = []
  take_out k (x ∷ xs) = if lt (id x) k then x ∷ take_out k xs else xs

  unfoldable pub look_up : RowId → List Key → Option Key
  look_up k [] = none
  look_up k (x ∷ xs) = if lt (id x) k then look_up k xs else if eq (id x) k then some x else none

  unfoldable pub sorted_of : List Key → List Key
  sorted_of [] = []
  sorted_of (r ∷ rs) = place_row r (sorted_of rs)

  pub place_row_lem :
      (r : Key) (rows : List Key)
      → (lower_bound ops (id r) rows).0 ++ (r ∷ (lower_bound ops (id r) rows).1) ≡ place_row r rows
  unfolding lower_bound place_row
  place_row_lem r [] = refl
  place_row_lem r (x ∷ xs) = ground (arith, place_row_lem r xs)

  pub remove_lem : (k : RowId) (rows : List Key) → remove ops k rows ≡ take_out k rows
  unfolding remove take_out
  remove_lem k [] = refl
  remove_lem k (x ∷ xs) = ground (arith, remove_lem k xs)

  pub find_lem : (k : RowId) (rows : List Key) → find ops k rows ≡ look_up k rows
  unfolding find look_up
  find_lem k [] = refl
  find_lem k (x ∷ xs) = ground (arith, find_lem k xs)

  pub sort_lem : (rows : List Key) → sort ops rows ≡ sorted_of rows
  unfolding sort sorted_of
  sort_lem [] = refl
  sort_lem (r ∷ rs) = rw (sort_lem rs) (place_row_lem r (sorted_of rs))

  -- Strictly ascending.
  abbrev pub Above : RowId → List Key → Type 0
  Above k = All (λ r. lt k (id r) ≡ true)

  abbrev pub Sorted : List Key → Type 0
  Sorted [] = Unit {0}
  Sorted (r ∷ rs) = Above (id r) rs × Sorted rs

  module _ (o : IsOrder lt eq) where
    back_below_head :
        (r x : Key) (xs : List Key)
        → Sorted (x ∷ xs)
        → back_below ops (id r) (x ∷ xs) ≡ true
        → lt (id x) (id r) ≡ true
    unfolding back_below
    back_below_head r x [] s h = h
    back_below_head r x (y ∷ ys) s h =
        o.trans (id x) (id y) (id r) ((s.0).0) (back_below_head r y ys s.1 h)

    back_below_lem :
        (r : Key) (rows : List Key)
        → Sorted rows
        → back_below ops (id r) rows ≡ true
        → rows ++ (r ∷ []) ≡ place_row r rows
    unfolding place_row back_below
    back_below_lem r [] s h = refl
    back_below_lem r (x ∷ []) s h = ground arith
    back_below_lem r (x ∷ y ∷ ys) s h =
        rw (back_below_head r x (y ∷ ys) s h) (ap (◌∷◌ x) (back_below_lem r (y ∷ ys) s.1 h))

    pub insert_to_cache_lem :
        (r : Key) (rows : List Key) → Sorted rows → insert_to_cache ops r rows ≡ place_row r rows
    unfolding insert_to_cache
    insert_to_cache_lem r rows s = elim (Bool-cases (back_below ops (id r) rows)) [
      | inl h ↦ rw h (back_below_lem r rows s h)
      | inr h ↦ rw h (place_row_lem r rows)
    ]

    pub Above-trans : (k j : RowId) (rows : List Key) → lt k j ≡ true → Above j rows → Above k rows
    Above-trans k j [] h a = tt
    Above-trans k j (x ∷ xs) h a = (o.trans k j (id x) h a.0, Above-trans k j xs h a.1)

    Above-place_row :
        (k : RowId) (r : Key) (rows : List Key)
        → lt k (id r) ≡ true
        → Above k rows
        → Above k (place_row r rows)
    unfolding place_row
    Above-place_row k r [] h a = (h, tt)
    Above-place_row k r (x ∷ xs) h a = ground (arith, Above-place_row k r xs h a.1)

    pub Sorted-place_row :
        (r : Key) (rows : List Key)
        → look_up (id r) rows ≡ none
        → Sorted rows
        → Sorted (place_row r rows)
    unfolding place_row look_up
    Sorted-place_row r [] h s = (tt, tt)
    Sorted-place_row r (x ∷ xs) h s = elim (Bool-cases (lt (id x) (id r))) [
      | inl t ↦ rw t (Above-place_row (id x) r xs t s.0, Sorted-place_row r xs (rw t at h) s.1)
      | inr t ↦
          let below : lt (id r) (id x) ≡ true =
            ground (arith, o.total (id x) (id r), o.eq_iff (id x) (id r)) in
          rw t ((below, Above-trans (id r) (id x) xs below s.0), s)
    ]

    pub place_row_comm :
        (a b : Key) (rows : List Key)
        → eq (id a) (id b) ≡ false
        → place_row a (place_row b rows) ≡ place_row b (place_row a rows)
    unfolding place_row
    place_row_comm a b [] h = ground (
      arith,
      o.total (id a) (id b),
      o.trans (id a) (id b) (id a),
      o.irrefl (id a),
      o.eq_iff (id a) (id b),
    )
    place_row_comm a b (x ∷ xs) h = ground (
      arith,
      o.total (id a) (id b),
      o.trans (id a) (id b) (id a),
      o.irrefl (id a),
      o.eq_iff (id a) (id b),
      o.trans (id x) (id a) (id b),
      o.trans (id x) (id b) (id a),
      place_row_comm a b xs h,
    )
