-- ===== src/Subscriptions/Laws.antt =====
-- Subscribing, unsubscribing, and the bound on the list.
use raddi.Base.{
  ℕ, suc, ◌+◌, ◌-◌, ◌≤◌, true, false, not, ◌&&◌, List, [], ◌∷◌, length, ltb, if◌then◌else◌, ◌≡◌,
  refl, arith, All, Bool-cases, inl, inr,
}
use raddi.Id.{Eid, eid_lt, eid_eq}
use raddi.Id.Order.{IsOrder, eid_lt-IsOrder}
use raddi.Subscriptions.{
  Subscriptions, insert_sorted, found_at, erase_at, subscribe_to_everything_unsynchronized,
  subscribe, unsubscribe, any_found, is_subscribed,
}

abbrev o : IsOrder eid_lt eid_eq
o = eid_lt-IsOrder

-- How often an entry is in the list.
unfoldable pub count : Eid → List Eid → ℕ
count e [] = 0
count e (x ∷ xs) = let rest = count e xs in if eid_eq x e then suc rest else rest

abbrev pub NotBelow : Eid → List Eid → Type 0
NotBelow e = All (λ x. eid_lt x e ≡ false)

abbrev pub Ascending : List Eid → Type 0
Ascending [] = Unit {0}
Ascending (x ∷ xs) = NotBelow x xs × Ascending xs

NotBelow-insert :
    (a e : Eid) (xs : List Eid)
    → eid_lt e a ≡ false
    → NotBelow a xs
    → NotBelow a (insert_sorted e xs)
unfolding insert_sorted
NotBelow-insert a e [] h n = (h, tt)
NotBelow-insert a e (x ∷ xs) h n = ground (arith, NotBelow-insert a e xs h n.1)

-- Everything not below `x` is not below what `x` is not below.
NotBelow-trans : (a x : Eid) (xs : List Eid) → eid_lt x a ≡ false → NotBelow x xs → NotBelow a xs
NotBelow-trans a x [] h n = tt
NotBelow-trans a x (y ∷ ys) h n = (
  ground (arith, o.trans y a x, o.trans x y a, o.total a x, o.total y x, n.0),
  NotBelow-trans a x ys h n.1,
)

Ascending-insert : (e : Eid) (xs : List Eid) → Ascending xs → Ascending (insert_sorted e xs)
unfolding insert_sorted
Ascending-insert e [] a = (tt, tt)
Ascending-insert e (x ∷ xs) a = elim (Bool-cases (eid_lt x e)) [
  | inl h ↦ rw h (
    NotBelow-insert x e xs (ground (arith, o.trans x e x, o.irrefl x)) a.0,
    Ascending-insert e xs a.1,
  )
  | inr h ↦ rw h ((h, NotBelow-trans e x xs h a.0), a)
]

NotBelow-erase : (a e : Eid) (xs : List Eid) → NotBelow a xs → NotBelow a (erase_at e xs)
unfolding erase_at
NotBelow-erase a e [] n = tt
NotBelow-erase a e (x ∷ xs) n = ground (arith, NotBelow-erase a e xs n.1)

Ascending-erase : (e : Eid) (xs : List Eid) → Ascending xs → Ascending (erase_at e xs)
unfolding erase_at
Ascending-erase e [] a = tt
Ascending-erase e (x ∷ xs) a = elim (Bool-cases (eid_lt x e)) [
  | inl h ↦ rw h (NotBelow-erase x e xs a.0, Ascending-erase e xs a.1)
  | inr h ↦ rw h a.1
]

count-insert :
    (j e : Eid) (xs : List Eid)
    → count j (insert_sorted e xs) ≡ (if eid_eq e j then suc (count j xs) else count j xs)
unfolding count insert_sorted
count-insert j e [] = refl
count-insert j e (x ∷ xs) = ground (arith, count-insert j e xs)

count_above : (j x : Eid) (xs : List Eid) → eid_lt j x ≡ true → NotBelow x xs → count j xs ≡ 0
unfolding count
count_above j x [] h n = refl
count_above j x (y ∷ ys) h n = ground (arith, o.eq_iff y j, n.0, count_above j x ys h n.1)

-- On an ascending list the binary search finds exactly the entries that are in it.
pub found_at_lem : (j : Eid) (xs : List Eid) → Ascending xs → found_at j xs ≡ ltb 0 (count j xs)
unfolding found_at count
found_at_lem j [] a = refl
found_at_lem j (x ∷ xs) a =
    ground (arith, o.eq_iff x j, o.irrefl j, o.total x j, count_above j x xs, found_at_lem j xs a.1)

count-erase :
    (j e : Eid) (xs : List Eid)
    → found_at e xs ≡ true
    → count j (erase_at e xs) ≡ (if eid_eq e j then count j xs - 1 else count j xs)
unfolding count erase_at found_at
count-erase j e [] h = cc
count-erase j e (x ∷ xs) h =
    ground (arith, o.eq_iff x e, o.eq_iff x j, o.eq_iff e j, o.irrefl e, count-erase j e xs)

-- The invariant: the list is ascending and within the limit, and empty under `everything`.
pub record IsSound (max_individual : ℕ) (s : Subscriptions) : Type 0 where
  pub ascending : Ascending s.list
  pub bounded : length s.list ≤ max_individual
  pub exclusive : s.everything ≡ true → s.list ≡ []

length-insert : (e : Eid) (xs : List Eid) → length (insert_sorted e xs) ≡ length xs + 1
unfolding insert_sorted
length-insert e [] = omega arith
length-insert e (x ∷ xs) = ground (arith, length-insert e xs)

length-erase : (e : Eid) (xs : List Eid) → length (erase_at e xs) ≤ length xs
unfolding erase_at
length-erase e [] = omega arith
length-erase e (x ∷ xs) = ground (arith, length-erase e xs)

-- `subscribe` keeps the list ascending, within the limit that it is given, and empty while everything
-- is received.
pub subscribe-IsSound :
    (limit : ℕ) (e : Eid) (s : Subscriptions)
    → IsSound limit s
    → IsSound limit (subscribe limit e s)
unfolding subscribe
subscribe-IsSound limit e s v = elim (Bool-cases s.everything) [
  | inl h ↦ let q : subscribe limit e s ≡ s = ground arith in rw q v
  | inr h ↦ elim (Bool-cases (ltb (length s.list) limit)) [
    | inl l ↦
        let q : subscribe limit e s ≡ record s { list = insert_sorted e s.list; changed = true } =
          ground arith in
        rw q (record {
          ascending = Ascending-insert e s.list v.ascending;
          bounded = ground (arith, length-insert e s.list);
          exclusive = λ k. cc;
        })
    | inr l ↦
        let q : subscribe limit e s ≡ subscribe_to_everything_unsynchronized s = ground arith in
        rw q (record { ascending = tt; bounded = omega arith; exclusive = λ k. refl })
  ]
]

-- `unsubscribe` keeps the list ascending, within any limit it was in, and empty while everything is
-- received.
pub unsubscribe-IsSound :
    (limit : ℕ) (e : Eid) (s : Subscriptions) → IsSound limit s → IsSound limit (unsubscribe e s).0
unfolding unsubscribe
unsubscribe-IsSound limit e s v = elim (Bool-cases (not s.everything && found_at e s.list)) [
  | inr h ↦ let q : unsubscribe e s ≡ (s, false) = ground arith in rw q v
  | inl h ↦
      let q : unsubscribe e s ≡ (record s { list = erase_at e s.list; changed = true }, true) =
        ground arith in
      rw q (record {
        ascending = Ascending-erase e s.list v.ascending;
        bounded = omega (arith, length-erase e s.list, v.bounded);
        exclusive = λ k. ground arith;
      })
]

any_found-insert :
    (es : List Eid) (e : Eid) (xs : List Eid)
    → Ascending xs
    → any_found es xs ≡ true
    → any_found es (insert_sorted e xs) ≡ true
unfolding any_found
any_found-insert [] e xs a h = cc
any_found-insert (j ∷ js) e xs a h = ground (
  arith,
  found_at_lem j xs a,
  found_at_lem j (insert_sorted e xs) (Ascending-insert e xs a),
  count-insert j e xs,
  any_found-insert js e xs a,
)

-- After `subscribe` of a sound list, within the limit or past it, everything that belongs to the new entry or to one
-- subscribed before is received.
is_subscribed-subscribe :
    (limit : ℕ) (e : Eid) (es : List Eid) (s : Subscriptions)
    → IsSound limit s
    → (is_subscribed (e ∷ es) (subscribe limit e s) ≡ true)
      × (is_subscribed es s ≡ true → is_subscribed es (subscribe limit e s) ≡ true)
unfolding subscribe is_subscribed any_found
is_subscribed-subscribe limit e es s v = (
  ground (
    arith,
    found_at_lem e (insert_sorted e s.list) (Ascending-insert e s.list v.ascending),
    count-insert e e s.list,
    o.eq_iff e e,
  ),
  λ h. ground (arith, any_found-insert es e s.list v.ascending),
)

-- Where not everything is received and the list is sound, `unsubscribe` answers whether the entry was listed; an entry subscribed to once is not received
-- any more, one subscribed to several times still is, and all other entries are as before.
is_subscribed-unsubscribe :
    (limit : ℕ) (e j : Eid) (s : Subscriptions)
    → IsSound limit s
    → s.everything ≡ false
    → ((unsubscribe e s).1 ≡ ltb 0 (count e s.list))
      × (is_subscribed (j ∷ []) (unsubscribe e s).0
          ≡ (if eid_eq e j then ltb 1 (count j s.list) else is_subscribed (j ∷ []) s))
unfolding unsubscribe is_subscribed any_found
is_subscribed-unsubscribe limit e j s v h = (
  ground (arith, found_at_lem e s.list v.ascending),
  ground (
    arith,
    found_at_lem e s.list v.ascending,
    found_at_lem j s.list v.ascending,
    found_at_lem j (erase_at e s.list) (Ascending-erase e s.list v.ascending),
    count-erase j e s.list,
    o.eq_iff e j,
  ),
)
