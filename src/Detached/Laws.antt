-- ===== src/Detached/Laws.antt =====
-- core/raddi_detached.h and core/raddi_detached.cpp: which entries wait for which parents.
use raddi.Base.{
  ℕ, ◌<◌, Bool, true, ◌&&◌, All, List, [], ◌∷◌, ◌++◌, none, some, ltb, ◌==◌, if◌then◌else◌, ◌≡◌,
  inl, inr, refl, arith, Bool-cases, Option-cases, ltb→lt,
}
use raddi.Id.{Iid, Eid, iid_eq, eid_eq, eid_lt}
use raddi.Db.Row.{Entry, size_of}
use raddi.Link.Transmitter.{Counter, count}
use raddi.Detached.{
  Waiting, Group, Detached, emplace, insert, find, range, others, drop_range, call_each, accept,
}

-- The entries that wait for a parent, in the order of their arrival.
unfoldable pub waits : Eid → List Group → List Entry
waits p gs = elim (find p.timestamp gs) [ none ↦ [] | some ws ↦ range p.identity ws ]

-- The times of the groups ascend.
abbrev Above : ℕ → List Group → Type 0
Above t gs = All (λ g. t < g.timestamp) gs

abbrev pub Ascending : List Group → Type 0
Ascending [] = Unit
Ascending (g ∷ gs) = Above g.timestamp gs × Ascending gs

Above-trans : (t u : ℕ) (gs : List Group) → t < u → Above u gs → Above t gs
Above-trans t u [] p a = tt
Above-trans t u (g ∷ gs) p (q, a) = (omega arith, Above-trans t u gs p a)

range_append :
    (i : Iid) (ws : List Waiting) (w : Waiting)
    → range i (ws ++ (w ∷ []))
      ≡ (if iid_eq w.under i then range i ws ++ (w.entry ∷ []) else range i ws)
unfolding range
range_append i [] w = ground arith
range_append i (x ∷ ws) w = ground (arith, range_append i ws w)

find-Above : (t : ℕ) (gs : List Group) → Above t gs → find t gs ≡ none
unfolding find
find-Above t [] a = refl
find-Above t (g ∷ gs) (p, a) = ground (arith, find-Above t gs a)

find_before :
    (t : ℕ) (g : Group) (gs : List Group)
    → t < g.timestamp
    → Above g.timestamp gs
    → find t (g ∷ gs) ≡ none
find_before t g gs p a = find-Above t (g ∷ gs) (p, Above-trans t g.timestamp gs p a)

waits-emplace :
    (p q : Eid) (e : Entry) (gs : List Group)
    → Ascending gs
    → waits q (emplace p.timestamp (record { under = p.identity; entry = e }) gs)
      ≡ (if eid_eq p q then waits q gs ++ (e ∷ []) else waits q gs)
unfolding waits find emplace eid_eq range
waits-emplace p q e [] a = ground arith
waits-emplace p q e (g ∷ gs) (p1, a) = elim (Bool-cases (g.timestamp == p.timestamp)) [
  | inl h ↦
      ground (arith, range_append q.identity g.waiting (record { under = p.identity; entry = e }))
  | inr h ↦ elim (Bool-cases (ltb p.timestamp g.timestamp)) [
    | inl k ↦ ground (arith, find_before p.timestamp g gs (ltb→lt p.timestamp g.timestamp k) p1)
    | inr k ↦ ground (arith, waits-emplace p q e gs a)
  ]
]

range-others :
    (i j : Iid) (ws : List Waiting)
    → range j (others i ws) ≡ (if iid_eq i j then [] else range j ws)
unfolding range others iid_eq
range-others i j [] = ground arith
range-others i j (w ∷ ws) = ground (arith, range-others i j ws)

pub waits-drop_range :
    (p q : Eid) (gs : List Group)
    → waits q (drop_range p gs) ≡ (if eid_eq p q then [] else waits q gs)
unfolding waits find drop_range eid_eq
waits-drop_range p q [] = ground arith
waits-drop_range p q (g ∷ gs) = elim (Bool-cases (g.timestamp == p.timestamp)) [
  | inl h ↦ ground (arith, range-others p.identity q.identity g.waiting)
  | inr h ↦ ground (arith, waits-drop_range p q gs)
]

abbrev pub all : (Entry → Bool) → List Entry → Bool
all f [] = true
all f (e ∷ es) = f e && all f es

pub waits_equal :
    (p q : Eid) (gs : List Group)
    → waits p gs ≡ []
    → waits q gs ≡ (if eid_eq p q then [] else waits q gs)
unfolding eid_eq raddi.Id.iid_eq
waits_equal p q gs h = ground arith

pub waits_found :
    (p : Eid) (gs : List Group) (ws : List Waiting)
    → find p.timestamp gs ≡ some ws
    → waits p gs ≡ range p.identity ws
unfolding waits
waits_found p gs ws e = ground arith

pub waits-none : (p : Eid) (gs : List Group) → find p.timestamp gs ≡ none → waits p gs ≡ []
unfolding waits
waits-none p gs e = ground arith

-- The entries that the callback takes before it refuses one.
abbrev pub taken : (Entry → Bool) → List Entry → List Entry
taken f [] = []
taken f (e ∷ es) = if f e then e ∷ taken f es else []

-- The counter of the processed entries after the given ones.
abbrev pub counted : List Entry → Counter → Counter
counted [] c = c
counted (e ∷ es) c = counted es (count c (size_of e))

call_each_lem :
    (callback : Entry → Bool) (es : List Entry) (c : Counter)
    → (call_each callback es c) ≡ (counted (taken callback es) c, all callback es)
unfolding call_each
call_each_lem callback [] c = refl
call_each_lem callback (e ∷ es) c = ground (arith, call_each_lem callback es (count c (size_of e)))

-- `accept` of an entry answers whether the callback takes all the entries that wait for it. It counts as
-- processed those that come, in the order of their arrival, before the first that is refused, and no others.
-- Afterwards none of those that waited for the entry does, and all others still do.
pub accept_lem :
    (callback : Entry → Bool) (p q : Eid) (d : Detached)
    → (waits q (accept callback p d).0.groups ≡ (if eid_eq p q then [] else waits q d.groups))
      × ((accept callback p d).1 ≡ all callback (waits p d.groups))
      × ((accept callback p d).0.processed
          ≡ counted (taken callback (waits p d.groups)) d.processed)
unfolding accept
accept_lem callback p q d = elim (Option-cases (find p.timestamp d.groups)) [
  | inl e ↦
      let empty = waits-none p d.groups e in ground (arith, empty, waits_equal p q d.groups empty)
  | inr (ws, e) ↦
      let same = waits_found p d.groups ws e in
      ground (
        arith,
        same,
        waits-drop_range p q d.groups,
        call_each_lem callback (range p.identity ws) d.processed,
      )
]

-- In a cache whose groups ascend, an inserted entry waits behind those that wait for the same parent,
-- and for other parents wait the same entries as before.
pub waits-insert :
    (outer node now : ℕ) (p q : Eid) (e : Entry) (d : Detached)
    → Ascending d.groups
    → waits q (insert outer node now p e d).groups
      ≡ (if eid_eq p q then waits q d.groups ++ (e ∷ []) else waits q d.groups)
unfolding insert
waits-insert outer node now p q e d a = ground (arith, waits-emplace p q e d.groups a)
