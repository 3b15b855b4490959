-- ===== src/Node/Ends.antt =====
-- node/node.cpp: `embrace` ends, although it calls itself for the entries that waited.
use raddi.Base.{
  ℕ, zero, suc, ◌+◌, ◌≤◌, ◌<◌, Bool, true, false, List, [], ◌∷◌, length, length-append, Option,
  some, ◌≡◌, refl, ap, arith, inl, inr, Bool-cases, Option-cases, ◌==◌,
}
use raddi.Id.{Iid, Eid}
use raddi.Db.Row.{Entry, Root}
use raddi.Db.Facade.{Tables, Assessment, Level, rejected, detached, classify, required, assess}
use raddi.Detached.{
  Waiting, Group, Detached, emplace, insert, find, range, others, drop_range, count_all, parents,
  each, recursive_erase, reject,
}
use raddi.Node.{
  Node, Settings, Source, Verdict, done, adopt, embrace_one, embrace_each, embrace,
  embrace_rejected, embrace_detached, embrace_required, embrace_classified, embrace_placed,
  embrace_unsolicited, lineage, is_old, zero_root, embrace_as, processed_one, accept_all, conclude,
}
use raddi.Noticed as Seen
use raddi.Subscriptions.Sets.{is_subscribed}

-- The number of entries that wait.
unfoldable pub held : List Group → ℕ
held [] = 0
held (g ∷ gs) = length g.waiting + held gs

held-emplace : (t : ℕ) (w : Waiting) (gs : List Group) → held (emplace t w gs) ≡ suc (held gs)
unfolding held emplace
held-emplace t w [] = refl
held-emplace t w (g ∷ gs) = ground (arith, held-emplace t w gs, length-append g.waiting (w ∷ []))

range-others :
    (i : Iid) (ws : List Waiting) → length (others i ws) + length (range i ws) ≡ length ws
unfolding others range
range-others i [] = refl
range-others i (w ∷ ws) = ground (arith, range-others i ws)

held-drop_range :
    (p : Eid) (ws : List Waiting) (gs : List Group)
    → find p.timestamp gs ≡ some ws
    → held (drop_range p gs) + length (range p.identity ws) ≡ held gs
unfolding held find drop_range
held-drop_range p ws [] h = ground arith
held-drop_range p ws (g ∷ gs) h = elim (Bool-cases (g.timestamp == p.timestamp)) [
  | inl e ↦
      let same : g.waiting ≡ ws = ground (arith, h, e) in
      ground
        (arith, e, range-others p.identity g.waiting, ap (λ x. length (range p.identity x)) same)
  | inr e ↦ ground (arith, e, h, held-drop_range p ws gs)
]

held-each :
    (f : Eid → Detached → Detached × ℕ) (es : List Eid) (d : Detached)
    → ((e : Eid) (d : Detached) → held (f e d).0.groups ≤ held d.groups)
    → held (each f es d).0.groups ≤ held d.groups
unfolding each
held-each f [] d h = omega arith
held-each f (e ∷ es) d h = omega (arith, h e d, held-each f es (f e d).0 h)

held-recursive_erase :
    (left : ℕ) (p : Eid) (d : Detached) → held (recursive_erase left p d).0.groups ≤ held d.groups
unfolding recursive_erase
held-recursive_erase zero p d = omega arith
held-recursive_erase (suc left) p d = elim (Option-cases (find p.timestamp d.groups)) [
  | inl e ↦ rw (e, recursive_erase) (omega arith)
  | inr (ws, e) ↦
      let es = range p.identity ws in
      let u = record d { groups = drop_range p d.groups; rejected = count_all es d.rejected } in
      let less = held-each (recursive_erase left) (parents es []) u (held-recursive_erase left) in
      rw (e, recursive_erase) (omega (arith, less, held-drop_range p ws d.groups e))
]

held-reject : (p : Eid) (d : Detached) → held (reject p d).0.groups ≤ held d.groups
unfolding reject
held-reject p d = held-recursive_erase 2049 p d

held-insert :
    (outer inner now : ℕ) (p : Eid) (e : Entry) (d : Detached)
    → held (insert outer inner now p e d).groups ≡ suc (held d.groups)
unfolding insert
held-insert outer inner now p e d =
    ground (arith, held-emplace p.timestamp (record { under = p.identity; entry = e }) d.groups)

module _ {State : Type 0} where
  -- The number of entries that wait in the node.
  abbrev pub waiting : Node State → ℕ
  waiting n = held n.detached.groups

  waiting-embrace_rejected :
      (settings : Settings) (e : Entry) (n : Node State)
      → waiting (embrace_rejected settings e n).0 ≤ waiting n
  unfolding embrace_rejected
  waiting-embrace_rejected settings e n = elim (Option-cases n.source) [
    | inl h ↦ rw (h, embrace_rejected) (omega arith)
    | inr (s, h) ↦ rw (h, embrace_rejected) (held-reject e.id n.detached)
  ]

  waiting-embrace_detached :
      (settings : Settings) (old first : Bool) (top : Root) (e : Entry) (n : Node State)
      → waiting (embrace_detached settings old first top e n) ≤ suc (waiting n)
  unfolding embrace_detached
  waiting-embrace_detached settings old first top e n = ground (
    arith,
    held-reject e.id n.detached,
    held-insert settings.outer_node settings.inner_node settings.now e.parent e n.detached,
  )

module _ {State Key : Type 0} (t : Tables State Key) where
  waiting-embrace_required :
      (old first inserted : Bool) (top : Root) (e : Entry) (n : Node State)
      → waiting (embrace_required t old first inserted top e n).0 ≡ waiting n
  unfolding embrace_required
  waiting-embrace_required old first inserted top e n = ground arith

  waiting-embrace_unsolicited :
      (settings : Settings) (old : Bool) (top : Root) (e : Entry) (s : Source) (n : Node State)
      → waiting (embrace_unsolicited t settings old top e s n).0 ≡ waiting n
  unfolding embrace_unsolicited
  waiting-embrace_unsolicited settings old top e s n = ground arith

  waiting-embrace_placed :
      (settings : Settings) (old first : Bool) (top : Root) (e : Entry) (n : Node State)
      → waiting (embrace_placed t settings old first top e n).0 ≤ waiting n
  unfolding embrace_placed
  waiting-embrace_placed settings old first top e n =
      let stored = waiting-embrace_required old first true top e n in
      elim (Bool-cases (is_subscribed (lineage t top e) settings.blacklist)) [
        | inl b ↦ rw (b, embrace_placed) (held-reject e.id n.detached)
        | inr b ↦ elim (Option-cases n.source) [
          | inl h ↦ ground (arith, b, h, stored)
          | inr (s, h) ↦
              ground (arith, b, h, stored, waiting-embrace_unsolicited settings old top e s n)
        ]
      ]

  waiting-embrace_classified :
      (settings : Settings) (old first : Bool) (top : Root) (level : Level) (e : Entry)
      (n : Node State)
      → waiting (embrace_classified t settings old first top level e n).0 ≤ waiting n
  unfolding embrace_classified
  waiting-embrace_classified settings old first top level e n =
      let m = record n { recent = (Seen.insert e.id n.recent).0 } in
      ground (arith, waiting-embrace_placed settings old first top e m)

  waiting-embrace_as :
      (settings : Settings) (first : Bool) (e : Entry) (a : Assessment) (n : Node State)
      → (waiting (embrace_as t settings first e a n).0 ≤ suc (waiting n))
        × ((embrace_as t settings first e a n).1 ≡ adopt
            → waiting (embrace_as t settings first e a n).0 ≤ waiting n)
  unfolding embrace_as
  waiting-embrace_as settings first e rejected n =
      let less = waiting-embrace_rejected settings e n in (omega (arith, less), λ h. less)
  waiting-embrace_as settings first e detached n = (
    waiting-embrace_detached settings (is_old settings e) first zero_root e n,
    λ h. ground (arith, h),
  )
  waiting-embrace_as settings first e (classify top level) n =
      let less = waiting-embrace_classified settings (is_old settings e) first top level e n in
      (omega (arith, less), λ h. less)
  waiting-embrace_as settings first e required n =
      let same = waiting-embrace_required (is_old settings e) first false zero_root e n in
      (omega (arith, same), λ h. omega (arith, same))

module _ {State : Type 0} where
  -- An outcome after which at most so many entries wait.
  abbrev Ended : ℕ → Option (Node State × Bool) → Type 0
  Ended bound o = (r : Node State × Bool) × (o ≡ some r) × (waiting r.0 ≤ bound)

  ends_each :
      (fuel : ℕ) (f : Entry → Node State → Option (Node State × Bool)) (es : List Entry)
      (n : Node State)
      → ((e : Entry) (m : Node State) → waiting m < fuel → Ended (suc (waiting m)) (f e m))
      → waiting n + length es ≤ fuel
      → Ended (waiting n + length es) (embrace_each f es n)
  unfolding embrace_each
  ends_each fuel f [] n h l = ((n, true), refl, omega arith)
  ends_each fuel f (e ∷ es) n h l =
      let (r, ends, less) = h e n (omega (arith, l)) in
      elim (Bool-cases r.1) [
        | inl b ↦
            let (q, rest, fewer) =
              ends_each fuel f es (processed_one e r.0) h (omega (arith, l, less)) in
            (q, rw ends (rw b rest), omega (arith, less, fewer))
        | inr b ↦ (r, rw ends (rw b refl), omega (arith, less))
      ]

  ends_all :
      (fuel : ℕ) (f : Entry → Node State → Option (Node State × Bool)) (p : Eid) (n : Node State)
      → ((e : Entry) (m : Node State) → waiting m < fuel → Ended (suc (waiting m)) (f e m))
      → waiting n ≤ fuel
      → Ended (waiting n) (accept_all f p n)
  unfolding accept_all
  ends_all fuel f p n h l = elim (Option-cases (find p.timestamp n.detached.groups)) [
    | inl g ↦ ((n, true), rw (g, accept_all) refl, omega arith)
    | inr (ws, g) ↦
        let dropped = held-drop_range p ws n.detached.groups g in
        let m = record n {
          detached = record n.detached { groups = drop_range p n.detached.groups };
        } in
        let (r, ends, few) =
          ends_each fuel f (range p.identity ws) m h (omega (arith, dropped, l)) in
        (r, rw (g, accept_all) ends, omega (arith, few, dropped))
  ]

  ends_conclude :
      (fuel : ℕ) (f : Entry → Node State → Option (Node State × Bool)) (p : Eid) (n : Node State)
      (v : Verdict) (bound : ℕ)
      → ((e : Entry) (m : Node State) → waiting m < fuel → Ended (suc (waiting m)) (f e m))
      → waiting n ≤ suc bound
      → (v ≡ adopt → waiting n ≤ bound)
      → bound ≤ fuel
      → Ended (suc bound) (conclude f p n v)
  unfolding conclude
  ends_conclude fuel f p n (done ok) bound h l a b = ((n, ok), refl, l)
  ends_conclude fuel f p n adopt bound h l a b =
      let (r, ends, few) = ends_all fuel f p n h (omega (arith, a refl, b)) in
      (r, ends, omega (arith, few, l))

module _ {State Key : Type 0} (t : Tables State Key) (settings : Settings) where
  -- The embracing of an entry, and of what waited for it, and so on, ends with an answer within one nested
  -- call more than entries wait in the node. At most one more entry waits afterwards.
  pub embrace_ends :
      (fuel : ℕ) (first : Bool) (e : Entry) (n : Node State)
      → waiting n < fuel
      → (r : Node State × Bool) × (embrace t settings fuel first e n ≡ some r)
        × (waiting r.0 ≤ suc (waiting n))
  unfolding embrace embrace_one
  embrace_ends zero first e n l = absurd (omega (arith, l))
  embrace_ends (suc fuel) first e n l =
      let (less, adopted) = waiting-embrace_as t settings first e (assess t e n.tables) n in
      ends_conclude fuel (embrace t settings fuel false) e.id
        (embrace_as t settings first e (assess t e n.tables) n).0
        (embrace_as t settings first e (assess t e n.tables) n).1 (waiting n)
        (λ e m k. embrace_ends fuel false e m k) less adopted (omega (arith, l))
