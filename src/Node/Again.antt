-- ===== src/Node/Again.antt =====
-- node/node.cpp, `embrace` with all the entries that it adopts: an entry that has been embraced is not
-- dealt with again.
use raddi.Base.{
  ℕ, suc, Bool, true, false, List, [], ◌∷◌, Option, none, some, ◌≡◌, refl, sym, arith, inl, inr,
  Option-cases, Bool-cases, subst,
}
use raddi.Id.{Eid}
use raddi.Db.Row.{Entry, Root}
use raddi.Db.Facade.{Tables, Level, Assessment, rejected, detached, required, classify, assess}
use raddi.Detached as Waits
use raddi.Noticed as Seen
use raddi.Noticed.{Noticed}
use raddi.Noticed.Laws.{count-insert}
use raddi.Node.{
  Node, Settings, Verdict, done, adopt, embrace_one, embrace_as, embrace_rejected, embrace_detached,
  embrace_required, is_old, conclude, accept_all, embrace_each, processed_one, embrace,
}
use raddi.Node.Fates.{recent-embrace_classified, classified_again, count-embrace_one}

-- What `recent` has, it has still.
abbrev Keeps : Eid → Noticed → Noticed → Type 0
Keeps x a b = Seen.count x a ≡ true → Seen.count x b ≡ true

Keeps-insert : (x e : Eid) (r : Noticed) → Keeps x r (Seen.insert e r).0
Keeps-insert x e r h = ground (arith, (count-insert e x r).2, h)

-- The id is in `recent` of the node that is left, if there is one.
abbrev KeptIn : {State : Type 0} → Eid → Option (Node State × Bool) → Type 0
KeptIn x none = Unit
KeptIn x (some r) = Seen.count x r.0.recent ≡ true

module _ {State : Type 0} (f : Entry → Node State → Option (Node State × Bool)) (x : Eid)
    (keeps : (e : Entry) (n : Node State) → Seen.count x n.recent ≡ true → KeptIn x (f e n)) where
  each-KeptIn :
      (es : List Entry) (n : Node State)
      → Seen.count x n.recent ≡ true
      → KeptIn x (embrace_each f es n)
  unfolding embrace_each
  each-KeptIn [] n c = c
  each-KeptIn (e ∷ es) n c = elim (Option-cases (f e n)) [
    | inl k ↦ rw k tt
    | inr (q, k) ↦
        let on : KeptIn x (some q) = subst (KeptIn x) k (keeps e n c) in
        elim (Bool-cases q.1) [
          | inl b ↦ rw (k, b) (each-KeptIn es (processed_one e q.0) on)
          | inr b ↦ rw (k, b) on
        ]
  ]

  accept_all-KeptIn :
      (p : Eid) (n : Node State) → Seen.count x n.recent ≡ true → KeptIn x (accept_all f p n)
  unfolding accept_all
  accept_all-KeptIn p n c = elim (Option-cases (Waits.find p.timestamp n.detached.groups)) [
    | inl k ↦ rw (k, accept_all) c
    | inr (ws, k) ↦ rw (k, accept_all) (each-KeptIn (Waits.range p.identity ws) _ c)
  ]

  conclude-KeptIn :
      (p : Eid) (n : Node State) (v : Verdict)
      → Seen.count x n.recent ≡ true
      → KeptIn x (conclude f p n v)
  unfolding conclude
  conclude-KeptIn p n (done ok) c = c
  conclude-KeptIn p n adopt c = accept_all-KeptIn p n c

module _ {State Key : Type 0} (t : Tables State Key) (settings : Settings) where
  as-Keeps :
      (x : Eid) (first : Bool) (e : Entry) (a : Assessment) (n : Node State)
      → Keeps x n.recent (embrace_as t settings first e a n).0.recent
  unfolding embrace_as embrace_rejected embrace_detached embrace_required
  as-Keeps x first e rejected n c = ground (arith, c)
  as-Keeps x first e detached n c = ground (arith, c)
  as-Keeps x first e (classify top level) n c =
      subst (λ r. Seen.count x r ≡ true)
        (sym (recent-embrace_classified t settings (is_old settings e) first top level e n))
        (Keeps-insert x e.id n.recent c)
  as-Keeps x first e required n c =
      let more = Keeps-insert x e.id n.recent c in ground (arith, c, more)

  embrace-KeptIn :
      (x : Eid) (fuel : ℕ) (first : Bool) (e : Entry) (n : Node State)
      → Seen.count x n.recent ≡ true
      → KeptIn x (embrace t settings fuel first e n)
  unfolding embrace embrace_one
  embrace-KeptIn x ℕ.zero first e n c = tt
  embrace-KeptIn x (suc fuel) first e n c =
      let one = embrace_as t settings first e (assess t e n.tables) n in
      conclude-KeptIn (embrace t settings fuel false) x (λ d m. embrace-KeptIn x fuel false d m)
        e.id one.0 one.1 (as-Keeps x first e (assess t e n.tables) n c)

  embraced-KeptIn :
      (fuel : ℕ) (first : Bool) (e : Entry) (n : Node State) (top : Root) (level : Level)
      → assess t e n.tables ≡ classify top level
      → KeptIn e.id (embrace t settings fuel first e n)
  unfolding embrace
  embraced-KeptIn ℕ.zero first e n top level h = tt
  embraced-KeptIn (suc fuel) first e n top level h =
      let one = embrace_one t settings first e n in
      conclude-KeptIn (embrace t settings fuel false) e.id
        (λ d m. embrace-KeptIn e.id fuel false d m) e.id one.0 one.1
        (count-embrace_one t settings first e n top level h)

  embrace_seen :
      (fuel : ℕ) (first : Bool) (e : Entry) (m : Node State) (top : Root) (level : Level)
      → assess t e m.tables ≡ classify top level
      → Seen.count e.id m.recent ≡ true
      → embrace t settings (suc fuel) first e m ≡ some (m, true)
  unfolding embrace conclude
  embrace_seen fuel first e m top level h c =
      rw (classified_again t settings first e m top level h c) refl

  -- When `embrace` of an entry that `assess` classifies has returned, with all the waiting entries that it
  -- adopts, the entry's id is in `recent`; and in any state of the node whose `recent` still has the
  -- id and where `assess` classifies the entry too, `embrace` of that entry changes nothing and returns
  -- `true`.
  pub embrace_again :
      (fuel more : ℕ) (first again : Bool) (e : Entry) (n m later : Node State) (ok : Bool)
      (top top' : Root) (level level' : Level)
      → assess t e n.tables ≡ classify top level
      → embrace t settings fuel first e n ≡ some (m, ok)
      → assess t e later.tables ≡ classify top' level'
      → Seen.count e.id later.recent ≡ true
      → (Seen.count e.id m.recent ≡ true)
        × (embrace t settings (suc more) again e later ≡ some (later, true))
  embrace_again fuel more first again e n m later ok top top' level level' h k l c = (
    subst (KeptIn e.id) k (embraced-KeptIn fuel first e n top level h),
    embrace_seen more again e later top' level' l c,
  )
