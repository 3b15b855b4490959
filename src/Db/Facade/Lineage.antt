-- ===== src/Db/Facade/Lineage.antt =====
-- core/raddi_database.cpp: `assess` and `insert` together, and the entries below a thread.
use raddi.Base.{
  Bool, true, false, ◌&&◌, if◌then◌else◌, All, List, [], ◌∷◌, none, some, ◌≡◌, ◌≢◌, refl, ap, ◌∙◌,
  arith,
}
use raddi.Id.{Iid, Eid, eid_eq}
use raddi.Messages.Entry.{not_an_announcement, is_announcement}
use raddi.Db.Row.{Entry, Root, Row, Trow}
use raddi.Db.Facade.{
  Level, thread, reply, nested, classify, Tables, is_signed, is_plain, in_channel, attach, assess,
  insert, insert_thread,
}

eid_eq_self : (e : Eid) → eid_eq e e ≡ true
unfolding eid_eq raddi.Id.iid_eq
eid_eq_self e = ground arith

-- An entry that differs from its parent is no announcement, and only such an entry is.
not_announced : (e p : Eid) → is_announcement e p ≡ not_an_announcement → eid_eq e p ≡ false
unfolding is_announcement
not_announced e p h = ground arith

module _ {State Key : Type 0} (t : Tables State Key) where
  assess-attach :
      (e : Entry) (s : State) (top : Root) (level : Level)
      → assess t e s ≡ classify top level
      → (is_announcement e.id e.parent ≡ not_an_announcement) × (attach t e s ≡ classify top level)
  unfolding assess
  assess-attach e s top level h = ground arith

  attach_thread :
      (e : Entry) (s : State) (top : Root)
      → attach t e s ≡ classify top thread
      → (top.thread ≡ e.id) × (top.channel ≡ e.parent)
  unfolding attach
  attach_thread e s top h = ground arith

  attach_reply :
      (e : Entry) (s : State) (top : Root)
      → attach t e s ≡ classify top reply
      → top.thread ≡ e.parent
  unfolding attach
  attach_reply e s top h = ground arith

  -- Where an entry of a level is stored.
  abbrev pub store : Level → Entry → Root → State → State × Bool × Bool
  store thread e top u =
      let (v, ok, exists) = t.threads_insert e top u in
      if ok then t.data_insert e top v else (v, false, exists)
  store reply e top u = t.data_insert e top u
  store nested e top u = t.data_insert e top u

  insert_other :
      (e : Entry) (top : Root) (u : State)
      → is_announcement e.id e.parent ≡ not_an_announcement
      → eid_eq e.id top.thread && eid_eq e.parent top.channel ≡ false
      → insert t e top u ≡ t.data_insert e top u
  unfolding insert
  insert_other e top u a d = ground arith

  -- What `insert` does with an entry that `assess` has found to be a thread or a reply, in whatever later
  -- state of the database: a thread goes to the threads and, if that succeeds, to the data; a reply to
  -- the data alone.
  pub insert-assess :
      (e : Entry) (s u : State) (top : Root) (level : Level)
      → assess t e s ≡ classify top level
      → level ≢ nested
      → insert t e top u ≡ store level e top u
  unfolding insert
  insert-assess e s u top thread h n =
      let (other, found) = assess-attach e s top thread h in
      let (a, b) = attach_thread e s top found in
      let same : eid_eq e.id top.thread ≡ true = rw (a) (eid_eq_self e.id) in
      let under : eid_eq e.parent top.channel ≡ true = rw (b) (eid_eq_self e.parent) in
      let both : insert t e top u ≡ insert_thread t e top u = ground (arith, other, same, under) in
      both ∙ unfold insert_thread in refl
  insert-assess e s u top reply h n =
      let (other, found) = assess-attach e s top reply h in
      let a = attach_reply e s top found in
      let apart = not_announced e.id e.parent other in
      insert_other e top u other (rw (a, apart) refl)
  insert-assess e s u top nested h n = absurd (n refl)

  -- The database has stored the entry with the root that `assess` gives it, if any, and only in the data.
  pub record IsStored (s : State) (e : Entry) : Type 0 where
    pub row : Row
    pub found : t.data_get e.id s ≡ some row
    pub no_channel : in_channel t e.id s ≡ false
    pub no_thread : t.threads_get e.id s ≡ none
    pub rooted : (top : Root) (level : Level) → assess t e s ≡ classify top level → row.top ≡ top

  -- An entry below the one with the given id: not an announcement, and signed by its author.
  pub record IsBelow (s : State) (p : Eid) (e : Entry) : Type 0 where
    pub parent : e.parent ≡ p
    pub other : is_announcement e.id e.parent ≡ not_an_announcement
    pub signed : is_signed t e s ≡ true

  -- Each entry is below the one before it, and stored.
  abbrev pub Chain : State → Eid → List Entry → Type 0
  Chain s p [] = Unit
  Chain s p (e ∷ es) = IsBelow s p e × IsStored s e × Chain s e.id es

  assess_below : (s : State) (p : Eid) (e : Entry) → IsBelow s p e → assess t e s ≡ attach t e s
  unfolding assess is_plain
  assess_below s p e b = ground (arith, b.signed, b.other)

  nested_below :
      (s : State) (p e : Entry) (top : Root)
      → IsStored s p
      → IsBelow s p.id e
      → (k : Level) → assess t p s ≡ classify top k
      → assess t e s ≡ classify top nested
  unfolding attach
  nested_below s p e top st b k h =
      let root = st.rooted top k h in
      let same = assess_below s p.id e b in
      let place : attach t e s ≡ attach t (record e { parent = p.id }) s =
        ap (λ x. attach t (record e { parent = x }) s) b.parent in
      let found : attach t (record e { parent = p.id }) s ≡ classify st.row.top nested =
        rw (st.no_channel, st.no_thread, st.found) refl in
      same ∙ place ∙ found ∙ ap (λ x. classify x nested) root

  -- All of a chain below an entry that is stored, and that `assess` gives a root, have the same root.
  nested-Chain :
      (s : State) (p : Entry) (es : List Entry) (top : Root) (k : Level)
      → IsStored s p
      → assess t p s ≡ classify top k
      → Chain s p.id es
      → All (λ e. assess t e s ≡ classify top nested) es
  nested-Chain s p [] top k st h c = tt
  nested-Chain s p (e ∷ es) top k st h (b, stored, c) =
      let here = nested_below s p e top st b k h in
      (here, nested-Chain s e es top nested stored here c)

  -- In a database that has stored the thread `e`, whose channel is its parent and which is not a channel
  -- itself, in the table of threads, and a reply to it and a chain of entries below that reply, each signed
  -- and no announcement, in the data alone, with the roots that `assess` gave them: `assess` gives the
  -- reply and all entries of the chain the thread and the channel of `e`.
  pub assess-Chain :
      (s : State) (e c : Entry) (es : List Entry) (tr : Trow)
      → in_channel t e.id s ≡ false
      → t.threads_get e.id s ≡ some tr
      → tr.parent ≡ e.parent
      → IsBelow s e.id c
      → IsStored s c
      → Chain s c.id es
      → (assess t c s ≡ classify (record { channel = e.parent; thread = e.id }) reply)
        × All
            (λ d. assess t d s ≡ classify (record { channel = e.parent; thread = e.id }) nested)
            es
  unfolding attach
  assess-Chain s e c es tr outside found p b stored chain =
      let top : Root = record { channel = e.parent; thread = e.id } in
      let place : attach t c s ≡ attach t (record c { parent = e.id }) s =
        ap (λ x. attach t (record c { parent = x }) s) b.parent in
      let here : attach t (record c { parent = e.id }) s ≡ classify top reply =
        rw (outside, found, p) refl in
      let first = assess_below s e.id c b ∙ place ∙ here in
      (first, nested-Chain s c es top reply stored first chain)
