-- ===== src/Node/Fates.antt =====
-- node/node.cpp: what becomes of the entries that the database has a place for.
use raddi.Base.{
  ℕ, List, Bool, true, false, not, ◌&&◌, ◌||◌, Option, none, some, ◌≡◌, refl, sym, ap, ◌∙◌, arith,
  inl, inr, Option-cases, subst,
}
use raddi.Id.{Eid, eid_eq}
use raddi.Db.Row.{Entry, Root}
use raddi.Db.Facade.{Tables, Level, classify, assess}
use raddi.Noticed as Seen
use raddi.Noticed.{Noticed}
use raddi.Noticed.Laws.{count-insert}
use raddi.Subscriptions.{Subscriptions}
use raddi.Subscriptions.Sets.{is_subscribed}
use raddi.Subscriptions.Concerns.{some_asks_for, IsSorted, is_subscribed_lem}
use raddi.Node.{
  Node, Settings, Source, done, embrace_one, embrace_as, embrace_required, embrace_classified,
  embrace_placed, embrace_unsolicited, lineage, is_old,
}

abbrev pub is_none : Option Source → Bool
is_none none = true
is_none (some s) = false

eid_eq_self : (e : Eid) → eid_eq e e ≡ true
unfolding eid_eq raddi.Id.iid_eq
eid_eq_self e = ground arith

module _ {State Key : Type 0} (t : Tables State Key) where
  recent-embrace_required :
      (old first : Bool) (top : Root) (e : Entry) (n : Node State)
      → (embrace_required t old first true top e n).0.recent ≡ n.recent
  unfolding embrace_required
  recent-embrace_required old first top e n = ground arith

  recent-embrace_unsolicited :
      (settings : Settings) (old : Bool) (top : Root) (e : Entry) (s : Source) (n : Node State)
      → (embrace_unsolicited t settings old top e s n).0.recent ≡ n.recent
  unfolding embrace_unsolicited
  recent-embrace_unsolicited settings old top e s n = ground arith

  recent-embrace_placed :
      (settings : Settings) (old first : Bool) (top : Root) (e : Entry) (n : Node State)
      → (embrace_placed t settings old first top e n).0.recent ≡ n.recent
  unfolding embrace_placed
  recent-embrace_placed settings old first top e n =
      let stored = recent-embrace_required old first top e n in
      elim (Option-cases n.source) [
        | inl h ↦ ground (arith, h, stored)
        | inr (s, h) ↦ ground (arith, h, stored, recent-embrace_unsolicited settings old top e s n)
      ]

  pub recent-embrace_classified :
      (settings : Settings) (old first : Bool) (top : Root) (level : Level) (e : Entry)
      (n : Node State)
      → (embrace_classified t settings old first top level e n).0.recent
        ≡ (Seen.insert e.id n.recent).0
  unfolding embrace_classified
  recent-embrace_classified settings old first top level e n =
      let m = record n { recent = (Seen.insert e.id n.recent).0 } in
      ground (arith, recent-embrace_placed settings old first top e m)

  insert_seen : (e : Eid) (r : Noticed) → Seen.count e r ≡ true → Seen.insert e r ≡ (r, false)
  unfolding Seen.insert Seen.count
  insert_seen e r h = ground (arith, h)

  classified_seen :
      (settings : Settings) (old first : Bool) (top : Root) (level : Level) (e : Entry)
      (n : Node State)
      → Seen.count e.id n.recent ≡ true
      → embrace_classified t settings old first top level e n ≡ (n, done true)
  unfolding embrace_classified
  classified_seen settings old first top level e n h =
      rw (insert_seen e.id n.recent h, embrace_classified) refl

  pub one_classified :
      (settings : Settings) (first : Bool) (e : Entry) (n : Node State) (top : Root) (level : Level)
      → assess t e n.tables ≡ classify top level
      → embrace_one t settings first e n
        ≡ embrace_classified t settings (is_old settings e) first top level e n
  unfolding embrace_one embrace_as
  one_classified settings first e n top level h = rw (h, embrace_one) refl

  pub classified_again :
      (settings : Settings) (first : Bool) (e : Entry) (m : Node State) (top : Root) (level : Level)
      → assess t e m.tables ≡ classify top level
      → Seen.count e.id m.recent ≡ true
      → embrace_one t settings first e m ≡ (m, done true)
  classified_again settings first e m top level h k =
      one_classified settings first e m top level h
      ∙ classified_seen settings (is_old settings e) first top level e m k

  pub count-embrace_one :
      (settings : Settings) (first : Bool) (e : Entry) (n : Node State) (top : Root) (level : Level)
      → assess t e n.tables ≡ classify top level
      → Seen.count e.id (embrace_one t settings first e n).0.recent ≡ true
  count-embrace_one settings first e n top level h =
      let recent =
        ap (λ r. r.0.recent) (one_classified settings first e n top level h)
        ∙ recent-embrace_classified settings (is_old settings e) first top level e n in
      subst (λ r. Seen.count e.id r ≡ true) (sym recent)
        (ground (arith, (count-insert e.id e.id n.recent).2, eid_eq_self e.id))

  tables-embrace_unsolicited :
      (settings : Settings) (old : Bool) (top : Root) (e : Entry) (s : Source) (n : Node State)
      → (embrace_unsolicited t settings old top e s n).0.tables ≡ n.tables
  unfolding embrace_unsolicited
  tables-embrace_unsolicited settings old top e s n = ground arith

  -- Is an entry that has a place stored, as far as its source and the subscriptions say?
  abbrev is_wanted : Settings → Root → Entry → Node State → Bool
  is_wanted settings top e n =
      not (is_subscribed (lineage t top e) settings.blacklist)
      && (is_none n.source
          || (settings.store_everything || is_subscribed (lineage t top e) settings.subscriptions))

  tables-embrace_placed :
      (settings : Settings) (old first : Bool) (top : Root) (e : Entry) (n : Node State)
      → is_wanted settings top e n ≡ false
      → (embrace_placed t settings old first top e n).0.tables ≡ n.tables
  unfolding embrace_placed
  tables-embrace_placed settings old first top e n h = elim (Option-cases n.source) [
    | inl k ↦ ground (arith, h, k)
    | inr (s, k) ↦ ground (arith, h, k, tables-embrace_unsolicited settings old top e s n)
  ]

  classified_unwanted :
      (settings : Settings) (old first : Bool) (top : Root) (level : Level) (e : Entry)
      (n : Node State)
      → is_wanted settings top e n ≡ false
      → (embrace_classified t settings old first top level e n).0.tables ≡ n.tables
  unfolding embrace_classified
  classified_unwanted settings old first top level e n h =
      let m = record n { recent = (Seen.insert e.id n.recent).0 } in
      ground (arith, tables-embrace_placed settings old first top e m h)

  -- Is any of the four ids of an entry with a place asked for by an application?
  abbrev pub concerns : List (ℕ × Subscriptions) → Root → Entry → Bool
  concerns applications top e =
      some_asks_for applications top.channel
      || (some_asks_for applications top.thread
          || (some_asks_for applications e.id
              || some_asks_for applications
                  (record { timestamp = e.id.identity.timestamp; identity = e.id.identity })))

  wanted_lem :
      (settings : Settings) (top : Root) (e : Entry) (n : Node State)
      → IsSorted settings.blacklist
      → IsSorted settings.subscriptions
      → is_wanted settings top e n ≡ (
          not (concerns settings.blacklist.applications top e)
          && (is_none n.source
              || (settings.store_everything || concerns settings.subscriptions.applications top e)))
  wanted_lem settings top e n b s =
      let author : Eid = record { timestamp = e.id.identity.timestamp; identity = e.id.identity } in
      rw
        (
          is_subscribed_lem top.channel top.thread e.id author settings.blacklist b,
          is_subscribed_lem top.channel top.thread e.id author settings.subscriptions s,
        )
        refl

  -- An entry that has a place in the database is not stored if the blacklist has its channel, its thread, its
  -- author or the entry itself, or everything, under any application; nor if a connection brought it while no
  -- application subscribes to any of these or to everything, and the node does not store everything. The
  -- lists of subscriptions are ascending.
  pub embrace_one_unwanted :
      (settings : Settings) (first : Bool) (e : Entry) (n : Node State) (top : Root) (level : Level)
      → assess t e n.tables ≡ classify top level
      → IsSorted settings.blacklist
      → IsSorted settings.subscriptions
      → (concerns settings.blacklist.applications top e
          || (not (is_none n.source)
              && (not settings.store_everything
                  && not (concerns settings.subscriptions.applications top e))))
        ≡ true
      → (embrace_one t settings first e n).0.tables ≡ n.tables
  embrace_one_unwanted settings first e n top level h b s c =
      let wanted = wanted_lem settings top e n b s in
      let k : is_wanted settings top e n ≡ false = ground (arith, wanted, c) in
      ap (λ r. r.0.tables) (one_classified settings first e n top level h)
      ∙ classified_unwanted settings (is_old settings e) first top level e n k

  classified_tracked :
      (settings : Settings) (old first : Bool) (top : Root) (level : Level) (e : Entry)
      (n : Node State)
      → settings.track_all_channels ≡ true
      → ((embrace_classified t settings old first top level e n).0.tables ≡ n.tables)
        × ((embrace_classified t settings old first top level e n).0.broadcasts ≡ n.broadcasts)
  unfolding embrace_classified
  classified_tracked settings old first top level e n h = ground (arith, h)

  -- With `track_all_channels`, which is the default of a node that is not a leaf, no entry that has a place
  -- in the database is stored or broadcast.
  pub embrace_one_tracked :
      (settings : Settings) (first : Bool) (e : Entry) (n : Node State) (top : Root) (level : Level)
      → assess t e n.tables ≡ classify top level
      → settings.track_all_channels ≡ true
      → ((embrace_one t settings first e n).0.tables ≡ n.tables)
        × ((embrace_one t settings first e n).0.broadcasts ≡ n.broadcasts)
  embrace_one_tracked settings first e n top level h k =
      let placed = one_classified settings first e n top level h in
      let (same, quiet) = classified_tracked settings (is_old settings e) first top level e n k in
      (ap (λ r. r.0.tables) placed ∙ same, ap (λ r. r.0.broadcasts) placed ∙ quiet)
