-- ===== src/Db/Facade.antt =====
-- core/raddi_database.h and core/raddi_database.cpp: what the database makes of an entry, and the table
-- that stores it. The tables are a record of operations on a state, and the functions of libsodium that
-- verify signatures are arguments. That a lookup may load a shard is not part of the model.
pub mod Lineage
use raddi.Base.{
  ℕ, ◌+◌, Bool, true, false, ◌&&◌, ◌||◌, not, List, Option, none, some, drop, ◌==◌, if◌then◌else◌,
}
use raddi.Id.{Iid, Eid, eid_eq}
use raddi.Messages.Entry.{
  Announcement, not_an_announcement, new_channel_announcement, new_identity_announcement,
  is_announcement,
}
use raddi.Content.Summary.{is_plain_line}
use raddi.Db.Row.{Entry, Root, Row, Trow}

-- `assessed_level`.
pub data Level : Type 0 where
  thread : Level
  reply : Level
  nested : Level

-- `assessment`, with the root and the level that are set where it is not refused. The level of what is
-- required is always `top`, and its root is zeros.
pub data Assessment : Type 0 where
  rejected : Assessment
  detached : Assessment
  classify : Root → Level → Assessment
  required : Assessment

-- The four tables. An insertion and an erasure answer the new state and whether they succeeded;
-- an insertion also whether the entry was there.
pub record Tables (State Key : Type 0) : Type 0 where
  pub identities_get : Iid → State → Bool
  pub identities_key : Iid → State → Option Key
  pub channels_get : Eid → State → Bool
  pub threads_get : Eid → State → Option Trow
  pub data_get : Eid → State → Option Row
  pub identities_insert : Entry → Root → State → State × Bool × Bool
  pub channels_insert : Entry → Root → State → State × Bool × Bool
  pub threads_insert : Entry → Root → State → State × Bool × Bool
  pub data_insert : Entry → Root → State → State × Bool × Bool
  pub identities_erase : Iid → Bool → State → State × Bool
  pub channels_erase : Eid → Bool → State → State × Bool
  pub threads_erase : Eid → Bool → State → State × Bool
  pub data_erase : Eid → Bool → State → State × Bool
  -- `identity::verify` of an announcement, and `entry::verify` with the author's key.
  pub verify_identity : Entry → Bool
  pub verify : Entry → Key → Bool

-- `entry->content ()`, and the same behind the key of an identity.
abbrev content : Entry → List ℕ
content e = drop 64 e.body

abbrev name : Entry → List ℕ
name e = drop (64 + 32) e.body

module _ {State Key : Type 0} (t : Tables State Key) where
  -- The signature is that of the announced identity, or of the author.
  unfoldable pub is_signed : Entry → State → Bool
  is_signed e s = elim (is_announcement e.id e.parent) [
    | new_identity_announcement ↦ t.verify_identity e
    | _ ↦ elim (t.identities_key e.id.identity s) [ none ↦ false | some key ↦ t.verify e key ]
  ]

  -- Announcements are plain lines of text.
  unfoldable pub is_plain : Entry → Bool
  is_plain e = elim (is_announcement e.id e.parent) [
    | new_identity_announcement ↦ not (is_plain_line (name e) == 0)
    | new_channel_announcement ↦ not (is_plain_line (content e) == 0)
    | not_an_announcement ↦ true
  ]

  -- Is the parent a channel, or an identity's?
  unfoldable pub in_channel : Eid → State → Bool
  in_channel parent s =
      t.channels_get parent s
      || ((parent.timestamp == parent.identity.timestamp) && t.identities_get parent.identity s)

  -- The place of an entry that is not an announcement, by its parent.
  unfoldable pub attach : Entry → State → Assessment
  attach e s =
      if in_channel e.parent s
      then classify (record { thread = e.id; channel = e.parent }) thread
      else elim (t.threads_get e.parent s) [
        | some tr ↦ classify (record { channel = tr.parent; thread = e.parent }) reply
        | none ↦ elim (t.data_get e.parent s) [ some r ↦ classify r.top nested | none ↦ detached ]
      ]

  -- `assess`.
  unfoldable pub assess : Entry → State → Assessment
  assess e s =
      if not (is_signed e s)
      then rejected
      else if not (is_plain e)
      then rejected
      else elim (is_announcement e.id e.parent) [ not_an_announcement ↦ attach e s | _ ↦ required ]

  -- The insertion of a thread, which both tables store.
  unfoldable pub insert_thread : Entry → Root → State → State × Bool × Bool
  insert_thread e top s =
      let (u, ok, exists) = t.threads_insert e top s in
      if ok then t.data_insert e top u else (u, false, exists)

  -- `insert`.
  unfoldable pub insert : Entry → Root → State → State × Bool × Bool
  insert e top s = elim (is_announcement e.id e.parent) [
    | new_identity_announcement ↦ t.identities_insert e top s
    | new_channel_announcement ↦ t.channels_insert e top s
    | not_an_announcement ↦
        if eid_eq e.id top.thread && eid_eq e.parent top.channel
        then insert_thread e top s
        else t.data_insert e top s
  ]

  -- `erase`: the second erasure of the disjunction runs where the first has failed.
  unfoldable pub erase : Eid → Bool → State → State × Bool
  erase id thorough s =
      let (u, _) = t.threads_erase id thorough s in
      let (v, ok) = t.data_erase id thorough u in
      if id.identity.timestamp == id.timestamp
      then t.identities_erase id.identity thorough s
      else if ok
      then (v, true)
      else t.channels_erase id thorough v
