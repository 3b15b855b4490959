-- ===== src/Tests/Databases.antt =====
-- core/raddi_database.cpp and core/raddi_detached.cpp at small data.
use raddi.Base.{
  ℕ, true, false, [], ◌∷◌, ◌++◌, All, Option, none, some, ◌≡◌, refl, suc, if◌then◌else◌, ◌⊎◌, inl,
  inr, arith,
}
use raddi.Id.{Iid, Eid, eid_eq}
use raddi.Messages.Entry.{is_announcement, not_an_announcement}
use raddi.Content.Summary.{empty_summary}
use raddi.Db.Row.{Entry, Root, Row, Trow}
use raddi.Link.Transmitter.{no_count}
use raddi.Detached.{Detached, find, range, accept, reject}
use raddi.Detached as Cache
use raddi.Detached.Laws.{waits, all, taken, counted, accept_lem, waits-insert}
use raddi.Detached.Reject.{IsFiled, is_nil, reject_lem}
use raddi.Db.Facade.{
  Level, Assessment, thread, reply, nested, classify, Tables, assess, insert, is_signed, in_channel,
  attach, is_plain,
}
use raddi.Db.Facade.Lineage.{store, IsStored, insert-assess, assess-Chain}

abbrev pub eid : ℕ → ℕ → Eid
eid time n = record { timestamp = time; identity = record { timestamp = 100; nonce = n } }

abbrev pub entry : Eid → Eid → Entry
entry id parent = record { id = id; parent = parent; body = [] }

abbrev pub root : Root
root = record { channel = eid 500 1; thread = eid 600 2 }

abbrev data_row : Eid → Eid → Row
data_row id parent = record {
  id = id;
  parent = parent;
  offset = 0;
  length = 0;
  top = root;
  type = empty_summary;
}

-- A channel, a thread, a reply and a comment to it.
abbrev data_at : Eid → Option Row
data_at id =
    if eid_eq id (eid 700 3)
    then some (data_row (eid 700 3) (eid 600 2))
    else if eid_eq id (eid 800 4)
    then some (data_row (eid 800 4) (eid 700 3))
    else none

abbrev thread_row : Trow
thread_row = record { id = eid 600 2; parent = eid 500 1; offset = 0; length = 0 }

-- The state counts the insertions.
abbrev pub small : Tables ℕ ℕ
small = record {
  identities_get = λ i s. false;
  identities_key = λ i s. some 7;
  channels_get = λ e s. eid_eq e (eid 500 1);
  threads_get = λ e s. if eid_eq e (eid 600 2) then some thread_row else none;
  data_get = λ e s. data_at e;
  identities_insert = λ e top s. (suc s, true, false);
  channels_insert = λ e top s. (suc s, true, false);
  threads_insert = λ e top s. (suc s, true, false);
  data_insert = λ e top s. (suc s, true, false);
  identities_erase = λ e thorough s. (s, true);
  channels_erase = λ e thorough s. (s, true);
  threads_erase = λ e thorough s. (s, true);
  data_erase = λ e thorough s. (s, true);
  verify_identity = λ e. true;
  verify = λ e key. true;
}

abbrev pub a_thread : Entry
a_thread = entry (eid 600 2) (eid 500 1)

abbrev pub a_reply : Entry
a_reply = entry (eid 700 3) (eid 600 2)

abbrev a_comment : Entry
a_comment = entry (eid 800 4) (eid 700 3)

pub thread_assessed_at : (s : ℕ) → assess small a_thread s ≡ classify root thread
unfolding assess is_signed is_plain attach in_channel is_announcement eid_eq raddi.Id.iid_eq
thread_assessed_at s = refl

thread_assessed : assess small a_thread 0 ≡ classify root thread
unfolding assess is_signed is_plain attach in_channel is_announcement eid_eq raddi.Id.iid_eq
thread_assessed = refl

reply_assessed : assess small a_reply 0 ≡ classify root reply
unfolding assess is_signed is_plain attach in_channel is_announcement eid_eq raddi.Id.iid_eq
reply_assessed = refl

comment_assessed : assess small a_comment 0 ≡ classify root nested
unfolding assess is_signed is_plain attach in_channel is_announcement eid_eq raddi.Id.iid_eq
comment_assessed = refl

insert-assess_example : insert small a_thread root 5 ≡ store small thread a_thread root 5
insert-assess_example = insert-assess small a_thread 0 5 root thread thread_assessed (λ e. cc)

outside : in_channel small (eid 600 2) 0 ≡ false
unfolding in_channel eid_eq raddi.Id.iid_eq
outside = refl

signed_by_author : (is_signed small a_reply 0 ≡ true) × (is_signed small a_comment 0 ≡ true)
unfolding is_signed is_announcement eid_eq raddi.Id.iid_eq
signed_by_author = (refl, refl)

not_announced :
    (is_announcement (eid 700 3) (eid 600 2) ≡ not_an_announcement)
    × (is_announcement (eid 800 4) (eid 700 3) ≡ not_an_announcement)
unfolding is_announcement eid_eq raddi.Id.iid_eq
not_announced = (refl, refl)

same_root :
    (top : Root) (level : Level) (e : Assessment)
    → e ≡ classify root reply ⊎ (e ≡ classify root nested)
    → e ≡ classify top level
    → root ≡ top
same_root top level e h k = ground arith

reply-IsStored : IsStored small 0 a_reply
unfolding in_channel eid_eq raddi.Id.iid_eq
reply-IsStored = record {
  row = data_row (eid 700 3) (eid 600 2);
  found = refl;
  no_channel = refl;
  no_thread = refl;
  rooted = λ top level h. same_root top level (assess small a_reply 0) (inl reply_assessed) h;
}

comment-IsStored : IsStored small 0 a_comment
unfolding in_channel eid_eq raddi.Id.iid_eq
comment-IsStored = record {
  row = data_row (eid 800 4) (eid 700 3);
  found = refl;
  no_channel = refl;
  no_thread = refl;
  rooted = λ top level h. same_root top level (assess small a_comment 0) (inr comment_assessed) h;
}

thread_found : small.threads_get (eid 600 2) 0 ≡ some thread_row
unfolding eid_eq raddi.Id.iid_eq
thread_found = refl

assess-Chain_example :
    (assess small a_reply 0 ≡ classify (record { channel = eid 500 1; thread = eid 600 2 }) reply)
    × All
        (λ d.
          assess small d 0 ≡ classify (record { channel = eid 500 1; thread = eid 600 2 }) nested)
        (a_comment ∷ [])
assess-Chain_example =
    assess-Chain small 0 a_thread a_reply (a_comment ∷ []) thread_row outside thread_found refl
      (record { parent = refl; other = not_announced.0; signed = signed_by_author.0 })
      reply-IsStored
      (
        record { parent = refl; other = not_announced.1; signed = signed_by_author.1 },
        comment-IsStored,
        tt,
      )

-- A reply waits for its thread, and a comment for the reply.
abbrev cache : Detached
cache = record {
  groups =
      record {
        timestamp = 600;
        waiting = record { under = (eid 600 2).identity; entry = a_reply } ∷ [];
      }
      ∷ record {
        timestamp = 700;
        waiting = record { under = (eid 700 3).identity; entry = a_comment } ∷ [];
      }
      ∷ [];
  inserted = no_count;
  rejected = no_count;
  processed = no_count;
  highwater = no_count;
  highwater_time = 0;
}

cache-IsFiled : IsFiled cache
unfolding IsFiled waits find range raddi.Id.iid_eq
cache-IsFiled p = ground arith

waits-insert_example : waits (eid 700 3) (Cache.insert 40 30 9 (eid 700 3) a_reply cache).groups ≡ (
    if eid_eq (eid 700 3) (eid 700 3)
    then waits (eid 700 3) cache.groups ++ (a_reply ∷ [])
    else waits (eid 700 3) cache.groups)
waits-insert_example =
    waits-insert 40 30 9 (eid 700 3) (eid 700 3) a_reply cache ((omega arith, tt), (tt, tt))

accept_lem_example :
    (waits (eid 700 3) (accept (λ e. true) (eid 600 2) cache).0.groups
      ≡ (if eid_eq (eid 600 2) (eid 700 3) then [] else waits (eid 700 3) cache.groups))
    × ((accept (λ e. true) (eid 600 2) cache).1 ≡ all (λ e. true) (waits (eid 600 2) cache.groups))
    × ((accept (λ e. true) (eid 600 2) cache).0.processed
        ≡ counted (taken (λ e. true) (waits (eid 600 2) cache.groups)) cache.processed)
accept_lem_example = accept_lem (λ e. true) (eid 600 2) (eid 700 3) cache

reject_lem_example :
    (waits (eid 700 3) (reject (eid 600 2) cache).0.groups
      ≡ (if eid_eq (eid 600 2) (eid 700 3) then [] else waits (eid 700 3) cache.groups))
    × ((reject (eid 600 2) cache).1 ≡ (if is_nil (waits (eid 600 2) cache.groups) then 0 else 1))
reject_lem_example = reject_lem (eid 600 2) (eid 700 3) cache cache-IsFiled
