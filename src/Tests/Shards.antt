-- ===== src/Tests/Shards.antt =====
-- core/raddi_database_shard.tcc at a concrete shard of the table of threads, and of identities.
use raddi.Base.{ℕ, zero, suc, true, false, List, [], ◌∷◌, ◌++◌, some, ◌≡◌, refl, arith}
use raddi.Id.{Iid, Eid}
use raddi.Db.Row.{Entry, Root, Trow, trow, Irow, irow}
use raddi.Db.Row.Laws.{trow-IsRow, trow_offsets}
use raddi.Db.Cache.{find, remove}
use raddi.Db.Shard.{Shard, Settings, Os, Read}
use raddi.Db.Shard.Ops.{unsynchronized_advance, unsynchronized_get, reload}
use raddi.Db.Shard.Updates.{insert, unsynchronized_insert, erase}
use raddi.Db.Shard.Sound.{IsSound, opened-IsSound, closed-IsSound, advance-IsSound}
use raddi.Db.Shard.Insertion.{IsNew}
use raddi.Db.Shard.Insert.{Succeeds, placed, fits, unsynchronized_insert-IsSound}
use raddi.Db.Shard.ReadBack.{Inserts, get-insert}
use raddi.Db.Shard.Erasure.{find-reload}
use raddi.Db.Shard.Faults.{erase_identity_returns, closed_insert_duplicates, opened_shard}

abbrev bytes_of : ℕ → ℕ → List ℕ
bytes_of zero b = []
bytes_of (suc n) b = b ∷ bytes_of n b

abbrev settings : Settings
settings = record { writer = true; mask = 0x5A ∷ 0x77 ∷ []; reinsertion_validation = false }

abbrev calm : {Key : Type 0} → Os Key
calm = record {
  now = 1000;
  open_index = true;
  open_content = true;
  read_index = true;
  read_content = true;
  write_content = true;
  write_index = true;
  zero_content = true;
  zero_index = true;
  load_memory = true;
  insert_memory = true;
  resize_index = true;
  resize_content = true;
  pointer = λ before after. after;
  index_pointer = λ before row. (row, true);
  inside_write = λ position row rows. rows;
  failed_row = λ position row rows. (rows, position);
  uncut = λ before position. before;
  failed_content = λ position bytes content. (content, position);
}

abbrev out_of_memory : Os Trow
out_of_memory = record calm { load_memory = false }

abbrev someone : Iid
someone = record { timestamp = 3; nonce = 77 }

abbrev thread : Entry
thread = record {
  id = record { timestamp = 600; identity = someone };
  parent = record { timestamp = 500; identity = someone };
  body = bytes_of 116 9;
}

abbrev place : Root
place = record { channel = thread.parent; thread = thread.id }

abbrev thread_row : Trow
thread_row = record { id = thread.id; parent = thread.parent; offset = 0; length = 0 }

abbrev empty_shard : Shard Trow
empty_shard = record {
  base = 500;
  accessed = 0;
  opened = true;
  index = [];
  index_position = 0;
  index_inside = false;
  content = [];
  content_position = 0;
  deleted = 0;
  cache = [];
}

empty-IsSound : IsSound trow trow-IsRow empty_shard
unfolding raddi.Db.Cache.live raddi.Db.Cache.Laws.sorted_of
empty-IsSound = opened-IsSound trow trow-IsRow empty_shard refl tt refl refl refl refl

thread-IsNew : IsNew trow trow-IsRow thread.id empty_shard
unfolding find raddi.Db.Cache.lower_bound raddi.Id.eid_isnull
thread-IsNew = record { opened = refl; absent = refl; valid = refl }

calm-Succeeds : Succeeds trow trow-IsRow calm
calm-Succeeds = record { write_content = refl; write_index = refl; insert_memory = refl }

thread-fits : fits trow trow-IsRow thread ≡ true
unfolding fits
thread-fits = refl

thread-Inserts : Inserts trow trow-IsRow settings thread place empty_shard thread_row
thread-Inserts = record {
  writer = refl;
  sound = empty-IsSound;
  new = thread-IsNew;
  size = thread-fits;
  row = refl;
  room = rw trow_offsets (omega arith);
  whole = refl;
}

get-insert_example :
    let (t, done, exists) = insert trow settings calm thread place empty_shard in
    (done ≡ true)
    × (exists ≡ false)
    × IsSound trow trow-IsRow t
    × ((unsynchronized_get trow settings calm t thread.id Read.everything 0).1
        ≡ some (
          placed trow trow-IsRow thread empty_shard thread_row,
          record { ids = some (thread.id, thread.parent); at = 0; bytes = thread.body },
        ))
get-insert_example =
    get-insert trow trow-IsRow settings calm calm thread place empty_shard thread_row thread-Inserts
      calm-Succeeds refl

abbrev elsewhere : Eid
elsewhere = record { timestamp = 601; identity = someone }

unsynchronized_insert-IsSound_example :
    IsSound trow trow-IsRow (unsynchronized_insert trow settings calm thread place empty_shard).0
unsynchronized_insert-IsSound_example =
    unsynchronized_insert-IsSound trow trow-IsRow settings calm thread place empty_shard refl refl
      refl empty-IsSound thread-IsNew

-- A shard whose index file holds the thread's row.
abbrev stored_row : Trow
stored_row = record thread_row { length = 52 }

abbrev closed_shard : Shard Trow
closed_shard = record empty_shard {
  opened = false;
  index = stored_row ∷ [];
  content = bytes_of 116 9;
}

abbrev loaded_shard : Shard Trow
loaded_shard = record closed_shard {
  opened = true;
  index_position = 1;
  content_position = 116;
  cache = stored_row ∷ [];
}

closed_shard-IsSound : IsSound trow trow-IsRow closed_shard
unfolding raddi.Db.Cache.live raddi.Db.Cache.Laws.sorted_of raddi.Db.Cache.Laws.look_up
    raddi.Id.eid_isnull
closed_shard-IsSound = closed-IsSound trow trow-IsRow closed_shard refl refl (refl, tt)

loaded_shard-IsSound : IsSound trow trow-IsRow loaded_shard
unfolding raddi.Db.Cache.live raddi.Db.Cache.Laws.sorted_of raddi.Db.Cache.Laws.look_up
    raddi.Id.eid_isnull raddi.Db.Cache.Laws.place_row
loaded_shard-IsSound =
    opened-IsSound trow trow-IsRow loaded_shard refl (refl, tt) refl refl refl refl

advance-IsSound_example :
    IsSound trow trow-IsRow (unsynchronized_advance trow settings calm closed_shard).0
    × ((unsynchronized_advance trow settings calm closed_shard).1
        ≡ (unsynchronized_advance trow settings calm closed_shard).0.opened)
advance-IsSound_example =
    advance-IsSound trow trow-IsRow settings calm closed_shard refl refl refl closed_shard-IsSound

find-reload_example :
    find trow thread.id (reload trow settings calm loaded_shard).0.cache
    ≡ find trow thread.id loaded_shard.cache
find-reload_example =
    find-reload trow trow-IsRow settings calm loaded_shard thread.id refl refl refl refl refl refl
      loaded_shard-IsSound

closed_insert_duplicates_example :
    ((insert trow settings calm thread place closed_shard).1 ≡ true)
    × ((insert trow settings calm thread place closed_shard).2 ≡ false)
    × ((insert trow settings calm thread place closed_shard).0.index
        ≡ closed_shard.index
          ++ (placed trow trow-IsRow thread
                (opened_shard trow trow-IsRow settings calm closed_shard)
                thread_row
              ∷ []))
closed_insert_duplicates_example =
    closed_insert_duplicates trow trow-IsRow settings calm thread place closed_shard thread_row refl
      refl refl refl refl calm-Succeeds refl closed_shard-IsSound thread-fits refl

-- An identity in the cache and in the index file.
abbrev identity_row : Irow
identity_row = record { id = someone; offset = 0; length = 84 }

abbrev identities : Shard Irow
identities = record {
  base = 0;
  accessed = 0;
  opened = true;
  index = identity_row ∷ [];
  index_position = 1;
  index_inside = false;
  content = [];
  content_position = 0;
  deleted = 0;
  cache = identity_row ∷ [];
}

identity_found : find irow someone identities.cache ≡ some identity_row
unfolding find raddi.Db.Cache.lower_bound raddi.Id.iid_lt raddi.Id.iid_eq
identity_found = refl

erase_identity_returns_example :
    ((erase irow settings calm someone true identities).1 ≡ true)
    × ((erase irow settings calm someone true identities).0.cache
        ≡ remove irow someone identities.cache)
    × ((erase irow settings calm someone true identities).0.index ≡ identities.index)
erase_identity_returns_example =
    erase_identity_returns settings calm someone true identities identity_row refl refl
      ((λ h. ground (arith, h)), tt) identity_found
