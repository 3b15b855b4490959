-- ===== src/Tests/Nodes.antt =====
-- node/node.cpp at small data.
use raddi.Base.{ℕ, suc, ◌<◌, ◌≤◌, true, false, [], ◌∷◌, Option, none, some, ◌≡◌, refl, arith, Bool}
use raddi.Db.Facade.{thread}
use raddi.Link.Transmitter.{no_count}
use raddi.Noticed.{Noticed}
use raddi.Noticed as Seen
use raddi.Detached.{Detached}
use raddi.Subscriptions.Sets.{SubscriptionSet}
use raddi.Node.{Node, Settings, Source, embrace, embrace_one}
use raddi.Node.Ends.{held, waiting, embrace_ends}
use raddi.Node.Again.{embrace_again}
use raddi.Node.Fates.{concerns, embrace_one_unwanted, embrace_one_tracked}
use raddi.Tests.Databases.{root, small, a_thread, a_reply, thread_assessed_at}

abbrev nobody : SubscriptionSet
nobody = record { applications = [] }

abbrev settings : Bool → Settings
settings track = record {
  proof_complexity_requirements_adjustment = 0;
  track_all_channels = track;
  store_everything = false;
  network_propagation_participation = true;
  max_allowed_rejected_entries = 16;
  max_allowed_unsolicited_entries = 64;
  now = 900;
  outer_node = 48;
  inner_node = 48;
  blacklist = nobody;
  subscriptions = nobody;
}

abbrev unseen : Noticed
unseen = record { groups = []; changed = [] }

-- A reply waits for its thread.
abbrev one_waits : Detached
one_waits = record {
  groups =
      record {
        timestamp = 600;
        waiting = record { under = record { timestamp = 100; nonce = 2 }; entry = a_reply } ∷ [];
      }
      ∷ [];
  inserted = no_count;
  rejected = no_count;
  processed = no_count;
  highwater = no_count;
  highwater_time = 0;
}

abbrev node : Option Source → Node ℕ
node source = record {
  tables = 0;
  recent = unseen;
  refused = unseen;
  detached = one_waits;
  source = source;
  broadcasts = [];
  optimizations = 0;
}

abbrev peer : Option Source
peer = some (record { rejected = 0; unsolicited = 0 })

one_held : waiting (node none) < 2
unfolding held
one_held = omega arith

embrace_ends_example :
    (r : Node ℕ × Bool) × (embrace small (settings false) 2 true a_thread (node none) ≡ some r)
    × (waiting r.0 ≤ suc (waiting (node none)))
embrace_ends_example = embrace_ends small (settings false) 2 true a_thread (node none) one_held

abbrev embraced :
    (r : Node ℕ × Bool) × (embrace small (settings false) 2 true a_thread (node none) ≡ some r)
    × (waiting r.0 ≤ suc (waiting (node none)))
embraced = embrace_ends small (settings false) 2 true a_thread (node none) one_held

abbrev after : Node ℕ
after = embraced.0.0

-- A later state of the node, whose `recent` has the entry's id.
abbrev later : Node ℕ
later = record (node peer) {
  tables = 3;
  recent = record {
    groups = record { timestamp = 600; identities = a_thread.id.identity ∷ [] } ∷ [];
    changed = [];
  };
}

still_seen : Seen.count a_thread.id later.recent ≡ true
unfolding Seen.count raddi.Noticed.holds_in raddi.Noticed.holds raddi.Id.iid_eq
still_seen = refl

embrace_again_example :
    (Seen.count a_thread.id after.recent ≡ true)
    × (embrace small (settings false) 1 false a_thread later ≡ some (later, true))
embrace_again_example =
    embrace_again small (settings false) 2 0 true false a_thread (node none) after later
      embraced.0.1 root root thread thread (thread_assessed_at 0) embraced.1
      (thread_assessed_at later.tables) still_seen

-- The blacklist of an application has the entry's channel.
abbrev strict : Settings
strict = record (settings false) {
  blacklist = record {
    applications =
        (3, record { list = root.channel ∷ []; everything = false; changed = false }) ∷ [];
  };
  store_everything = true;
}

blacklisted : concerns small strict.blacklist.applications root a_thread ≡ true
unfolding raddi.Subscriptions.Concerns.some_asks_for raddi.Subscriptions.Laws.count raddi.Id.eid_eq
    raddi.Id.iid_eq raddi.Subscriptions.Concerns.asks_for
blacklisted = refl

embrace_one_unwanted_example : (embrace_one small strict true a_thread (node peer)).0.tables ≡ 0
embrace_one_unwanted_example =
    embrace_one_unwanted small strict true a_thread (node peer) root thread (thread_assessed_at 0)
      ((tt, tt), tt) tt (ground (arith, blacklisted))

embrace_one_tracked_example :
    ((embrace_one small (settings true) true a_thread (node none)).0.tables ≡ 0)
    × ((embrace_one small (settings true) true a_thread (node none)).0.broadcasts ≡ [])
embrace_one_tracked_example =
    embrace_one_tracked small (settings true) true a_thread (node none) root thread
      (thread_assessed_at 0) refl
