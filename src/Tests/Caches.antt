-- ===== src/Tests/Caches.antt =====
-- core/raddi_subscriptions.cpp, core/raddi_noticed.cpp, core/raddi_database_peerset.cpp and the choice
-- of a shard in core/raddi_database_table.tcc at concrete contents.
use raddi.Base.{
  ℕ, ◌+◌, ◌-◌, ◌*◌, ◌<◌, ◌≤◌, true, false, List, [], ◌∷◌, none, some, ◌≡◌, ◌==◌, refl, arith,
  if◌then◌else◌,
}
use raddi.Time.{u32}
use raddi.Id.{Eid}
use raddi.Subscriptions.{none_yet, subscribe}
use raddi.Subscriptions.Laws.{IsSound, subscribe-IsSound}
use raddi.Noticed.{Noticed}
use raddi.Address.{Address, af_inet, af_inet6}
use raddi.Peers.{Peers, find}
use raddi.Db.Row.{Trow}
use raddi.Db.Shard.{Shard}
use raddi.Db.Table.{backtrack_base, find_shard}
use raddi.Db.Table.Find.{begun, ascending, find_shard_lem}
use raddi.Db.Table.Backtrack.{backtrack_covers, backtrack_diverges}

abbrev first : Eid
first = record { timestamp = 7; identity = record { timestamp = 3; nonce = 1 } }

abbrev second : Eid
second = record { timestamp = 9; identity = record { timestamp = 3; nonce = 1 } }

none_yet-IsSound : IsSound 3 none_yet
none_yet-IsSound = record { ascending = tt; bounded = omega arith; exclusive = λ h. refl }

subscribed-IsSound : IsSound 3 (subscribe 3 first none_yet)
subscribed-IsSound = subscribe-IsSound 3 first none_yet none_yet-IsSound

one_subscribed : (subscribe 3 first none_yet).everything ≡ false
unfolding subscribe
one_subscribed = refl

abbrev seen : Noticed
seen = record {
  groups = record { timestamp = 7; identities = record { timestamp = 3; nonce = 1 } ∷ [] } ∷ [];
  changed = [];
}

abbrev peer : ℕ → Address
peer n = record { family = af_inet; port = n; bytes = 8 ∷ 8 ∷ 4 ∷ 4 ∷ [] }

abbrev known : Peers
known = record {
  addresses = (peer 80, 250) ∷ (peer 443, 64) ∷ [];
  ipv4changed = false;
  ipv6changed = false;
}

known_peer : find (peer 80) known.addresses ≡ some 250
unfolding find raddi.Address.address_lt raddi.Address.bytes_eq
known_peer = refl

abbrev banned : Address
banned = record {
  family = af_inet6;
  port = 0;
  bytes = 0x20 ∷ 1 ∷ 0 ∷ 0 ∷ 0 ∷ 0 ∷ 0 ∷ 0 ∷ 0 ∷ 0 ∷ 0 ∷ 0 ∷ 0 ∷ 0 ∷ 0 ∷ 1 ∷ [];
}

abbrev shard_at : ℕ → Shard Trow
shard_at n = record {
  base = n;
  accessed = 0;
  opened = false;
  index = [];
  index_position = 0;
  index_inside = false;
  content = [];
  content_position = 0;
  deleted = 0;
  cache = [];
}

abbrev three : List (Shard Trow)
three = shard_at 100 ∷ shard_at 200 ∷ shard_at 300 ∷ []

three_ascend : ascending 0 three ≡ true
unfolding ascending
three_ascend = refl

find_shard_lem_example :
    find_shard 250 three ≡ (if begun 250 three == 0 then none else some (begun 250 three - 1))
find_shard_lem_example = find_shard_lem 250 three three_ascend

backtrack_covers_example :
    (b : ℕ) × (backtrack_base u32 100 750 1000 ≡ some b) × (b ≤ 750) × (750 < b + 100)
backtrack_covers_example =
    backtrack_covers 3 100 750 1000 (omega arith) (omega arith) (omega arith) (omega arith)
      (omega arith)

backtrack_diverges_example : backtrack_base 1000 (512 * 675) 3 1004 ≡ none
backtrack_diverges_example = backtrack_diverges 1000 675 3 1004 (omega arith) (omega arith)
