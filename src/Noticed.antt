-- ===== src/Noticed.antt =====
-- core/raddi_noticed.h and core/raddi_noticed.cpp: the cache of entry ids that were seen, as a map
-- from timestamps to sets of identities. Reading and writing its files is not modelled.
pub mod Laws
use raddi.Base.{
  ℕ, ◌+◌, Bool, true, false, ◌&&◌, ◌||◌, not, List, [], ◌∷◌, length, ◌==◌, if◌then◌else◌,
}
use raddi.Time.{sub32, older}
use raddi.Id.{Iid, Eid, iid_eq}

-- One timestamp, and the identities that were seen under it.
pub record Group : Type 0 where
  pub timestamp : ℕ
  pub identities : List Iid

pub record Noticed : Type 0 where
  pub groups : List Group
  pub changed : List ℕ

unfoldable pub holds : Iid → List Iid → Bool
holds a [] = false
holds a (x ∷ xs) = iid_eq x a || holds a xs

-- `data [id.timestamp].insert (id.identity)`: an insertion, if the set does not hold it.
unfoldable pub insert_group : ℕ → Iid → List Group → List Group
unfolding holds
insert_group t a [] = record { timestamp = t; identities = a ∷ [] } ∷ []
insert_group t a (g ∷ gs) =
    if g.timestamp == t
    then (if holds a g.identities then g else record g { identities = a ∷ g.identities }) ∷ gs
    else g ∷ insert_group t a gs

unfoldable pub holds_in : ℕ → Iid → List Group → Bool
unfolding holds
holds_in t a [] = false
holds_in t a (g ∷ gs) = if g.timestamp == t then holds a g.identities else holds_in t a gs

unfoldable pub count : Eid → Noticed → Bool
unfolding holds_in
count e n = holds_in e.timestamp e.identity n.groups

-- `insert`: was the id new?
unfoldable pub insert : Eid → Noticed → Noticed × Bool
unfolding holds_in insert_group
insert e n = if holds_in e.timestamp e.identity n.groups then (n, false) else (
  record {
    groups = insert_group e.timestamp e.identity n.groups;
    changed = e.timestamp ∷ n.changed;
  },
  true,
)

unfoldable pub clean_groups : ℕ → List Group → List Group
clean_groups threshold [] = []
clean_groups threshold (g ∷ gs) =
    let rest = clean_groups threshold gs in if older g.timestamp threshold then rest else g ∷ rest

-- `clean`, at the time `now`.
unfoldable pub clean : ℕ → ℕ → Noticed → Noticed
unfolding clean_groups
clean now age n = record n { groups = clean_groups (sub32 now age) n.groups }

unfoldable pub size_groups : List Group → ℕ
size_groups [] = 0
size_groups (g ∷ gs) = length g.identities + size_groups gs

unfoldable pub size : Noticed → ℕ
unfolding size_groups
size n = size_groups n.groups
