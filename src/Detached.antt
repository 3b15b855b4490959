-- ===== src/Detached.antt =====
-- core/raddi_detached.h and core/raddi_detached.cpp: the cache of entries that arrived before their
-- parents, a map from the times of the parents to maps from their identities to the entries.
-- The sizes of the map's nodes are arguments.
pub mod Laws
pub mod Reject
use raddi.Base.{
  ℕ, zero, suc, ◌+◌, Bool, true, false, ◌&&◌, ◌||◌, not, List, [], ◌∷◌, ◌++◌, Option, none, some,
  length, ltb, ◌==◌, if◌then◌else◌,
}
use raddi.Time.{sub32}
use raddi.Id.{Iid, Eid, iid_eq, eid_eq, eid_lt}
use raddi.Db.Row.{Entry, size_of}
use raddi.Link.Transmitter.{Counter, count, no_count}

-- An entry that waits, under the identity of its parent's id.
pub record Waiting : Type 0 where
  pub under : Iid
  pub entry : Entry

pub record Group : Type 0 where
  pub timestamp : ℕ
  pub waiting : List Waiting

pub record Detached : Type 0 where
  pub groups : List Group
  pub inserted : Counter
  pub rejected : Counter
  pub processed : Counter
  pub highwater : Counter
  pub highwater_time : ℕ

-- `data [parent.timestamp].emplace (parent.identity, …)`.
unfoldable pub emplace : ℕ → Waiting → List Group → List Group
emplace t w [] = record { timestamp = t; waiting = w ∷ [] } ∷ []
emplace t w (g ∷ gs) =
    let rest = emplace t w gs in
    if g.timestamp == t
    then record g { waiting = g.waiting ++ (w ∷ []) } ∷ gs
    else if ltb t g.timestamp
    then record { timestamp = t; waiting = w ∷ [] } ∷ g ∷ gs
    else g ∷ rest

-- `unsynchronized_size`, with the sizes of a node of the map and of one of the maps in it.
unfoldable pub size_waiting : ℕ → List Waiting → Counter → Counter
unfolding count
size_waiting node [] c = c
size_waiting node (w ∷ ws) c =
    size_waiting node ws (count (record c { bytes = c.bytes + node }) (size_of w.entry))

unfoldable pub unsynchronized_size : ℕ → ℕ → List Group → Counter → Counter
unfolding size_waiting
unsynchronized_size outer node [] c = c
unsynchronized_size outer node (g ∷ gs) c =
    unsynchronized_size outer node gs
      (size_waiting node g.waiting (record c { bytes = c.bytes + outer }))

-- `insert`, at the time `now`.
unfoldable pub insert : ℕ → ℕ → ℕ → Eid → Entry → Detached → Detached
unfolding emplace count unsynchronized_size
insert outer node now parent e d =
    let groups =
      emplace parent.timestamp (record { under = parent.identity; entry = e }) d.groups in
    let u = record d { groups = groups; inserted = count d.inserted (size_of e) } in
    let current = unsynchronized_size outer node groups no_count in
    if ltb d.highwater.number current.number || ltb d.highwater.bytes current.bytes
    then record u { highwater = current; highwater_time = now }
    else u

-- `data.find`.
unfoldable pub find : ℕ → List Group → Option (List Waiting)
find t [] = none
find t (g ∷ gs) = if g.timestamp == t then some g.waiting else find t gs

-- The entries of `equal_range`, and the others.
unfoldable pub range : Iid → List Waiting → List Entry
range i [] = []
range i (w ∷ ws) = let rest = range i ws in if iid_eq w.under i then w.entry ∷ rest else rest

unfoldable pub others : Iid → List Waiting → List Waiting
others i [] = []
others i (w ∷ ws) = let rest = others i ws in if iid_eq w.under i then rest else w ∷ rest

-- The erasure of the range.
unfoldable pub drop_range : Eid → List Group → List Group
unfolding others
drop_range p [] = []
drop_range p (g ∷ gs) =
    let rest = drop_range p gs in
    if g.timestamp == p.timestamp
    then record g { waiting = others p.identity g.waiting } ∷ gs
    else g ∷ rest

-- Insertion into a `std::set` of ids.
unfoldable pub set_insert : Eid → List Eid → List Eid
set_insert e [] = e ∷ []
set_insert e (x ∷ xs) =
    let rest = set_insert e xs in
    if eid_eq x e then x ∷ xs else if eid_lt e x then e ∷ x ∷ xs else x ∷ rest

unfoldable pub parents : List Entry → List Eid → List Eid
unfolding set_insert
parents [] set = set
parents (e ∷ es) set = parents es (set_insert e.parent set)

unfoldable pub count_all : List Entry → Counter → Counter
unfolding count
count_all [] c = c
count_all (e ∷ es) c = count_all es (count c (size_of e))

-- The recursion for each of the ids, with the sum of what it answers.
unfoldable pub each : (Eid → Detached → Detached × ℕ) → List Eid → Detached → Detached × ℕ
each f [] d = (d, 0)
each f (e ∷ es) d = let (u, n) = f e d in let (v, k) = each f es u in (v, n + k)

-- `unsynchronized_recursive_erase`, with the number of iterations that are left.
unfoldable pub recursive_erase : ℕ → Eid → Detached → Detached × ℕ
unfolding find range drop_range parents count_all each
recursive_erase zero p d = (d, 0)
recursive_erase (suc left) p d = elim (find p.timestamp d.groups) [
  | none ↦ (d, 0)
  | some waiting ↦
      let es = range p.identity waiting in
      let above = parents es [] in
      let u = record d { groups = drop_range p d.groups; rejected = count_all es d.rejected } in
      let (v, n) = each (recursive_erase left) above u in (v, length above + n)
]

-- `reject`.
unfoldable pub reject : Eid → Detached → Detached × ℕ
unfolding recursive_erase
reject p d = recursive_erase 2049 p d

-- The calls of the callback in `accept`, whose answers are given: the entries until one is refused.
unfoldable pub call_each : (Entry → Bool) → List Entry → Counter → Counter × Bool
unfolding count
call_each callback [] c = (c, true)
call_each callback (e ∷ es) c =
    let rest = call_each callback es (count c (size_of e)) in
    if callback e then rest else (c, false)

-- `accept`, where there is memory: the entries are removed, and then each is handed over.
unfoldable pub accept : (Entry → Bool) → Eid → Detached → Detached × Bool
unfolding find range drop_range call_each
accept callback p d = elim (find p.timestamp d.groups) [
  | none ↦ (d, true)
  | some waiting ↦
      let (processed, ok) = call_each callback (range p.identity waiting) d.processed in
      (record d { groups = drop_range p d.groups; processed = processed }, ok)
]

-- `clean`: everything below `std::map::lower_bound`.
unfoldable pub clean_groups : ℕ → List Group → List Group
clean_groups limit [] = []
clean_groups limit (g ∷ gs) =
    let rest = clean_groups limit gs in if ltb g.timestamp limit then rest else g ∷ gs

unfoldable pub clean : ℕ → ℕ → Detached → Detached
unfolding clean_groups
clean now age d = record d { groups = clean_groups (sub32 now age) d.groups }
