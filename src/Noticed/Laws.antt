-- ===== src/Noticed/Laws.antt =====
-- The cache of noticed ids as a set of ids.
use raddi.Base.{ℕ, ◌+◌, false, ◌&&◌, ◌||◌, not, List, [], ◌∷◌, ◌==◌, if◌then◌else◌, ◌≡◌, arith}
use raddi.Time.{sub32, older}
use raddi.Id.{Iid, Eid, iid_eq, eid_eq}
use raddi.Noticed.{
  Group, Noticed, holds, insert_group, holds_in, count, insert, clean_groups, clean, size_groups,
  size,
}

holds_in-insert_group :
    (t u : ℕ) (a b : Iid) (gs : List Group)
    → holds_in u b (insert_group t a gs) ≡ ((t == u && iid_eq a b) || holds_in u b gs)
unfolding holds_in insert_group holds iid_eq
holds_in-insert_group t u a b [] = ground arith
holds_in-insert_group t u a b (g ∷ gs) = ground (arith, holds_in-insert_group t u a b gs)

size-insert_group :
    (t : ℕ) (a : Iid) (gs : List Group)
    → holds_in t a gs ≡ false
    → size_groups (insert_group t a gs) ≡ size_groups gs + 1
unfolding holds_in insert_group size_groups
size-insert_group t a [] h = ground arith
size-insert_group t a (g ∷ gs) h = ground (arith, size-insert_group t a gs)

-- `insert` adds exactly the given id: it answers whether the id was new, the size grows by one just
-- then, and `count` holds of the id and of what it held of before.
pub count-insert :
    (e j : Eid) (n : Noticed)
    → ((insert e n).1 ≡ not (count e n))
      × (size (insert e n).0 ≡ (if count e n then size n else size n + 1))
      × (count j (insert e n).0 ≡ (eid_eq e j || count j n))
unfolding insert count size eid_eq iid_eq
count-insert e j n = (
  ground arith,
  ground (arith, size-insert_group e.timestamp e.identity n.groups),
  ground (arith, holds_in-insert_group e.timestamp j.timestamp e.identity j.identity n.groups),
)

holds_in-clean :
    (threshold t : ℕ) (a : Iid) (gs : List Group)
    → holds_in t a (clean_groups threshold gs) ≡ (not (older t threshold) && holds_in t a gs)
unfolding holds_in clean_groups
holds_in-clean threshold t a [] = ground arith
holds_in-clean threshold t a (g ∷ gs) = ground (arith, holds_in-clean threshold t a gs)

-- `clean` keeps exactly the ids whose timestamps are not older than `age` seconds before now.
pub count-clean :
    (now age : ℕ) (e : Eid) (n : Noticed)
    → count e (clean now age n) ≡ (not (older e.timestamp (sub32 now age)) && count e n)
unfolding count clean
count-clean now age e n = holds_in-clean (sub32 now age) e.timestamp e.identity n.groups
