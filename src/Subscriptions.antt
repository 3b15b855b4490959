-- ===== src/Subscriptions.antt =====
-- core/raddi_subscriptions.h and core/raddi_subscriptions.cpp: the entries that a peer or an
-- application wishes to receive.
-- Locks are not modelled: each operation holds its lock from beginning to end.
pub mod Laws
pub mod Sets
pub mod Concerns
use raddi.Base.{
  ℕ, ◌-◌, Bool, true, false, ◌&&◌, ◌||◌, not, List, [], ◌∷◌, ◌++◌, length, ltb, if◌then◌else◌,
}
use raddi.Id.{Eid, eid_lt, eid_eq}

pub record Subscriptions : Type 0 where
  pub list : List Eid
  pub everything : Bool
  pub changed : Bool

abbrev pub none_yet : Subscriptions
none_yet = record { list = []; everything = false; changed = false }

-- Insertion at `std::lower_bound`.
unfoldable pub insert_sorted : Eid → List Eid → List Eid
insert_sorted e [] = e ∷ []
insert_sorted e (x ∷ xs) = if eid_lt x e then x ∷ insert_sorted e xs else e ∷ x ∷ xs

-- Is the entry at `std::lower_bound` the one that is sought?
unfoldable pub found_at : Eid → List Eid → Bool
found_at e [] = false
found_at e (x ∷ xs) = if eid_lt x e then found_at e xs else eid_eq x e

-- Removal of the entry at `std::lower_bound`.
unfoldable pub erase_at : Eid → List Eid → List Eid
erase_at e [] = []
erase_at e (x ∷ xs) = if eid_lt x e then x ∷ erase_at e xs else xs

unfoldable pub subscribe_to_everything_unsynchronized : Subscriptions → Subscriptions
subscribe_to_everything_unsynchronized s = record { list = []; everything = true; changed = true }

unfoldable pub subscribe_to_everything : Subscriptions → Subscriptions
unfolding subscribe_to_everything_unsynchronized
subscribe_to_everything s = if s.everything then s else subscribe_to_everything_unsynchronized s

unfoldable pub subscribe : ℕ → Eid → Subscriptions → Subscriptions
unfolding subscribe_to_everything_unsynchronized
subscribe max_individual e s =
    if s.everything
    then s
    else if ltb (length s.list) max_individual
    then record s { list = insert_sorted e s.list; changed = true }
    else subscribe_to_everything_unsynchronized s

unfoldable pub unsubscribe : Eid → Subscriptions → Subscriptions × Bool
unsubscribe e s =
    if not s.everything && found_at e s.list
    then (record s { list = erase_at e s.list; changed = true }, true)
    else (s, false)

unfoldable pub any_found : List Eid → List Eid → Bool
any_found [] list = false
any_found (e ∷ es) list = let rest = any_found es list in found_at e list || rest

-- Does the peer wish to receive something that belongs to one of the given entries?
unfoldable pub is_subscribed : List Eid → Subscriptions → Bool
unfolding any_found
is_subscribed es s = s.everything || any_found es s.list
