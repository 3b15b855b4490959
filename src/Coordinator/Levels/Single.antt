-- ===== src/Coordinator/Levels/Single.antt =====
-- core/raddi_coordinator.cpp: no address stands on two levels, through the operations on the levels.
use raddi.Base.{
  ltb, ℕ, ◌≤◌, Bool, true, false, List, some, ◌≡◌, refl, arith, inl, inr, Option-cases, Bool-cases,
  sym, ◌∙◌, ◌⊎◌, ◌==◌, subst,
}
use raddi.Address.{Address}
use raddi.Address.Strict.{IsProper, address-total}
use raddi.Peers.{Peers, count, find, insert, adjust, ℤ}
use raddi.Peers.Ordered.{IsOrdered}
use raddi.Peers.Frame.{
  differ, insert-IsOrdered, adjust-IsOrdered, find-insert_other, find-adjust_other,
}
use raddi.Coordinator.Levels.{
  Level, blacklisted_nodes, Network, Contact, peers, with_peers, level_of, rank, relevel, erase_at,
  move, ban, add, new_record_assessment, lifted,
}
use raddi.Coordinator.Levels.Known.{
  IsKept, kept_at, with_peers-IsKept, standing, standing_le, level_of-standing, erase_at_lem,
  withdraw_lem, standing_bound,
}
use raddi.Coordinator.Levels.Moves.{
  move-banned, find-insert_new, move_inserts, moved, standing-at, standing-insert, standing_rewired,
  rewired-IsKept,
}

-- Every level is in order and no proper address stands on two.
pub record IsSingle (n : Network) : Type 0 where
  pub kept : IsKept n
  pub once : (b : Address) → IsProper b → standing b n ≤ 1

lowered-IsSingle :
    (l : Level) (p : Peers) (n : Network)
    → IsOrdered p.addresses
    → ((b : Address) → count b p ≡ true → count b (peers l n) ≡ true)
    → IsSingle n
    → IsSingle (with_peers l p n)
lowered-IsSingle l p n o h i = record {
  kept = with_peers-IsKept l p n o i.kept;
  once = λ b w. omega (arith, standing_le l b p n (h b), i.once b w);
}

count-adjust :
    (a b : Address) (adj : ℤ) (p : Peers) → count b (adjust a adj p).0 ≡ true → count b p ≡ true
unfolding count
count-adjust a b adj p h = elim (Option-cases (find b p.addresses)) [
  | inl g ↦ ground (arith, h, find-adjust_other a b adj p g)
  | inr (v, g) ↦ ground (arith, g)
]

pub adjusted-IsSingle :
    (l : Level) (a : Address) (adj : ℤ) (n : Network)
    → IsSingle n
    → IsSingle (with_peers l (adjust a adj (peers l n)).0 n)
adjusted-IsSingle l a adj n i =
    lowered-IsSingle l (adjust a adj (peers l n)).0 n
      (adjust-IsOrdered a adj (peers l n) (kept_at l n i.kept))
      (λ b. count-adjust a b adj (peers l n)) i

count-insert_other :
    (a b : Address) (s : ℕ) (p : Peers) → differ a b ≡ true → count b (insert a s p) ≡ count b p
unfolding count
count-insert_other a b s p d = rw (find-insert_other a b s p d, count) refl

same_or_differ : (a b : Address) → IsProper a → IsProper b → (a ≡ b) ⊎ (differ a b ≡ true)
same_or_differ a b v w = elim (Bool-cases (differ a b)) [
  | inl d ↦ inr d
  | inr d ↦ inl (address-total a b v w (ground (arith, d)) (ground (arith, d)))
]

inserted_once :
    (a b : Address) (l : Level) (s : ℕ) (n : Network)
    → IsProper a
    → IsProper b
    → standing a n ≡ 0
    → standing b n ≤ 1
    → standing b (with_peers l (insert a s (peers l n)) n) ≤ 1
inserted_once a b l s n v w z h =
    let there = (find-insert_new a s (peers l n) (standing-at a l n z)).1 in
    let one = standing-insert a l (insert a s (peers l n)) n z there in
    elim (same_or_differ a b v w) [
      | inl e ↦
          subst (λ x. standing x (with_peers l (insert a s (peers l n)) n) ≤ 1) e
            (omega (arith, one))
      | inr d ↦
          let same = count-insert_other a b s (peers l n) d in
          omega (arith, standing_le l b (insert a s (peers l n)) n (λ c. sym same ∙ c), h)
    ]

pub inserted-IsSingle :
    (a : Address) (l : Level) (s : ℕ) (n : Network)
    → IsProper a
    → standing a n ≡ 0
    → IsSingle n
    → IsSingle (with_peers l (insert a s (peers l n)) n)
inserted-IsSingle a l s n w z i = record {
  kept =
      with_peers-IsKept l (insert a s (peers l n)) n
        (insert-IsOrdered a s (peers l n) w (kept_at l n i.kept)) i.kept;
  once = λ b v. inserted_once a b l s n w v z (i.once b v);
}

pub rewired-IsSingle :
    (n : Network) (cs : List Contact) → IsSingle n → IsSingle (record n { connections = cs })
rewired-IsSingle n cs i = record {
  kept = rewired-IsKept n cs i.kept;
  once = λ b w. rw (standing_rewired b n cs) (i.once b w);
}

moved-IsSingle :
    (a : Address) (l : Level) (s : ℕ) (adjust : Bool) (m : Network)
    → IsProper a
    → standing a m ≡ 0
    → IsSingle m
    → IsSingle (moved a l s adjust m)
moved-IsSingle a l s true m w z i =
    rewired-IsSingle (with_peers l (insert a s (peers l m)) m) (relevel a l m.connections)
      (inserted-IsSingle a l s m w z i)
moved-IsSingle a l s false m w z i = inserted-IsSingle a l s m w z i

pub move-IsSingle :
    (a : Address) (l : Level) (s : ℕ) (adjust : Bool) (n : Network)
    → IsProper a
    → IsSingle n
    → (m : Network) × (b : Bool) × (move a l s adjust n ≡ some (m, b)) × IsSingle m
move-IsSingle a l s adjust n w i = elim (Bool-cases (count a n.blacklisted)) [
  | inl h ↦ (n, false, move-banned a l s adjust n h, i)
  | inr h ↦
      let (m, ends, clear, kept, same, others) =
        withdraw_lem 6 a n w i.kept (omega (arith, standing_bound a n)) h in
      let single : IsSingle m = record {
        kept = kept;
        once = λ b v. omega (arith, others b v, i.once b v);
      } in
      (
        moved a l s adjust m,
        true,
        move_inserts a l s adjust n m ends,
        moved-IsSingle a l s adjust m w clear single,
      )
]

pub erase_at-IsSingle :
    (l : Level) (a : Address) (n : Network)
    → IsProper a
    → IsSingle n
    → (m : Network) × (erase_at l a n ≡ some m) × IsSingle m
erase_at-IsSingle l a n w i =
    let (p, ends, gone, order, less) = erase_at_lem l a n w i.kept in
    (
      with_peers l p n,
      ends,
      record {
        kept = with_peers-IsKept l p n order i.kept;
        once = λ b v. omega (arith, less b v, i.once b v);
      },
    )

pub ban-IsSingle :
    (now : ℕ) (a : Address) (days : ℕ) (n : Network)
    → IsProper a
    → IsSingle n
    → (m : Network) × (ban now a days n ≡ some m) × IsSingle m
unfolding ban
ban-IsSingle now a days n w i = elim (Bool-cases (days == 0)) [
  | inl z ↦
      let (m, ends, single) = erase_at-IsSingle blacklisted_nodes a n w i in
      (m, rw (z, ends, ban) refl, single)
  | inr z ↦
      let (m, b, ends, single) = move-IsSingle a blacklisted_nodes (lifted now days) true n w i in
      (m, rw (z, ends, ban) refl, single)
]

pub add-IsSingle :
    (l : Level) (a : Address) (n : Network)
    → IsProper a
    → IsSingle n
    → (m : Network) × (add l a n ≡ some m) × IsSingle m
unfolding add
add-IsSingle l a n w i = elim (Option-cases (level_of a n)) [
  | inl e ↦ (
    with_peers l (insert a new_record_assessment (peers l n)) n,
    rw (e, add) refl,
    inserted-IsSingle a l new_record_assessment n w (level_of-standing a n e) i,
  )
  | inr (previous, e) ↦ elim (Bool-cases (ltb (rank l) (rank previous))) [
    | inl h ↦
        let (m, b, ends, single) = move-IsSingle a l new_record_assessment true n w i in
        (m, rw (e, add) (rw h (rw ends refl)), single)
    | inr h ↦ (n, rw (e, add) (rw h refl), i)
  ]
]

pub woken-IsSingle :
    (n : Network) (b : Bool)
    → IsSingle n
    → IsSingle (record n { connect_one_more_announced_node = b })
unfolding standing
woken-IsSingle n b i = record {
  kept = record {
    core = i.kept.core;
    established = i.kept.established;
    validated = i.kept.validated;
    announced = i.kept.announced;
    blacklisted = i.kept.blacklisted;
  };
  once = i.once;
}
