-- ===== src/Detached/Reject.antt =====
-- core/raddi_detached.h and core/raddi_detached.cpp: what a rejected entry takes along.
use raddi.Base.{
  ℕ, zero, suc, ◌+◌, Bool, true, false, All, List, [], ◌∷◌, none, some, length, if◌then◌else◌, ◌≡◌,
  inl, inr, refl, sym, ap, ◌∙◌, arith, Bool-cases, Option-cases,
}
use raddi.Id.{Iid, Eid, iid_eq, eid_eq, eid_lt}
use raddi.Db.Row.{Entry}
use raddi.Detached.{
  Waiting, Detached, find, range, drop_range, set_insert, parents, each, count_all, recursive_erase,
  reject,
}
use raddi.Detached.Laws.{waits, waits-drop_range, waits_equal, waits_found, waits-none}

if_twice :
    (b : Bool) (xs : List Entry)
    → (if b then [] else (if b then [] else xs)) ≡ (if b then [] else xs)
if_twice true xs = refl
if_twice false xs = refl

-- The entries wait for their own parents.
unfoldable pub IsFiled : Detached → Type 0
IsFiled d = (p : Eid) → All (λ e. e.parent ≡ p) (waits p d.groups)

abbrev pub is_nil : List Entry → Bool
is_nil [] = true
is_nil (e ∷ es) = false

eid_eq_self : (e : Eid) → eid_eq e e ≡ true
unfolding eid_eq raddi.Id.iid_eq
eid_eq_self e = ground arith

-- The set of the parents of entries that all have the same one.
parents_same :
    (p : Eid) (es : List Entry) (set : List Eid)
    → All (λ e. e.parent ≡ p) es
    → set ≡ p ∷ []
    → parents es set ≡ p ∷ []
unfolding parents set_insert
parents_same p [] set a h = h
parents_same p (e ∷ es) set (q, a) h = parents_same p es _ a (rw (q, h, eid_eq_self p) refl)

parents_lem :
    (p : Eid) (es : List Entry)
    → All (λ e. e.parent ≡ p) es
    → parents es [] ≡ (if is_nil es then [] else p ∷ [])
unfolding parents set_insert
parents_lem p [] a = refl
parents_lem p (e ∷ es) (q, a) = parents_same p es (e.parent ∷ []) a (ap (λ x. x ∷ []) q)

-- One level of the recursion, where the time of the parent is in the map.
erase_found :
    (left : ℕ) (p : Eid) (d : Detached) (ws : List Waiting)
    → find p.timestamp d.groups ≡ some ws
    → recursive_erase (suc left) p d ≡ (
      (each (recursive_erase left) (parents (range p.identity ws) []) (record d {
        groups = drop_range p d.groups;
        rejected = count_all (range p.identity ws) d.rejected;
      })).0,
      length (parents (range p.identity ws) [])
          + (each (recursive_erase left) (parents (range p.identity ws) []) (record d {
            groups = drop_range p d.groups;
            rejected = count_all (range p.identity ws) d.rejected;
          })).1,
    )
unfolding recursive_erase
erase_found left p d ws e = ground arith

erase_lost :
    (left : ℕ) (p : Eid) (d : Detached)
    → find p.timestamp d.groups ≡ none
    → recursive_erase (suc left) p d ≡ (d, 0)
unfolding recursive_erase
erase_lost left p d e = ground arith

erase_zero :
    (p q : Eid) (d : Detached)
    → waits p d.groups ≡ []
    → waits q (recursive_erase 0 p d).0.groups ≡ (if eid_eq p q then [] else waits q d.groups)
unfolding recursive_erase
erase_zero p q d h = waits_equal p q d.groups h

erase_zero_count : (p : Eid) (d : Detached) → (recursive_erase 0 p d).1 ≡ 0
unfolding recursive_erase
erase_zero_count p d = refl

-- The range is empty, or the recursion runs for its only parent.
erase_empty :
    (left : ℕ) (p : Eid) (d : Detached) (ws : List Waiting)
    → find p.timestamp d.groups ≡ some ws
    → range p.identity ws ≡ []
    → recursive_erase (suc left) p d ≡ (record d { groups = drop_range p d.groups }, 0)
unfolding parents each count_all
erase_empty left p d ws e r = erase_found left p d ws e ∙ rw (r) refl

erase_some :
    (left : ℕ) (p : Eid) (d : Detached) (ws : List Waiting) (es : List Entry)
    → find p.timestamp d.groups ≡ some ws
    → range p.identity ws ≡ es
    → parents es [] ≡ p ∷ []
    → (u : Detached) × (u.groups ≡ drop_range p d.groups)
      × (recursive_erase (suc left) p d
          ≡ ((recursive_erase left p u).0, 1 + ((recursive_erase left p u).1 + 0)))
unfolding each
erase_some left p d ws es e r g =
    let u = record d { groups = drop_range p d.groups; rejected = count_all es d.rejected } in
    (u, refl, erase_found left p d ws e ∙ rw (r, g) refl)

-- An erasure where nothing waits removes nothing.
erase_again :
    (left : ℕ) (p q : Eid) (d : Detached)
    → waits p d.groups ≡ []
    → (waits q (recursive_erase left p d).0.groups ≡ (if eid_eq p q then [] else waits q d.groups))
      × ((recursive_erase left p d).1 ≡ 0)
erase_again zero p q d h = (erase_zero p q d h, erase_zero_count p d)
erase_again (suc left) p q d h = elim (Option-cases (find p.timestamp d.groups)) [
  | inl e ↦ rw (erase_lost left p d e) (waits_equal p q d.groups h, refl)
  | inr (ws, e) ↦
      let none = sym (waits_found p d.groups ws e) ∙ h in
      let gone = waits-drop_range p q d.groups in rw (erase_empty left p d ws e none) (gone, refl)
]

is_nil_lem : (es : List Entry) → is_nil es ≡ true → es ≡ []
is_nil_lem [] h = refl
is_nil_lem (e ∷ es) h = absurd cc

erase_lem :
    (left : ℕ) (p q : Eid) (d : Detached)
    → All (λ e. e.parent ≡ p) (waits p d.groups)
    → (waits q (recursive_erase (suc left) p d).0.groups
        ≡ (if eid_eq p q then [] else waits q d.groups))
      × ((recursive_erase (suc left) p d).1 ≡ (if is_nil (waits p d.groups) then 0 else 1))
erase_lem left p q d a = elim (Option-cases (find p.timestamp d.groups)) [
  | inl e ↦
      let empty = waits-none p d.groups e in
      rw (erase_lost left p d e)
        (waits_equal p q d.groups empty, ap (λ es. if is_nil es then 0 else 1) (sym empty))
  | inr (ws, e) ↦
      let same = waits_found p d.groups ws e in
      elim (Bool-cases (is_nil (waits p d.groups))) [
        | inl n ↦
            let empty = is_nil_lem (waits p d.groups) n in
            rw (erase_empty left p d ws e (sym same ∙ empty), n)
              (waits-drop_range p q d.groups, refl)
        | inr n ↦
            let one = parents_lem p (waits p d.groups) a ∙ ap (λ b. if b then [] else p ∷ []) n in
            let (u, g, step) = erase_some left p d ws (waits p d.groups) e (sym same) one in
            let gone =
              ap (waits p) g
              ∙ waits-drop_range p p d.groups
              ∙ ap (λ b. if b then [] else waits p d.groups) (eid_eq_self p) in
            let (inner, zeroed) = erase_again left p q u gone in
            let rest = ap (waits q) g ∙ waits-drop_range p q d.groups in
            rw (step, n, zeroed)
              (
                inner
                    ∙ ap (λ x. if eid_eq p q then [] else x) rest
                    ∙ if_twice (eid_eq p q) (waits q d.groups),
                refl,
              )
      ]
]

-- `reject` of an entry, in a cache whose entries wait for their own parents, removes the entries that
-- wait for it and no others, also not those that wait for the removed ones, and answers 1 if it has
-- removed any, however many, and 0 otherwise.
pub reject_lem :
    (p q : Eid) (d : Detached)
    → IsFiled d
    → (waits q (reject p d).0.groups ≡ (if eid_eq p q then [] else waits q d.groups))
      × ((reject p d).1 ≡ (if is_nil (waits p d.groups) then 0 else 1))
unfolding reject IsFiled
reject_lem p q d f = erase_lem 2048 p q d (f p)
