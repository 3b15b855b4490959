-- ===== src/Subscriptions/Concerns.antt =====
-- core/raddi_subscription_set.cpp and core/raddi_subscriptions.cpp: what `is_subscribed` finds out by
-- binary searches, by going through all the subscriptions.
use raddi.Base.{ℕ, Bool, false, ◌||◌, All, List, [], ◌∷◌, ltb, ◌≡◌, refl, arith}
use raddi.Id.{Eid}
use raddi.Subscriptions.{Subscriptions, any_found, is_subscribed}
use raddi.Subscriptions.Laws.{count, Ascending, found_at_lem}
use raddi.Subscriptions.Sets.{SubscriptionSet, any_subscribed}
use raddi.Subscriptions.Sets as Sets

-- The application receives everything, or has the entry in its list.
unfoldable pub asks_for : Subscriptions → Eid → Bool
asks_for s e = s.everything || ltb 0 (count e s.list)

-- Some application asks for the entry.
unfoldable pub some_asks_for : List (ℕ × Subscriptions) → Eid → Bool
some_asks_for [] e = false
some_asks_for ((k, s) ∷ ks) e = asks_for s e || some_asks_for ks e

-- The lists are ascending.
abbrev pub IsSorted : SubscriptionSet → Type 0
IsSorted s = All (λ a. Ascending a.1.list) s.applications

any_found_lem :
    (a b c d : Eid) (xs : List Eid)
    → Ascending xs
    → any_found (a ∷ b ∷ c ∷ d ∷ []) xs
      ≡ (ltb 0 (count a xs) || (ltb 0 (count b xs) || (ltb 0 (count c xs) || ltb 0 (count d xs))))
unfolding any_found
any_found_lem a b c d xs s =
    ground
      (arith, found_at_lem a xs s, found_at_lem b xs s, found_at_lem c xs s, found_at_lem d xs s)

any_subscribed_lem :
    (a b c d : Eid) (ks : List (ℕ × Subscriptions))
    → All (λ x. Ascending x.1.list) ks
    → any_subscribed (a ∷ b ∷ c ∷ d ∷ []) ks
      ≡ (some_asks_for ks a || (some_asks_for ks b || (some_asks_for ks c || some_asks_for ks d)))
unfolding any_subscribed some_asks_for asks_for is_subscribed
any_subscribed_lem a b c d [] s = refl
any_subscribed_lem a b c d ((k, x) ∷ ks) (p, s) =
    ground (arith, any_found_lem a b c d x.list p, any_subscribed_lem a b c d ks s)

pub is_subscribed_lem :
    (a b c d : Eid) (s : SubscriptionSet)
    → IsSorted s
    → Sets.is_subscribed (a ∷ b ∷ c ∷ d ∷ []) s ≡ (
        some_asks_for s.applications a
        || (some_asks_for s.applications b
            || (some_asks_for s.applications c || some_asks_for s.applications d)))
unfolding Sets.is_subscribed
is_subscribed_lem a b c d s h = any_subscribed_lem a b c d s.applications h
