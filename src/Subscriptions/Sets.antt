-- ===== src/Subscriptions/Sets.antt =====
-- core/raddi_subscription_set.h and core/raddi_subscription_set.cpp: the subscriptions of the
-- applications, a map in the order of their ids, which are numbers of 128 bits. The files that `load` and
-- `flush` exchange, and locks, are not part of the model.
use raddi.Base.{
  ℕ, ◌-◌, Bool, false, ◌||◌, List, [], ◌∷◌, Option, none, some, ltb, ◌==◌, if◌then◌else◌,
}
use raddi.Time.{u64}
use raddi.Id.{Eid}
use raddi.Subscriptions.{Subscriptions, none_yet}
use raddi.Subscriptions as Own

pub record SubscriptionSet : Type 0 where
  pub applications : List (ℕ × Subscriptions)

-- `data [app]`, changed by `f`.
unfoldable pub update :
    (Subscriptions → Subscriptions) → ℕ → List (ℕ × Subscriptions) → List (ℕ × Subscriptions)
update f app [] = (app, f none_yet) ∷ []
update f app ((k, s) ∷ ks) =
    let rest = update f app ks in
    if k == app
    then (k, f s) ∷ ks
    else if ltb app k
    then (app, f none_yet) ∷ (k, s) ∷ ks
    else (k, s) ∷ rest

-- `data.at (app)`.
unfoldable pub at : ℕ → List (ℕ × Subscriptions) → Option Subscriptions
at app [] = none
at app ((k, s) ∷ ks) = if k == app then some s else at app ks

-- `subscribe`; the limit on individual subscriptions is the greatest `std::size_t`.
unfoldable pub subscribe : ℕ → Eid → SubscriptionSet → SubscriptionSet
unfolding update
subscribe app e s = record { applications = update (Own.subscribe (u64 - 1) e) app s.applications }

-- `unsubscribe`: was the application subscribed?
unfoldable pub unsubscribe : ℕ → Eid → SubscriptionSet → SubscriptionSet × Bool
unsubscribe app e s = elim (at app s.applications) [
  | none ↦ (s, false)
  | some subs ↦ (
    record { applications = update (λ x. (Own.unsubscribe e x).0) app s.applications },
    (Own.unsubscribe e subs).1,
  )
]

unfoldable pub any_subscribed : List Eid → List (ℕ × Subscriptions) → Bool
any_subscribed es [] = false
any_subscribed es ((k, s) ∷ ks) = Own.is_subscribed es s || any_subscribed es ks

-- `is_subscribed`.
unfoldable pub is_subscribed : List Eid → SubscriptionSet → Bool
is_subscribed es s = any_subscribed es s.applications
