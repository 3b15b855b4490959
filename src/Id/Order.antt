-- ===== src/Id/Order.antt =====
-- core/raddi_iid.h and core/raddi_eid.h: the comparison operators as orders.
use raddi.Base.{Bool, true, false, ◌≡◌, ◌↔◌, arith}
use raddi.Id.{Iid, Eid, iid_eq, iid_lt, eid_eq, eid_lt}

-- What the sorted containers need of an order on keys.
pub record IsOrder {ℓ} {A : Type ℓ} (lt : A → A → Bool) (eq : A → A → Bool) : Type ℓ where
  pub eq_iff : (a b : A) → (eq a b ≡ true) ↔ (a ≡ b)
  pub irrefl : (a : A) → lt a a ≡ false
  pub trans : (a b c : A) → lt a b ≡ true → lt b c ≡ true → lt a c ≡ true
  pub total : (a b : A) → lt a b ≡ false → lt b a ≡ false → a ≡ b

iid-eq_iff : (a b : Iid) → (iid_eq a b ≡ true) ↔ (a ≡ b)
unfolding iid_eq
iid-eq_iff a b = ground arith

eid-eq_iff : (a b : Eid) → (eid_eq a b ≡ true) ↔ (a ≡ b)
unfolding eid_eq
eid-eq_iff a b = ground arith

iid_trans : (a b c : Iid) → iid_lt a b ≡ true → iid_lt b c ≡ true → iid_lt a c ≡ true
unfolding iid_lt
iid_trans a b c h k = ground arith

eid_trans : (a b c : Eid) → eid_lt a b ≡ true → eid_lt b c ≡ true → eid_lt a c ≡ true
unfolding eid_lt
eid_trans a b c h k = ground arith

iid_irrefl : (a : Iid) → iid_lt a a ≡ false
unfolding iid_lt
iid_irrefl a = ground arith

eid_irrefl : (a : Eid) → eid_lt a a ≡ false
unfolding eid_lt
eid_irrefl a = ground arith

iid-total : (a b : Iid) → iid_lt a b ≡ false → iid_lt b a ≡ false → a ≡ b
unfolding iid_lt
iid-total a b h k = ground arith

eid-total : (a b : Eid) → eid_lt a b ≡ false → eid_lt b a ≡ false → a ≡ b
unfolding eid_lt
eid-total a b h k = ground arith

-- Identities are ordered strictly and totally: first by time, then by nonce.
pub iid_lt-IsOrder : IsOrder iid_lt iid_eq
iid_lt-IsOrder = record {
  eq_iff = iid-eq_iff;
  irrefl = iid_irrefl;
  trans = iid_trans;
  total = iid-total;
}

-- The order of entry ids is a strict total order that agrees with their equality: irreflexive,
-- transitive, and two ids neither of which is below the other are the same id.
pub eid_lt-IsOrder : IsOrder eid_lt eid_eq
eid_lt-IsOrder = record {
  eq_iff = eid-eq_iff;
  irrefl = eid_irrefl;
  trans = eid_trans;
  total = eid-total;
}
