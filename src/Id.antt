-- ===== src/Id.antt =====
-- core/raddi_iid.h and core/raddi_eid.h: the identifiers of identities and entries.
-- Their text form (core/raddi_iid.cpp, core/raddi_eid.cpp) is in the child modules.
pub mod Order
pub mod Text
pub mod RoundTrip
use raddi.Base.{ℕ, ◌<◌, Bool, ◌&&◌, ◌||◌, not, ltb, ◌==◌}
use raddi.Time.{u32}

pub record Iid : Type 0 where
  pub timestamp : ℕ
  pub nonce : ℕ

pub record Eid : Type 0 where
  pub timestamp : ℕ
  pub identity : Iid

-- The constructor of an `eid` from an `iid`: the entry that announces the identity.
abbrev pub of_iid : Iid → Eid
of_iid id = record { timestamp = id.timestamp; identity = id }

unfoldable pub iid_isnull : Iid → Bool
iid_isnull a = a.timestamp == 0 && a.nonce == 0

unfoldable pub iid_eq : Iid → Iid → Bool
iid_eq a b = a.timestamp == b.timestamp && a.nonce == b.nonce

unfoldable pub iid_lt : Iid → Iid → Bool
iid_lt a b = ltb a.timestamp b.timestamp || (a.timestamp == b.timestamp && ltb a.nonce b.nonce)

unfoldable pub eid_isnull : Eid → Bool
unfolding iid_isnull
eid_isnull a = a.timestamp == 0 && iid_isnull a.identity

unfoldable pub eid_eq : Eid → Eid → Bool
unfolding iid_eq
eid_eq a b = a.timestamp == b.timestamp && iid_eq a.identity b.identity

unfoldable pub eid_lt : Eid → Eid → Bool
unfolding iid_lt
eid_lt a b =
    ltb a.timestamp b.timestamp || (a.timestamp == b.timestamp && iid_lt a.identity b.identity)

-- The fields are `std::uint32_t`.
pub record IsIid (a : Iid) : Type 0 where
  pub timestamp : a.timestamp < u32
  pub nonce : a.nonce < u32

pub record IsEid (a : Eid) : Type 0 where
  pub timestamp : a.timestamp < u32
  pub identity : IsIid a.identity
