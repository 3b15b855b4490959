-- ===== src/Link/Protocol/Handshake.antt =====
-- core/raddi_protocol.cpp: two nodes that exchange their proposals.
use raddi.Base.{
  ℕ, ◌+◌, ◌≤◌, ◌<◌, false, Option, none, some, List, ◌≡◌, refl, subst, ap, ◌∙◌, ◌⊎◌, ◌≢◌, arith,
  bit_xor, ltb, ==_self, inl, inr, Option-cases,
}
use raddi.Base.Bits.{bit_xor_cancel, bit_xor_cancel_left}
use raddi.Time.{u64}
use raddi.Link.Protocol.{
  Mode, disabled, automatic, Available, Cipher, AcceptFailReason, succeeded, aes, Keyset, Crypto,
  Encryption, pair_encode, pair_decode, propose, accept, choose, preferences, distance, establish,
  derive, word64, schedule, nonce_size, fall_back, is_force_gcm, is_force_aegis,
}

pair_decode-encode : (r v : ℕ) → pair_decode (pair_encode r v) ≡ v
unfolding pair_decode pair_encode
pair_decode-encode r v = bit_xor_cancel_left r v

-- Two nodes that both find a cipher find the same one.
choose_same :
    (m1 m2 : Mode) (v1 v2 : Available) {k1 k2 : Cipher}
    → choose m1 v1 (preferences m2 v2) ≡ some k1
    → choose m2 v2 (preferences m1 v1) ≡ some k2
    → k1 ≡ k2
unfolding choose preferences fall_back is_force_gcm is_force_aegis
choose_same m1 m2 v1 v2 h1 h2 = ground arith

-- What is documented of the functions: the exchange of Diffie and Hellman, and a sum of nonces.
pub record IsCrypto (c : Crypto) : Type 0 where
  pub exchange :
      (a b : List ℕ) → c.scalarmult a (c.scalarmult_base b) ≡ c.scalarmult b (c.scalarmult_base a)
  pub sodium_add_comm : (n : ℕ) (a b : List ℕ) → c.sodium_add n a b ≡ c.sodium_add n b a

-- Both ends of a link.
pub record IsPeered (x y : Encryption) : Type 0 where
  pub same_cipher : x.cipher ≡ y.cipher
  pub in_key : x.inbound_key ≡ y.outbound_key
  pub out_key : x.outbound_key ≡ y.inbound_key
  pub in_nonce : x.inbound_nonce ≡ y.outbound_nonce
  pub out_nonce : x.outbound_nonce ≡ y.inbound_nonce

abbrev offered : Crypto → Keyset → Keyset
offered c secret = record secret {
  inbound_key = c.scalarmult_base secret.inbound_key;
  outbound_key = c.scalarmult_base secret.outbound_key;
}

-- The link of a node with the given keys to a peer with the others.
link : Crypto → Cipher → Keyset → Keyset → Encryption
link c k secret peer = establish c k (derive c secret (offered c peer)) (offered c peer)

answer : Crypto → Keyset → Keyset → Option Cipher → Option Encryption × AcceptFailReason
answer c secret peer none = (none, aes)
answer c secret peer (some k) = (some (link c k secret peer), succeeded)

distance_skew :
    (x y : ℕ)
    → x < u64
    → y < u64
    → x ≤ y + 180_000_000
    → y ≤ x + 180_000_000
    → distance x y ≤ 180_000_000
unfolding distance
distance_skew x y hx hy p q = ground arith

-- The modes in which a node accepts any cipher.
abbrev pub IsLenient : Mode → Type 0
IsLenient m = (m ≡ disabled) ⊎ (m ≡ automatic)

not_none : (m : Mode) (v : Available) (soft : ℕ) → IsLenient m → choose m v soft ≢ none
unfolding choose fall_back is_force_gcm is_force_aegis
not_none m v soft h e = ground arith

choose_lenient :
    (m : Mode) (v : Available) (soft : ℕ) → IsLenient m → (k : Cipher) × (choose m v soft ≡ some k)
choose_lenient m v soft h = elim (Option-cases (choose m v soft)) [
  | inl e ↦ absurd (not_none m v soft h e)
  | inr r ↦ r
]

module _ (c : Crypto) where
  accept-propose :
      (m1 m2 : Mode) (v1 v2 : Available) (now1 now2 r1 r2 : ℕ) (s1 s2 : Keyset)
      → now1 < u64
      → now2 < u64
      → now1 ≤ now2 + 180_000_000
      → now2 ≤ now1 + 180_000_000
      → accept c m1 v1 now1 s1 (propose c m2 v2 r1 r2 now2 s2)
        ≡ answer c s1 s2 (choose m1 v1 (preferences m2 v2))
  unfolding accept propose answer link
  accept-propose m1 m2 v1 v2 now1 now2 r1 r2 s1 s2 l1 l2 p q =
      let keys = offered c s2 in
      let w = word64 (c.scalarmult_base s2.inbound_key) in
      let t = bit_xor now2 w in
      let check : ℕ = c.hash keys (pair_encode r2 (preferences m2 v2)) (pair_encode r1 0) t in
      let d = distance_skew now2 now1 l2 l1 q p in
      let near : ltb 180_000_000 (distance now2 now1) ≡ false = ground (arith, d) in
      rw
        (
          ==_self check,
          bit_xor_cancel now2 w,
          near,
          pair_decode-encode r1 0,
          pair_decode-encode r2 (preferences m2 v2),
        )
        (elim (choose m1 v1 (preferences m2 v2)) [ none ↦ refl | some k ↦ refl ])

  -- A link that `accept` makes is the one for a cipher that it chooses.
  accept-some :
      (m1 m2 : Mode) (v1 v2 : Available) (now1 now2 r1 r2 : ℕ) (s1 s2 : Keyset) {e : Encryption}
      {f : AcceptFailReason}
      → accept c m1 v1 now1 s1 (propose c m2 v2 r1 r2 now2 s2) ≡ (some e, f)
      → (k : Cipher) × (choose m1 v1 (preferences m2 v2) ≡ some k) × (link c k s1 s2 ≡ e)
  unfolding accept propose link
  accept-some m1 m2 v1 v2 now1 now2 r1 r2 s1 s2 h =
      let soft = pair_decode-encode r2 (preferences m2 v2) in
      elim (Option-cases (choose m1 v1 (preferences m2 v2))) [
        | inl e ↦ ground (arith, soft, e)
        | inr (k, e) ↦ (k, e, ground (arith, soft, e))
      ]

  link-IsPeered :
      IsCrypto c → (k : Cipher) (s1 s2 : Keyset) → IsPeered (link c k s1 s2) (link c k s2 s1)
  unfolding link establish derive
  link-IsPeered laws k s1 s2 = record {
    same_cipher = refl;
    in_key =
        ap (λ x. schedule c k (c.generichash x)) (laws.exchange s1.inbound_key s2.outbound_key);
    out_key =
        ap (λ x. schedule c k (c.generichash x)) (laws.exchange s1.outbound_key s2.inbound_key);
    in_nonce = laws.sodium_add_comm (nonce_size k) s1.inbound_nonce s2.outbound_nonce;
    out_nonce = laws.sodium_add_comm (nonce_size k) s1.outbound_nonce s2.inbound_nonce;
  }

  -- When two nodes accept each other's proposals, whatever their modes, their hardware and their clocks,
  -- and the functions of libsodium obey what `IsCrypto` says, they have the same cipher, and the key and
  -- the nonce that one of them receives with are those that the other sends with.
  pub handshake-IsPeered :
      IsCrypto c
      → (m1 m2 : Mode) (v1 v2 : Available) (sent1 sent2 now1 now2 r1 r2 r3 r4 : ℕ) (s1 s2 : Keyset)
        {e1 e2 : Encryption}
      → accept c m1 v1 now1 s1 (propose c m2 v2 r1 r2 sent2 s2) ≡ (some e1, succeeded)
      → accept c m2 v2 now2 s2 (propose c m1 v1 r3 r4 sent1 s1) ≡ (some e2, succeeded)
      → IsPeered e1 e2
  handshake-IsPeered laws m1 m2 v1 v2 sent1 sent2 now1 now2 r1 r2 r3 r4 s1 s2 {e1 = e1} h1 h2 =
      let (k1, c1, l1) = accept-some m1 m2 v1 v2 now1 sent2 r1 r2 s1 s2 h1 in
      let (k2, c2, l2) = accept-some m2 m1 v2 v1 now2 sent1 r3 r4 s2 s1 h2 in
      let same = ap (λ k. link c k s2 s1) (choose_same m1 m2 v1 v2 c1 c2) ∙ l2 in
      let one = subst (λ e. IsPeered e (link c k1 s2 s1)) l1 (link-IsPeered laws k1 s1 s2) in
      subst (λ e. IsPeered e1 e) same one

  -- Two nodes that are in the modes `disabled` or `automatic`, and whose clocks differ by at most 180
  -- seconds and fit 64 bits, accept each other's proposals, and their links fit each other as the ends of
  -- one, where the functions of libsodium obey what `IsCrypto` says.
  pub handshake_completes :
      IsCrypto c
      → (m1 m2 : Mode) (v1 v2 : Available) (now1 now2 r1 r2 r3 r4 : ℕ) (s1 s2 : Keyset)
      → IsLenient m1
      → IsLenient m2
      → now1 < u64
      → now2 < u64
      → now1 ≤ now2 + 180_000_000
      → now2 ≤ now1 + 180_000_000
      → (e1 e2 : Encryption) × (accept c m1 v1 now1 s1 (propose c m2 v2 r1 r2 now2 s2)
          ≡ (some e1, succeeded))
        × (accept c m2 v2 now2 s2 (propose c m1 v1 r3 r4 now1 s1) ≡ (some e2, succeeded))
        × IsPeered e1 e2
  unfolding answer
  handshake_completes laws m1 m2 v1 v2 now1 now2 r1 r2 r3 r4 s1 s2 n1 n2 l1 l2 p q =
      let (k1, c1) = choose_lenient m1 v1 (preferences m2 v2) n1 in
      let (k2, c2) = choose_lenient m2 v2 (preferences m1 v1) n2 in
      let h1 =
        accept-propose m1 m2 v1 v2 now1 now2 r1 r2 s1 s2 l1 l2 p q ∙ ap (answer c s1 s2) c1 in
      let h2 =
        accept-propose m2 m1 v2 v1 now2 now1 r3 r4 s2 s1 l2 l1 q p ∙ ap (answer c s2 s1) c2 in
      (
        link c k1 s1 s2,
        link c k2 s2 s1,
        h1,
        h2,
        handshake-IsPeered laws m1 m2 v1 v2 now1 now2 now1 now2 r1 r2 r3 r4 s1 s2 h1 h2,
      )
