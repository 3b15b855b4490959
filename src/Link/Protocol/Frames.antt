-- ===== src/Link/Protocol/Frames.antt =====
-- core/raddi_protocol.cpp: what the receiver decodes of the frames that the sender encodes.
use raddi.Base.{
  ℕ, ◌+◌, ◌-◌, ◌/◌, ◌%◌, ◌≤◌, true, some, List, [], ◌∷◌, ◌++◌, ◌≡◌, refl, sym, arith, length, leb,
}
use raddi.Link.Protocol.{
  Cipher, Crypto, Encryption, encode, decode, max_payload, frame_overhead, nonce_size,
}

-- What is documented of the functions of libsodium: encryption succeeds, it adds a tag of 16 bytes, and
-- decryption with the same key, nonce and additional data gives the message back.
pub record IsAead (c : Crypto) : Type 0 where
  pub encrypts :
      (k : Cipher) (key nonce added message : List ℕ)
      → (secret : List ℕ) × (c.encrypt k key nonce added message ≡ some secret)
        × (length secret ≡ length message + 16)
        × (c.decrypt k key nonce added secret ≡ some message)

-- The first link sends what the second receives.
pub record IsFacing (a b : Encryption) : Type 0 where
  pub cipher : a.cipher ≡ b.cipher
  pub key : a.outbound_key ≡ b.inbound_key
  pub nonce : a.outbound_nonce ≡ b.inbound_nonce

-- The two bytes of the size.
abbrev pub size_field : ℕ → List ℕ
size_field n = (n % 256) ∷ (n / 256 % 256) ∷ []

-- The sender after a frame, and the receiver.
abbrev pub sent : Crypto → Encryption → Encryption
sent c e = record e { outbound_nonce = c.sodium_increment (nonce_size e.cipher) e.outbound_nonce }

abbrev pub received : Crypto → Encryption → Encryption
received c e = record e { inbound_nonce = c.sodium_increment (nonce_size e.cipher) e.inbound_nonce }

module _ (c : Crypto) where
  pub sent-received-IsFacing :
      (a b : Encryption) → IsFacing a b → IsFacing (sent c a) (received c b)
  sent-received-IsFacing a b f = record {
    cipher = f.cipher;
    key = f.key;
    nonce = rw (f.cipher, f.nonce) refl;
  }

  module _ (laws : IsAead c) where
    pub secret_of : Encryption → List ℕ → List ℕ
    secret_of e m =
        (laws.encrypts e.cipher e.outbound_key
          (c.sodium_increment (nonce_size e.cipher) e.outbound_nonce) (size_field (length m + 16))
          m).0

    pub encode_lem :
        (e : Encryption) (max : ℕ) (m : List ℕ)
        → length m ≤ max_payload
        → length m + 18 ≤ max
        → encode c e max m ≡ (sent c e, size_field (length m + 16) ++ secret_of e m)
    unfolding encode secret_of
    encode_lem e max m p q =
        let fits : leb (length m) max_payload ≡ true = ground arith in
        let room : leb (length m + frame_overhead) max ≡ true = ground arith in
        let ok =
          (laws.encrypts e.cipher e.outbound_key
            (c.sodium_increment (nonce_size e.cipher) e.outbound_nonce) (size_field (length m + 16))
            m).1 in
        rw (fits, room, ok) refl

    pub length-secret_of : (e : Encryption) (m : List ℕ) → length (secret_of e m) ≡ length m + 16
    unfolding secret_of
    length-secret_of e m =
        (laws.encrypts e.cipher e.outbound_key
          (c.sodium_increment (nonce_size e.cipher) e.outbound_nonce) (size_field (length m + 16))
          m).2

    pub decode_lem :
        (a b : Encryption) (max : ℕ) (m : List ℕ)
        → IsFacing a b
        → length m ≤ max
        → decode c b max (size_field (length m + 16) ++ secret_of a m) ≡ (received c b, m)
    unfolding decode secret_of
    decode_lem a b max m f p =
        let long = length-secret_of a m in
        let size : length (size_field (length m + 16) ++ secret_of a m) ≡ length m + 18 =
          omega (arith, long) in
        let whole : leb frame_overhead (length m + 18) ≡ true = ground arith in
        let fits : leb (length m + 18 - frame_overhead) max ≡ true = ground arith in
        let back =
          (laws.encrypts a.cipher a.outbound_key
            (c.sodium_increment (nonce_size a.cipher) a.outbound_nonce) (size_field (length m + 16))
            m).3 in
        let plain : c.decrypt b.cipher b.inbound_key
              (c.sodium_increment (nonce_size b.cipher) b.inbound_nonce)
              (size_field (length m + 16)) (secret_of a m)
            ≡ some m =
          rw (sym f.cipher, sym f.key, sym f.nonce) back in
        rw (size, whole, fits, plain) refl

    -- A frame that is encoded on one end of a link decodes on the other to its message, and the two ends
    -- still face each other, for messages of up to `max_payload` bytes and sufficient buffers.
    pub decode-encode :
        (a b : Encryption) (max1 max2 : ℕ) (m : List ℕ)
        → IsFacing a b
        → length m ≤ max_payload
        → length m + 18 ≤ max1
        → length m ≤ max2
        → ((decode c b max2 (encode c a max1 m).1).1 ≡ m)
          × IsFacing (encode c a max1 m).0 (decode c b max2 (encode c a max1 m).1).0
    decode-encode a b max1 max2 m f p q r =
        rw (encode_lem a max1 m p q, decode_lem a b max2 m f r) (refl, sent-received-IsFacing a b f)
