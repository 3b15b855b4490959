-- ===== src/Link/Protocol.antt =====
-- core/raddi_protocol.h and core/raddi_protocol.cpp: the exchange of keys when two nodes connect, and
-- the frames in which what they send is encrypted.
-- Keys and nonces are lists of bytes. libsodium and the checksum of lib/cuckoocycle.h are a record of
-- functions. The proof of work, that the code only announces, and the wiping of keys are left out.
pub mod Handshake
pub mod Frames
use raddi.Base.{
  ℕ, zero, suc, ◌+◌, ◌-◌, ◌*◌, ◌/◌, ◌%◌, Bool, true, false, ◌&&◌, not, List, [], ◌∷◌, ◌++◌, Option,
  none, some, length, take, drop, ltb, leb, ◌==◌, if◌then◌else◌, bit_and, bit_or, bit_xor,
}
use raddi.Time.{u64}

-- `aes256gcm_mode`.
pub data Mode : Type 0 where
  disabled : Mode
  automatic : Mode
  forced : Mode
  force_gcm : Mode
  force_aegis : Mode

-- `fast_crypto_aead_aegis256_available` and `fast_crypto_aead_aes256gcm_available`.
pub record Available : Type 0 where
  pub aegis : Bool
  pub gcm : Bool

-- The classes that implement `encryption`.
pub data Cipher : Type 0 where
  aegis256 : Cipher
  aes256gcm : Cipher
  xchacha20poly1305 : Cipher

-- `accept_fail_reason`.
pub data AcceptFailReason : Type 0 where
  succeeded : AcceptFailReason
  checksum : AcceptFailReason
  flags : AcceptFailReason
  time : AcceptFailReason
  aes : AcceptFailReason

pub record Keyset : Type 0 where
  pub inbound_key : List ℕ
  pub outbound_key : List ℕ
  pub inbound_nonce : List ℕ
  pub outbound_nonce : List ℕ

-- `initial::flags::pair`.
pub record Pair : Type 0 where
  pub a : ℕ
  pub b : ℕ

pub record Initial : Type 0 where
  pub keys : Keyset
  pub soft : Pair
  pub hard : Pair
  pub timestamp : ℕ
  pub check : ℕ

-- What the code calls of libsodium, and `cuckoo::hash` of everything in an `initial` but the checksum.
-- The sums of nonces take the number of bytes, and `encrypt` and `decrypt` the key, the nonce, the
-- additional data and the message.
pub record Crypto : Type 0 where
  pub scalarmult_base : List ℕ → List ℕ
  pub scalarmult : List ℕ → List ℕ → List ℕ
  pub generichash : List ℕ → List ℕ
  pub hash : Keyset → Pair → Pair → ℕ → ℕ
  pub beforenm : List ℕ → List ℕ
  pub sodium_add : ℕ → List ℕ → List ℕ → List ℕ
  pub sodium_increment : ℕ → List ℕ → List ℕ
  pub encrypt : Cipher → List ℕ → List ℕ → List ℕ → List ℕ → Option (List ℕ)
  pub decrypt : Cipher → List ℕ → List ℕ → List ℕ → List ℕ → Option (List ℕ)

-- The state of an established link, of any of the three classes.
pub record Encryption : Type 0 where
  pub cipher : Cipher
  pub inbound_key : List ℕ
  pub outbound_key : List ℕ
  pub inbound_nonce : List ℕ
  pub outbound_nonce : List ℕ

abbrev pub frame_overhead : ℕ
frame_overhead = 2 + 16

abbrev pub max_payload : ℕ
max_payload = 65535 - frame_overhead + 2 - 1

abbrev pub max_frame_size : ℕ
max_frame_size = frame_overhead + max_payload

-- `pair::encode` with the random number, and `pair::decode`.
unfoldable pub pair_encode : ℕ → ℕ → Pair
pair_encode random value = record { a = random; b = bit_xor random value }

unfoldable pub pair_decode : Pair → ℕ
pair_decode p = bit_xor p.a p.b

unfoldable pub little_endian : List ℕ → ℕ
little_endian [] = 0
little_endian (x ∷ xs) = x + 256 * little_endian xs

-- The first eight bytes as a `std::uint64_t`.
unfoldable pub word64 : List ℕ → ℕ
unfolding little_endian
word64 bytes = little_endian (take 8 bytes)

-- The preferences that `propose` announces.
unfoldable pub preferences : Mode → Available → ℕ
preferences disabled v = 0
preferences force_gcm v = 1
preferences force_aegis v = 2
preferences m v =
    let with_aegis = if v.aegis then bit_or 0 2 else 0 in
    if v.gcm then bit_or with_aegis 1 else with_aegis

-- `propose`: the secret keys, the two random numbers and the clock are arguments.
unfoldable pub propose : Crypto → Mode → Available → ℕ → ℕ → ℕ → Keyset → Initial
unfolding pair_encode word64 preferences
propose c m v random1 random2 now secret =
    let keys : Keyset = record {
      inbound_key = c.scalarmult_base secret.inbound_key;
      outbound_key = c.scalarmult_base secret.outbound_key;
      inbound_nonce = secret.inbound_nonce;
      outbound_nonce = secret.outbound_nonce;
    } in
    let hard = pair_encode random1 0 in
    let soft = pair_encode random2 (preferences m v) in
    let timestamp = bit_xor now (word64 keys.inbound_key) in
    record {
      keys = keys;
      soft = soft;
      hard = hard;
      timestamp = timestamp;
      check = c.hash keys soft hard timestamp;
    }

-- The modes that refuse a peer without a cipher in hardware, and the cipher for all others.
unfoldable pub fall_back : Mode → Option Cipher
fall_back forced = none
fall_back force_gcm = none
fall_back force_aegis = none
fall_back m = some xchacha20poly1305

unfoldable pub is_force_gcm : Mode → Bool
is_force_gcm force_gcm = true
is_force_gcm m = false

unfoldable pub is_force_aegis : Mode → Bool
is_force_aegis force_aegis = true
is_force_aegis m = false

-- The choice of the cipher in `accept`, from the preferences of the peer.
unfoldable pub choose : Mode → Available → ℕ → Option Cipher
unfolding fall_back is_force_gcm is_force_aegis
choose disabled v soft = some xchacha20poly1305
choose m v soft =
    if not (bit_and soft 2 == 0) && not (is_force_gcm m) && v.aegis
    then some aegis256
    else if not (bit_and soft 1 == 0) && not (is_force_aegis m) && v.gcm
    then some aes256gcm
    else fall_back m

-- The bytes of a nonce that a cipher has room for.
unfoldable pub nonce_size : Cipher → ℕ
nonce_size aegis256 = 32
nonce_size aes256gcm = 12
nonce_size xchacha20poly1305 = 32

-- What becomes of a key in the class of a cipher.
unfoldable pub schedule : Crypto → Cipher → List ℕ → List ℕ
schedule c aegis256 key = key
schedule c aes256gcm key = c.beforenm key
schedule c xchacha20poly1305 key = key

-- The constructors of the three classes.
unfoldable pub establish : Crypto → Cipher → Keyset → Keyset → Encryption
unfolding nonce_size schedule
establish c k local peer = record {
  cipher = k;
  inbound_key = schedule c k local.inbound_key;
  outbound_key = schedule c k local.outbound_key;
  inbound_nonce = c.sodium_add (nonce_size k) local.inbound_nonce peer.outbound_nonce;
  outbound_nonce = c.sodium_add (nonce_size k) local.outbound_nonce peer.inbound_nonce;
}

-- The keys of the link, which replace those of the proposal.
unfoldable pub derive : Crypto → Keyset → Keyset → Keyset
derive c secret peer = record secret {
  inbound_key = c.generichash (c.scalarmult secret.inbound_key peer.outbound_key);
  outbound_key = c.generichash (c.scalarmult secret.outbound_key peer.inbound_key);
}

-- `std::abs` of the difference of two times as `std::int64_t`. That of the least integer, which C++
-- leaves undefined, is 2 ^ 63 here.
unfoldable pub distance : ℕ → ℕ → ℕ
distance x y = let d = (x + (u64 - y)) % u64 in if ltb d 0x8000_0000_0000_0000 then d else u64 - d

-- `accept`: the mode, what is available, the clock, the proposal's keys and the peer's `initial`.
unfoldable pub accept :
    Crypto → Mode → Available → ℕ → Keyset → Initial → Option Encryption × AcceptFailReason
unfolding pair_decode word64 choose establish derive distance
accept c m v now secret peer =
    let keys = derive c secret peer.keys in
    let peertime = bit_xor peer.timestamp (word64 peer.keys.inbound_key) in
    if not (peer.check == c.hash peer.keys peer.soft peer.hard peer.timestamp)
    then (none, checksum)
    else if ltb 180_000_000 (distance peertime now)
    then (none, time)
    else if not (pair_decode peer.hard == 0)
    then (none, flags)
    else elim (choose m v (pair_decode peer.soft)) [
      | none ↦ (none, aes)
      | some k ↦ (some (establish c k keys peer.keys), succeeded)
    ]

-- `encode`, alike in the three classes: the new state, and the frame, which is empty for the answer 0.
unfoldable pub encode : Crypto → Encryption → ℕ → List ℕ → Encryption × List ℕ
unfolding nonce_size
encode c e max payload =
    let size = length payload in
    let size_field = size + 16 in
    let head = (size_field % 256) ∷ (size_field / 256 % 256) ∷ [] in
    let nonce = c.sodium_increment (nonce_size e.cipher) e.outbound_nonce in
    if leb size max_payload && leb (size + frame_overhead) max
    then (
      record e { outbound_nonce = nonce },
      elim (c.encrypt e.cipher e.outbound_key nonce head payload) [
        | none ↦ []
        | some secret ↦ head ++ secret
      ],
    )
    else (e, [])

-- `decode` of a whole frame, alike in the three classes: an empty message is the answer 0.
unfoldable pub decode : Crypto → Encryption → ℕ → List ℕ → Encryption × List ℕ
unfolding nonce_size
decode c e max frame =
    let size = length frame in
    let nonce = c.sodium_increment (nonce_size e.cipher) e.inbound_nonce in
    if leb frame_overhead size && leb (size - frame_overhead) max
    then (
      record e { inbound_nonce = nonce },
      elim (c.decrypt e.cipher e.inbound_key nonce (take 2 frame) (drop 2 frame)) [
        | none ↦ []
        | some message ↦ message
      ],
    )
    else (e, [])
