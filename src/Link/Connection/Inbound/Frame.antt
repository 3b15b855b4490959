-- ===== src/Link/Connection/Inbound/Frame.antt =====
-- core/raddi_connection.cpp and node/server.cpp: how an established connection takes one frame, whole
-- or in parts.
use raddi.Base.{
  ℕ, suc, ◌+◌, ◌*◌, ◌/◌, ◌%◌, ◌≤◌, ◌<◌, true, false, List, [], ◌∷◌, ◌++◌, length, take, take_append,
  length-append, get_or, ltb, leb, ◌==◌, ◌≡◌, refl, sym, subst, ap, ◌∙◌, arith,
}
use raddi.Link.Protocol.{Crypto, Encryption, encode, max_payload}
use raddi.Link.Protocol as Protocol
use raddi.Link.Protocol.Frames.{
  IsAead, IsFacing, size_field, received, secret_of, decode_lem, length-secret_of,
}
use raddi.Link.Transmitter.{post, count}
use raddi.Link.Transmitter.Post.{IsReady, post_ok}
use raddi.Link.Receiver.Reassembly.{IsFrame}
use raddi.Link.Connection.{State, pending, secured, retired, Connection, Node}
use raddi.Link.Connection.Inbound.{handlers, inbound, inbound_secured, inbound_pending, decode}

two_at_least : (tail : List ℕ) → ltb (suc (suc (length tail))) 2 ≡ false
two_at_least tail = ground arith

module _ (node : Node) where
  abbrev pub delivered_to : Connection → Encryption → List ℕ → Connection
  delivered_to c b m = record c {
    state = secured (received node.crypto b);
    messages = count c.messages (length m);
    latest = node.now;
    delivered = c.delivered ++ (m ∷ []);
  }

  field_lem : (n : ℕ) → n < 65536 → n % 256 + 256 * (n / 256 % 256) ≡ n
  field_lem n p = omega arith

  abbrev pub field_of : List ℕ → ℕ
  field_of bytes = get_or bytes 0 0 + 256 * get_or bytes 1 0

  pub secured_lem :
      (b : Encryption) (c : Connection) (bytes : List ℕ)
      → c.state ≡ secured b
      → inbound node bytes c ≡ inbound_secured node bytes b c
  unfolding inbound
  secured_lem b c bytes e =
      ap
        (λ (s : State). elim s [
          | secured e ↦ inbound_secured node bytes e c
          | pending secret ↦ inbound_pending node bytes c
          | retired ↦ (c, true, length bytes)
        ])
        e

  asks_lem :
      (b : Encryption) (c : Connection) (bytes : List ℕ)
      → c.state ≡ secured b
      → (k : ℕ) × (inbound_secured node bytes b c ≡ (c, true, k)) × (length bytes < k) × (k < 65536)
      → (k : ℕ) × (inbound node bytes c ≡ (c, true, k)) × (length bytes < k) × (k < 65536)
  asks_lem b c bytes e (k, h, p, q) = (k, secured_lem b c bytes e ∙ h, p, q)

  takes_whole :
      (bytes : List ℕ) (b : Encryption) (c d : Connection) (k : ℕ)
      → 2 ≤ length bytes
      → field_of bytes ≡ k
      → 0 < k
      → k < 0xFFFF
      → k + 2 ≤ length bytes
      → decode node (take (k + 2) bytes) b c ≡ (d, true)
      → inbound_secured node bytes b c ≡ (d, true, k + 2)
  unfolding inbound_secured
  takes_whole bytes b c d k n e p q r h =
      let long : ltb (length bytes) 2 ≡ false = ground arith in
      let some : (k == 0) ≡ false = ground arith in
      let most : (k == 0xFFFF) ≡ false = ground arith in
      let whole : leb (k + 2) (length bytes) ≡ true = ground arith in
      rw (e, long, some, most, whole, h) refl

  pub asks_whole :
      (bytes : List ℕ) (b : Encryption) (c : Connection) (k : ℕ)
      → 2 ≤ length bytes
      → field_of bytes ≡ k
      → 0 < k
      → k < 0xFFFF
      → length bytes < k + 2
      → inbound_secured node bytes b c ≡ (c, true, k + 2)
  unfolding inbound_secured
  asks_whole bytes b c k n e p q r =
      let long : ltb (length bytes) 2 ≡ false = ground arith in
      let some : (k == 0) ≡ false = ground arith in
      let most : (k == 0xFFFF) ≡ false = ground arith in
      let part : leb (k + 2) (length bytes) ≡ false = ground arith in
      rw (e, long, some, most, part) refl

  decode_taken :
      (bytes m : List ℕ) (b : Encryption) (c : Connection)
      → Protocol.decode node.crypto b max_payload bytes ≡ (received node.crypto b, m)
      → 0 < length m
      → node.accepts m ≡ true
      → decode node bytes b c ≡ (delivered_to c b m, true)
  unfolding decode
  decode_taken bytes m b c e p ok =
      let some : (length m == 0) ≡ false = ground arith in rw (e, some, ok) refl

  module _ (laws : IsAead node.crypto) where
    abbrev pub frame : Encryption → List ℕ → List ℕ
    frame a m = size_field (length m + 16) ++ secret_of node.crypto laws a m

    length-frame : (a : Encryption) (m : List ℕ) → length (frame a m) ≡ length m + 18
    length-frame a m = omega (arith, length-secret_of node.crypto laws a m)

    takes_message :
        (a b : Encryption) (c : Connection) (m tail : List ℕ)
        → IsFacing a b
        → 0 < length m
        → length m < max_payload
        → node.accepts m ≡ true
        → inbound_secured node (frame a m ++ tail) b c
          ≡ (delivered_to c b m, true, length (frame a m))
    takes_message a b c m tail f p q ok =
        let size = length-frame a m in
        let n : length (frame a m ++ tail) ≡ length m + 18 + length tail =
          omega (arith, length-append (frame a m) tail, size) in
        let end : length (frame a m) ≡ length m + 16 + 2 = omega (arith, size) in
        let cut : take (length m + 16 + 2) (frame a m ++ tail) ≡ frame a m =
          subst (λ k. take k (frame a m ++ tail) ≡ frame a m) end (take_append (frame a m) tail) in
        let plain = decode_lem node.crypto laws a b max_payload m f (omega arith) in
        let done =
          subst (λ x. decode node x b c ≡ (delivered_to c b m, true)) (sym cut)
            (decode_taken (frame a m) m b c plain p ok) in
        let whole =
          takes_whole (frame a m ++ tail) b c (delivered_to c b m) (length m + 16) (omega arith)
            (field_lem (length m + 16) (omega arith)) (omega arith) (omega arith) (omega arith)
            done in
        subst (λ k. inbound_secured node (frame a m ++ tail) b c ≡ (delivered_to c b m, true, k))
          (sym end) whole

    asks_message :
        (a b : Encryption) (c : Connection) (m part tail : List ℕ)
        → 0 < length m
        → length m < max_payload
        → frame a m ≡ part ++ tail
        → 0 < length part
        → 0 < length tail
        → (k : ℕ) × (inbound_secured node part b c ≡ (c, true, k)) × (length part < k) × (k < 65536)
    unfolding inbound_secured
    asks_message a b c m [] tail p q e r t = absurd (omega arith)
    asks_message a b c m (x ∷ []) tail p q e r t = (2, refl, omega arith, omega arith)
    asks_message a b c m (x ∷ y ∷ part) tail p q e r t =
        let low : (length m + 16) % 256 ≡ x = cc in
        let high : (length m + 16) / 256 % 256 ≡ y = cc in
        let n = ap length e in
        let size = length-frame a m in
        let parts = length-append (x ∷ y ∷ part) tail in
        let field : x + 256 * y ≡ length m + 16 = omega (arith, low, high) in
        let short : length (x ∷ y ∷ part) < length m + 16 + 2 = omega (arith, n, size, parts) in
        (
          length m + 16 + 2,
          asks_whole (x ∷ y ∷ part) b c (length m + 16) (omega arith) field (omega arith)
              (omega arith) short,
          short,
          omega arith,
        )

    pub message-IsFrame :
        (a b : Encryption) (c : Connection) (m : List ℕ)
        → IsFacing a b
        → (0 < length m) × (length m < max_payload) × (node.accepts m ≡ true)
        → c.state ≡ secured b
        → IsFrame (handlers node) c (frame a m) (delivered_to c b m)
    message-IsFrame a b c m f (p, q, ok) e = record {
      nonempty = omega (arith, length-frame a m);
      takes = λ tail. secured_lem b c (frame a m ++ tail) e ∙ takes_message a b c m tail f p q ok;
      asks = λ part tail g r t. asks_lem b c part e (asks_message a b c m part tail p q g r t);
    }

    abbrev pub counted : Connection → Connection
    counted c = record c {
      keepalives = count c.keepalives 2;
      transmitter = (post node.net 2 (255 ∷ 255 ∷ []) c.transmitter).0;
    }

    asks_token :
        (x : ℕ) (b : Encryption) (c : Connection) (part tail : List ℕ)
        → (x ∷ x ∷ []) ≡ part ++ tail
        → 0 < length part
        → 0 < length tail
        → (k : ℕ) × (inbound_secured node part b c ≡ (c, true, k)) × (length part < k) × (k < 65536)
    unfolding inbound_secured
    asks_token x b c [] tail e r t = absurd (omega arith)
    asks_token x b c (y ∷ []) tail e r t = (2, refl, omega arith, omega arith)
    asks_token x b c (y ∷ z ∷ part) tail e r t =
        let n = ap length e in
        let parts = length-append (y ∷ z ∷ part) tail in absurd (omega (arith, n, parts))

    pub query-IsFrame :
        (b : Encryption) (c : Connection)
        → IsReady node.net
        → c.state ≡ secured b
        → IsFrame (handlers node) c (0 ∷ 0 ∷ []) (counted c)
    unfolding inbound_secured
    query-IsFrame b c ready e =
        let ok = post_ok node.net 2 (255 ∷ 255 ∷ []) c.transmitter ready in
        record {
          nonempty = omega arith;
          takes = λ tail. secured_lem b c (0 ∷ 0 ∷ tail) e ∙ rw (two_at_least tail, ok) refl;
          asks = λ part tail g r t. asks_lem b c part e (asks_token 0 b c part tail g r t);
        }

    pub reply-IsFrame :
        (b : Encryption) (c : Connection)
        → c.state ≡ secured b
        → IsFrame (handlers node) c (255 ∷ 255 ∷ []) (record c { latest = node.now })
    unfolding inbound_secured
    reply-IsFrame b c e = record {
      nonempty = omega arith;
      takes = λ tail. secured_lem b c (255 ∷ 255 ∷ tail) e ∙ rw (two_at_least tail) refl;
      asks = λ part tail g r t. asks_lem b c part e (asks_token 255 b c part tail g r t);
    }
