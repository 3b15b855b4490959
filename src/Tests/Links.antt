-- ===== src/Tests/Links.antt =====
-- core/raddi_protocol.cpp and node/server.cpp at concrete links.
use raddi.Base.{
  ℕ, zero, suc, ◌+◌, true, false, List, [], ◌∷◌, ◌++◌, some, ◌≡◌, refl, inl, inr, ap, arith, drop,
}
use raddi.Link.Protocol.{
  Mode, automatic, disabled, force_aegis, Available, Keyset, Crypto, Encryption, Initial, aegis256,
  accept, propose, succeeded, xchacha20poly1305,
}
use raddi.Link.Protocol.Handshake.{IsCrypto, IsPeered, handshake-IsPeered, handshake_completes}
use raddi.Link.Protocol.Frames.{IsAead}
use raddi.Link.Transmitter.{Net, Transmitter, post, completion}
use raddi.Link.Transmitter.Post.{IsReady}
use raddi.Link.Transmitter.Queue.{
  Event, posted, completed, transmit_all, posted_by, idle, transmit_all_lem, post_overtakes,
}
use raddi.Link.Receiver.Reassembly.{flatten}

abbrev pub total : List ℕ → ℕ
total [] = 0
total (x ∷ xs) = x + total xs

abbrev pub zeros : ℕ → List ℕ → List ℕ
zeros zero rest = rest
zeros (suc n) rest = 0 ∷ zeros n rest

-- Functions that obey what is documented of libsodium's, but keep nothing secret.
abbrev pub plain : Crypto
plain = record {
  scalarmult_base = λ a. total a ∷ zeros 31 [];
  scalarmult = λ a b. (total a + total b) ∷ [];
  generichash = λ a. a;
  hash = λ k s h t. t;
  beforenm = λ a. a;
  sodium_add = λ n a b. (total a + total b) ∷ [];
  sodium_increment = λ n a. suc (total a) ∷ [];
  encrypt = λ k key nonce added m. some (zeros 16 m);
  decrypt = λ k key nonce added m. some (drop 16 m);
}

pub plain-IsCrypto : IsCrypto plain
plain-IsCrypto = record {
  exchange = λ a b. ap (λ n. n ∷ []) (omega arith);
  sodium_add_comm = λ n a b. ap (λ n. n ∷ []) (omega arith);
}

pub plain-IsAead : IsAead plain
plain-IsAead = record { encrypts = λ k key nonce added m. (zeros 16 m, refl, omega arith, refl) }

abbrev pub hardware : Available
hardware = record { aegis = true; gcm = false }

abbrev pub keys_of : ℕ → Keyset
keys_of n = record {
  inbound_key = n ∷ zeros 31 [];
  outbound_key = suc n ∷ zeros 31 [];
  inbound_nonce = n ∷ zeros 31 [];
  outbound_nonce = n ∷ zeros 31 [];
}

abbrev pub offer : ℕ → Initial
offer n = propose plain automatic hardware 77 78 1000 (keys_of n)

abbrev pub link : ℕ → ℕ → Encryption
link n m = record {
  cipher = aegis256;
  inbound_key = (n + suc m) ∷ [];
  outbound_key = (suc n + m) ∷ [];
  inbound_nonce = (n + m) ∷ [];
  outbound_nonce = (n + m) ∷ [];
}

pub offer_accepted :
    accept plain automatic hardware 2000 (keys_of 3) (offer 5) ≡ (some (link 3 5), succeeded)
unfolding accept propose raddi.Link.Protocol.preferences
offer_accepted = refl

pub answer_accepted :
    accept plain automatic hardware 2000 (keys_of 5) (offer 3) ≡ (some (link 5 3), succeeded)
unfolding accept propose raddi.Link.Protocol.preferences
answer_accepted = refl

handshake-IsPeered_example : IsPeered (link 3 5) (link 5 3)
handshake-IsPeered_example =
    handshake-IsPeered plain plain-IsCrypto automatic automatic hardware hardware 1000 1000 2000
      2000 77 78 77 78 (keys_of 3) (keys_of 5) offer_accepted answer_accepted

handshake_completes_example :
    (e1 e2 : Encryption) × (accept plain automatic hardware 2000
        (keys_of 3)
        (propose plain disabled hardware 77 78 5000 (keys_of 5))
      ≡ (some e1, succeeded))
    × (accept plain disabled hardware 5000
          (keys_of 5)
          (propose plain automatic hardware 77 78 2000 (keys_of 3))
        ≡ (some e2, succeeded))
    × IsPeered e1 e2
handshake_completes_example =
    handshake_completes plain plain-IsCrypto automatic disabled hardware hardware 2000 5000 77 78 77
      78 (keys_of 3) (keys_of 5) (inr refl) (inl refl) (omega arith) (omega arith) (omega arith)
      (omega arith)

abbrev pub ready_net : Net
ready_net = record { valid = true; sends = true; receives = true; memory = true }

pub ready_net-IsReady : IsReady ready_net
ready_net-IsReady = record { valid = refl; sends = refl; memory = refl }

abbrev events : List Event
events =
    posted 20 (1 ∷ 2 ∷ []) ∷ posted 19 (3 ∷ []) ∷ completed 2 ∷ posted 1 (4 ∷ []) ∷ completed 1 ∷ []

transmit_all_lem_example :
    (flatten (transmit_all ready_net events idle).wire
        ++ (transmit_all ready_net events idle).awaiting
      ≡ posted_by events)
    × ((transmit_all ready_net events idle).pending ≡ []
        → (transmit_all ready_net events idle).awaiting ≡ [])
transmit_all_lem_example =
    transmit_all_lem ready_net events ready_net-IsReady
      (omega arith, (omega arith, (tt, (omega arith, (tt, tt)))))

-- One buffer is being sent, and one waits.
abbrev busy : Transmitter
busy = record idle { pending = 1 ∷ []; awaiting = 2 ∷ 3 ∷ []; wire = (1 ∷ []) ∷ [] }

abbrev refusing : Net
refusing = record ready_net { sends = false }

post_overtakes_example :
    ((post ready_net 5 (9 ∷ []) (completion refusing true 1 busy)).0.wire
      ≡ busy.wire ++ ((9 ∷ []) ∷ []))
    × ((post ready_net 5 (9 ∷ []) (completion refusing true 1 busy)).0.awaiting ≡ busy.awaiting)
post_overtakes_example =
    post_overtakes refusing ready_net 1 5 (9 ∷ []) busy refl ready_net-IsReady (omega arith)
      (omega arith)
