-- ===== src/Id/RoundTrip.antt =====
-- core/raddi_iid.cpp and core/raddi_eid.cpp: the text form of an identifier, printed and parsed.
use mathlib.Core.List.{append_assoc}
use raddi.Base.{
  ℕ, ◌+◌, ◌≤◌, ◌<◌, ◌≡◌, refl, ap, some, List, ◌∷◌, ◌++◌, length, length-append, drop, drop_append,
  arith, ◌⊎◌, inl, inr,
}
use raddi.Time.{u32, add32, sub32}
use raddi.Id.{Iid, Eid, IsIid, IsEid}
use raddi.Id.Text.{
  hex, hex_pad, scan_hex, scan_space, scan_char, skip_space, hex_value, store, iid_serialize,
  iid_parse, eid_serialize, eid_parse,
}
use raddi.Id.Text.Digits.{
  Stops, Starts, StartsNoPrefix, Spells-Starts, Spells-StartsNoPrefix, tail-StartsNoPrefix,
  skip_space-Starts, scan_hex-Spells, hex_pad-Spells_eight, hex-Spells_eight, length-hex_pad,
  length-hex,
}

-- The text of an identity: its nonce and its time, eight digits each.
abbrev pub iid_text : Iid → List ℕ
iid_text a = hex_pad 8 a.nonce ++ hex_pad 8 a.timestamp

pub length-iid_text : (a : Iid) → length (iid_text a) ≡ 16
length-iid_text a = omega (
  arith,
  length-append (hex_pad 8 a.nonce) (hex_pad 8 a.timestamp),
  length-hex_pad 8 a.nonce,
  length-hex_pad 8 a.timestamp,
)

pub iid_serialize_lem : (a : Iid) (size : ℕ) → 16 < size → iid_serialize a size ≡ some (iid_text a)
unfolding iid_serialize
iid_serialize_lem a size h = ground (arith, length-iid_text a)

pub scan_pad :
    (v w n used : ℕ) (rest : List ℕ)
    → v < u32
    → ((8 ≡ w) × StartsNoPrefix rest) ⊎ ((8 ≤ w) × Stops rest)
    → used ≡ n + 8
    → scan_hex w (record { rest = hex_pad 8 v ++ rest; used = n })
      ≡ some (v, record { rest = rest; used = used })
scan_pad v w n used rest h c e = rw e (
    rw (length-hex_pad 8 v) at
      (scan_hex-Spells w n rest (hex_pad-Spells_eight v h) (rw (length-hex_pad 8 v) c)))

scan_space_lem :
    {cs : List ℕ} (n : ℕ)
    → Starts cs
    → scan_space (record { rest = cs; used = n }) ≡ record { rest = cs; used = n }
unfolding scan_space
scan_space_lem n s = skip_space-Starts n s

module _ (wide : ℕ → ℕ) where
  store_lem : (v : ℕ) → v < u32 → store wide v ≡ v
  store_lem v h = ground arith

  -- An identity's text, with whatever stops a number behind it, reads back as the identity.
  iid_parse-text :
      (a : Iid) (rest : List ℕ)
      → IsIid a
      → Stops rest
      → iid_parse wide (iid_text a ++ rest) ≡ some (a, 16)
  unfolding iid_parse
  iid_parse-text a rest v s =
      let back = hex_pad 8 a.timestamp ++ rest in
      let string = hex_pad 8 a.nonce ++ back in
      let nonce = hex_pad-Spells_eight a.nonce v.nonce in
      let second = tail-StartsNoPrefix rest (hex_pad-Spells_eight a.timestamp v.timestamp) in
      let long : 8 ≤ length string =
        omega (arith, length-append (hex_pad 8 a.nonce) back, length-hex_pad 8 a.nonce) in
      rw (
        append_assoc,
        scan_space_lem 0 (Spells-StartsNoPrefix back nonce second),
        scan_pad a.nonce 8 0 8 back v.nonce (inl (refl, second)) (omega arith),
        scan_pad a.timestamp (length string) 8 16 rest v.timestamp (inr (long, s)) (omega arith),
        store_lem a.nonce v.nonce,
        store_lem a.timestamp v.timestamp,
      )

-- The seconds from an identity's creation to its entry.
abbrev pub offset : Eid → ℕ
offset e = sub32 e.timestamp e.identity.timestamp

-- The text of an entry id: its identity's, a dash, and the seconds from the identity's creation.
abbrev pub eid_text : Eid → List ℕ
eid_text e = iid_text e.identity ++ (b'-' ∷ hex 7 (offset e))

length-eid_text : (e : Eid) → length (eid_text e) ≡ 17 + length (hex 7 (offset e))
length-eid_text e = omega (
  arith,
  length-append (iid_text e.identity) (b'-' ∷ hex 7 (offset e)),
  length-iid_text e.identity,
)

offset_back : (e : Eid) → IsEid e → add32 (offset e) e.identity.timestamp ≡ e.timestamp
offset_back e v = omega arith

eid_serialize_lem : (e : Eid) (size : ℕ) → 26 ≤ size → eid_serialize e size ≡ some (eid_text e)
unfolding eid_serialize
eid_serialize_lem e size h =
    rw (iid_serialize_lem e.identity size (omega arith))
      (ground (arith, length-hex 7 (offset e), length-iid_text e.identity))

dash-Stops : (rest : List ℕ) → Stops (b'-' ∷ rest)
unfolding hex_value
dash-Stops rest = (refl, (λ e. cc), (λ e. cc))

scan_offset :
    (e : Eid) (rest : List ℕ)
    → Stops rest
    → scan_hex 8 (scan_space (record { rest = hex 7 (offset e) ++ rest; used = 1 }))
      ≡ some (offset e, record { rest = rest; used = 1 + length (hex 7 (offset e)) })
scan_offset e rest s =
    let p = hex-Spells_eight (offset e) (omega arith) in
    rw (scan_space_lem 1 (Spells-Starts rest p s))
      (scan_hex-Spells 8 1 rest p (inr (omega (arith, length-hex 7 (offset e)), s)))

-- The rest of the string after the identity, up to the dash.
scan_dash :
    (rest : List ℕ)
    → scan_space (record { rest = b'-' ∷ rest; used = 0 }) ≡ record { rest = b'-' ∷ rest; used = 0 }
unfolding scan_space skip_space
scan_dash rest = refl

drop_text : (a : Iid) (rest : List ℕ) → drop 16 (iid_text a ++ rest) ≡ rest
drop_text a rest = rw (← length-iid_text a) (drop_append (iid_text a) rest)

eid_parse-text :
    (wide : ℕ → ℕ) (e : Eid) (rest : List ℕ)
    → IsEid e
    → Stops rest
    → eid_parse wide (eid_text e ++ rest) ≡ some (e, length (eid_text e))
unfolding eid_parse scan_char
eid_parse-text wide e rest v s =
    let back = b'-' ∷ (hex 7 (offset e) ++ rest) in
    rw
      (
        append_assoc,
        iid_parse-text wide e.identity back v.identity (dash-Stops (hex 7 (offset e) ++ rest)),
        drop_text e.identity back,
        scan_dash (hex 7 (offset e) ++ rest),
        scan_offset e rest s,
        store_lem wide (offset e) (omega arith),
        offset_back e v,
        length-eid_text e,
      )
      (ap (λ n. some (e, n)) (omega arith))

-- In a buffer of 26 characters `eid::serialize` prints every entry id, and `eid::parse` reads the
-- text back as the same id and counts all its characters, whatever follows that stops a number.
pub eid_parse-serialize :
    (wide : ℕ → ℕ) (e : Eid) (size : ℕ) (rest : List ℕ)
    → IsEid e
    → 26 ≤ size
    → Stops rest
    → (text : List ℕ) × (eid_serialize e size ≡ some text)
      × (eid_parse wide (text ++ rest) ≡ some (e, length text))
eid_parse-serialize wide e size rest v h s =
    (eid_text e, eid_serialize_lem e size h, eid_parse-text wide e rest v s)
