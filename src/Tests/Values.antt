-- ===== src/Tests/Values.antt =====
-- core/raddi_timestamp.h, core/raddi_iid.h, core/raddi_eid.h and core/raddi_content.h at concrete values.
use raddi.Base.{refl, ℕ, List, [], ◌∷◌, ◌++◌, some, ◌≡◌, arith, length}
use raddi.Id.{Eid}
use raddi.Id.Text.{eid_serialize, eid_parse}
use raddi.Id.RoundTrip.{eid_parse-serialize}
use raddi.Content.{Analysis}
use raddi.Content.Scan.{analyze}
use raddi.Content.Summary.{is_plain_line}
use raddi.Content.Summary.Plain.{one_text, analyze-is_plain_line}
use raddi.Content.Scan.Total.{analyze_total}

abbrev early : ℕ
early = 5

abbrev late : ℕ
late = 0xFFFF_FFF0

abbrev some_eid : Eid
some_eid = record {
  timestamp = 0x5F00_0001;
  identity = record { timestamp = 0x12; nonce = 0xABCD };
}

eid_parse-serialize_example :
    (text : List ℕ) × (eid_serialize some_eid 26 ≡ some text)
    × (eid_parse (λ n. 0) (text ++ []) ≡ some (some_eid, length text))
eid_parse-serialize_example =
    eid_parse-serialize (λ n. 0) some_eid 26 []
      (record {
        timestamp = omega arith;
        identity = record { timestamp = omega arith; nonce = omega arith };
      })
      (omega arith) tt

-- A vote, a text, and an attachment that claims more bytes than there are.
abbrev some_content : List ℕ
some_content = 0x0B ∷ 0x01 ∷ 0x48 ∷ 0x69 ∷ 0xFA ∷ 0x09 ∷ 0x00 ∷ 0x25 ∷ []

analyze_total_example : (a : Analysis) × (analyze some_content ≡ some a)
analyze_total_example = analyze_total some_content

abbrev greeting : List ℕ
greeting = 0x48 ∷ 0x69 ∷ 0x21 ∷ []

greeting_plain : is_plain_line greeting ≡ 3
unfolding is_plain_line raddi.Content.Summary.plain_from
greeting_plain = refl

analyze-is_plain_line_example : analyze greeting ≡ some (one_text 3)
analyze-is_plain_line_example = analyze-is_plain_line greeting (omega arith) greeting_plain
