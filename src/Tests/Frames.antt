-- ===== src/Tests/Frames.antt =====
-- core/raddi_entry.cpp, core/raddi_request.cpp and core/raddi_request.tcc at concrete frames.
use raddi.Base.{
  ℕ, ◌+◌, ◌≤◌, true, false, List, [], ◌∷◌, ◌++◌, some, ◌≡◌, refl, arith, length, zero, suc,
}
use raddi.Id.{Iid, Eid}
use raddi.Messages.Entry.{
  Frame, not_an_announcement, new_channel_announcement, new_identity_announcement, is_announcement,
  proof, validate,
}
use raddi.Messages.Entry.Accepted.{validate-sizes}
use raddi.Messages.Request.{
  history_length, history_size, is_valid_size, depth, Span, decode_from, Request, validate_content,
  validate_subscription,
}
use raddi.Messages.Request.History.{reach}
use raddi.Messages.Request.Window.{validate_wrapped}

abbrev pub bytes_of : ℕ → ℕ → List ℕ
bytes_of zero b = []
bytes_of (suc n) b = b ∷ bytes_of n b

abbrev frame : Frame
frame = record {
  id = record { timestamp = 1000; identity = record { timestamp = 900; nonce = 5 } };
  parent = record { timestamp = 950; identity = record { timestamp = 900; nonce = 5 } };
  content = 0x48 ∷ 0 ∷ (bytes_of 48 7 ++ (0x80 ∷ []));
}

frame_accepted : validate 1010 frame ≡ true
unfolding validate proof is_announcement raddi.Time.older raddi.Messages.Entry.validate_size
    raddi.Id.eid_eq
frame_accepted = refl

validate-sizes_example :
    (n : ℕ) × (proof frame.content ≡ some n)
    × (50 ≤ n)
    × (n ≤ 170)
    × (n ≤ length frame.content)
    × (is_announcement frame.id frame.parent ≡ new_identity_announcement
        → (32 + n ≤ length frame.content) × (length frame.content ≤ 85 + n))
    × (is_announcement frame.id frame.parent ≡ new_channel_announcement
        → length frame.content ≤ 85 + n)
    × (is_announcement frame.id frame.parent ≡ not_an_announcement → 1 + n ≤ length frame.content)
validate-sizes_example = validate-sizes 1010 frame (omega arith) frame_accepted

abbrev spans : List Span
spans = record { threshold = 9; number = 4 } ∷ record { threshold = 0; number = 0xFF_FFFF } ∷ []

spans-reach : reach spans ≤ 1000
unfolding reach
spans-reach = omega arith

abbrev asking : ℕ → Request
asking mark = record { mark = mark; type_code = 0x10; content = [] }

validate_wrapped_example : raddi.Messages.Request.validate 0x500_0005 (asking 0xFF_FFFF) ≡ false
validate_wrapped_example =
    validate_wrapped 0x500_0005 6 (asking 0xFF_FFFF) (omega arith) (omega arith) (omega arith) refl
