-- ===== src/Messages/Entry/Accepted.antt =====
-- core/raddi_entry.cpp: the sizes of an accepted entry.
use raddi.Base.{
  ℕ, ◌+◌, ◌≤◌, ◌<◌, true, List, length, none, some, ◌≡◌, ◌≢◌, arith, Option-cases, inl, inr,
}
use raddi.Messages.Entry.{
  Frame, not_an_announcement, new_channel_announcement, new_identity_announcement, is_announcement,
  proof_size, proof_validate, proof, validate_size, validate, min_proof_size, entry_size, sub64,
}

proof_bounds :
    (content : List ℕ) (n : ℕ)
    → proof content ≡ some n
    → (min_proof_size ≤ n) × (n ≤ length content) × (n ≤ 170)
unfolding proof proof_validate proof_size
proof_bounds content n h = (ground arith, ground arith, ground arith)

accepted-has_proof : (now : ℕ) (e : Frame) → validate now e ≡ true → proof e.content ≢ none
unfolding validate
accepted-has_proof now e h z = ground (arith, h, z)

accepted-size :
    (now : ℕ) (e : Frame) (n : ℕ)
    → validate now e ≡ true
    → proof e.content ≡ some n
    → validate_size
        (is_announcement e.id e.parent)
        (entry_size + length e.content)
        (sub64 (sub64 (entry_size + length e.content) entry_size) n)
      ≡ true
unfolding validate
accepted-size now e n h z = ground (arith, h, z)

-- An entry that `validate` accepts ends in a proof of 50 to 170 bytes, and its content before the proof
-- has at least one byte, or for a new identity the 32 bytes of the key and at most 53 of a name, or
-- for a new channel at most 85 bytes.
pub validate-sizes :
    (now : ℕ) (e : Frame)
    → length e.content < 65536
    → validate now e ≡ true
    → (n : ℕ) × (proof e.content ≡ some n)
      × (50 ≤ n)
      × (n ≤ 170)
      × (n ≤ length e.content)
      × (is_announcement e.id e.parent ≡ new_identity_announcement
          → (32 + n ≤ length e.content) × (length e.content ≤ 85 + n))
      × (is_announcement e.id e.parent ≡ new_channel_announcement → length e.content ≤ 85 + n)
      × (is_announcement e.id e.parent ≡ not_an_announcement → 1 + n ≤ length e.content)
unfolding validate_size
validate-sizes now e l h = elim (Option-cases (proof e.content)) [
  | inl z ↦ elim (accepted-has_proof now e h z) [ ]
  | inr z ↦
      let b = proof_bounds e.content z.0 z.1 in
      let small : 50 ≤ z.0 = b.0 in
      let fits : z.0 ≤ length e.content = b.1 in
      let sized = accepted-size now e z.0 h z.1 in
      (
        z.0,
        z.1,
        small,
        b.2,
        fits,
        (λ a. (ground (arith, sized, a), ground (arith, sized, a))),
        (λ a. ground (arith, sized, a)),
        λ a. ground (arith, sized, a),
      )
]
