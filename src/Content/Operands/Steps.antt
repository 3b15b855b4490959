-- ===== src/Content/Operands/Steps.antt =====
-- core/raddi_content.cpp: the operands that `content::analyze` steps over, and the end of the content.
use raddi.Base.{
  ℕ, zero, suc, ◌+◌, ◌-◌, ◌*◌, ◌/◌, ◌%◌, ◌≤◌, ◌<◌, true, false, ◌&&◌, ◌||◌, List, [], ◌∷◌, Option,
  none, some, length, get_or, ltb, leb, ◌==◌, if◌then◌else◌, ◌≡◌, refl, arith, Bool-cases, inl, inr,
}
use raddi.Content.{State, Attachment}
use raddi.Content.Operands.{
  skip, token_end, push_token, token, push_stamp, stamp, stamp_defined, escape_end, escape, escaped,
  push_attachment, push_reference, store, attachment_of, skiptable, attachment,
}
use raddi.Base.{get_elem?}

pub get_elem?-some {ℓ} :
    {A : Type ℓ} (xs : List A) (i : ℕ) → i < length xs → (x : A) × (get_elem? xs i ≡ some x)
get_elem?-some [] i h = ground arith
get_elem?-some (x ∷ xs) zero h = (x, refl)
get_elem?-some (x ∷ xs) (suc i) h = get_elem?-some xs i (omega arith)

-- A step that keeps the cursor within the content and leaves fewer bytes.
unfoldable pub Advances : List ℕ → State → Option State → Type 0
Advances bytes s o =
    (t : State) × (o ≡ some t) × (t.content + t.left ≡ length bytes) × (t.left < s.left)

pub skip-Advances :
    (bytes : List ℕ) (n : ℕ) (s t : State)
    → t.content + t.left ≡ length bytes
    → n ≤ t.left
    → 0 < n
    → t.left ≤ s.left
    → Advances bytes s (skip n t)
unfolding skip Advances
skip-Advances bytes n s t e l p m =
    let fits : leb n t.left ≡ true = ground arith in
    rw fits
      (record t { content = t.content + n; left = t.left - n }, refl, omega arith, omega arith)

token_end_lem :
    (bytes : List ℕ) (n p : ℕ)
    → p + suc n ≡ length bytes
    → (q : ℕ) × (m : ℕ) × (token_end bytes (suc n) p ≡ some (q, m))
      × (q + m ≡ length bytes)
      × (p < q)
unfolding token_end
token_end_lem bytes zero p e = (p + 1, 0, refl, omega arith, omega arith)
token_end_lem bytes (suc n) p e =
    let c = get_elem?-some bytes (p + 1) (omega arith) in
    let rest = token_end_lem bytes n (p + 1) (omega arith) in
    elim (Bool-cases (c.0 == 0)) [
      | inl z ↦ (p + 1, suc n, ground (arith, c.1, z), omega arith, omega arith)
      | inr z ↦ (rest.0, rest.1, ground (arith, c.1, z, rest.2), rest.3, ground (arith, rest.4))
    ]

escape_end_lem :
    (bytes : List ℕ) (n p : ℕ)
    → p + suc (suc n) ≡ length bytes
    → (q : ℕ) × (m : ℕ) × (escape_end bytes (suc (suc n)) p ≡ some (q, m))
      × (q + m ≡ length bytes)
      × (0 < m)
      × (m < suc (suc n))
unfolding escape_end
escape_end_lem bytes zero p e = (p + 1, 1, refl, omega arith, omega arith, omega arith)
escape_end_lem bytes (suc n) p e =
    let c = get_elem?-some bytes (p + 1) (omega arith) in
    let rest = escape_end_lem bytes n (p + 1) (omega arith) in
    elim (Bool-cases (ltb c.0 0x40 || ltb 0x7E c.0)) [
      | inl z ↦
          (rest.0, rest.1, ground (arith, c.1, z, rest.2), rest.3, rest.4, ground (arith, rest.5))
      | inr z ↦ (p + 1, suc (suc n), ground (arith, c.1, z), omega arith, omega arith, omega arith)
    ]

token_end_from :
    (bytes : List ℕ) (n p : ℕ)
    → 0 < n
    → p + n ≡ length bytes
    → (q : ℕ) × (m : ℕ) × (token_end bytes n p ≡ some (q, m)) × (q + m ≡ length bytes) × (p < q)
token_end_from bytes zero p l e = ground arith
token_end_from bytes (suc n) p l e = token_end_lem bytes n p e

escape_end_from :
    (bytes : List ℕ) (n p : ℕ)
    → 1 < n
    → p + n ≡ length bytes
    → (q : ℕ) × (m : ℕ) × (escape_end bytes n p ≡ some (q, m))
      × (q + m ≡ length bytes)
      × (0 < m)
      × (m < n)
escape_end_from bytes zero p l e = ground arith
escape_end_from bytes (suc zero) p l e = ground arith
escape_end_from bytes (suc (suc n)) p l e = escape_end_lem bytes n p e

token_string-Advances :
    (bytes : List ℕ) (s t : State) (q m : ℕ)
    → t.content + t.left ≡ length bytes
    → t.left ≤ s.left
    → q + m ≡ length bytes
    → t.content + 1 < q
    → Advances bytes s (skip (if m == 0 then q - t.content else q - t.content + 1) t)
token_string-Advances bytes s t q m e l f k = elim (Bool-cases (m == 0)) [
  | inl z ↦ rw z (skip-Advances bytes (q - t.content) s t e (omega arith) (omega arith) l)
  | inr z ↦
      let more : 0 < m = ground arith in
      rw z (skip-Advances bytes (q - t.content + 1) s t e (omega arith) (omega arith) l)
]

pub token-Advances :
    (bytes : List ℕ) (c : ℕ) (s : State)
    → s.content + s.left ≡ length bytes
    → 0 < s.left
    → Advances bytes s (token bytes c s)
unfolding token push_token
token-Advances bytes c s e p = elim (Bool-cases (ltb 1 s.left)) [
  | inr h ↦ rw h (skip-Advances bytes 1 s s e p (omega arith) (omega arith))
  | inl h ↦
      let two : 1 < s.left = ground arith in
      let b = get_elem?-some bytes (s.content + 1) (omega arith) in
      elim (Bool-cases (ltb b.0 0x20)) [
        | inl z ↦
            rw (h, b.1, z)
              (skip-Advances bytes 2 s (push_token c b.0 none false s) e (omega arith) (omega arith)
                (omega arith))
        | inr z ↦
            let r = token_end_from bytes (s.left - 1) (s.content + 1) (omega arith) (omega arith) in
            rw (h, b.1, z, r.2)
              (token_string-Advances bytes s
                (push_token c 0 (some (s.content + 1, r.0)) (r.1 == 0) s) r.0 r.1 e (omega arith)
                r.3 r.4)
      ]
]

pub stamp-Advances :
    (bytes : List ℕ) (c : ℕ) (s : State)
    → s.content + s.left ≡ length bytes
    → 0 < s.left
    → Advances bytes s (stamp bytes c s)
unfolding stamp push_stamp
stamp-Advances bytes c s e p = elim (Bool-cases (ltb 1 s.left)) [
  | inr h ↦ rw h (
      skip-Advances bytes 1 s (push_stamp c 0 false (c == 0x19) 0 none s) e p (omega arith)
        (omega arith))
  | inl h ↦
      let two : 1 < s.left = ground arith in
      let code = get_elem?-some bytes (s.content + 1) (omega arith) in
      let wanted = get_or skiptable (code.0 / 16 % 8) 0 in
      let size : ℕ = if ltb (s.left - 2) wanted then s.left - 2 else wanted in
      let at : Option ℕ = if wanted == 0 then none else some (s.content + 2) in
      let t = push_stamp c code.0 (ltb (s.left - 2) wanted) (stamp_defined c code.0) size at s in
      rw (h, code.1)
        (skip-Advances bytes (size + 2) s t e (ground arith) (omega arith) (omega arith))
]

pub escape-Advances :
    (bytes : List ℕ) (s : State)
    → s.content + s.left ≡ length bytes
    → 0 < s.left
    → Advances bytes s (escape bytes s)
unfolding escape
escape-Advances bytes s e p = elim (Bool-cases (ltb 1 s.left)) [
  | inr h ↦ rw h (skip-Advances bytes 1 s s e p (omega arith) (omega arith))
  | inl h ↦
      let two : 1 < s.left = ground arith in
      let b = get_elem?-some bytes (s.content + 1) (omega arith) in
      let r = escape_end_from bytes s.left s.content two e in
      let t : State = record s { content = r.0; left = r.1; look = escaped b.0 s.look } in
      let less = r.5 in
      rw (h, r.2, b.1) (skip-Advances bytes 1 s t r.3 r.4 (omega arith) (omega arith))
]

store-Advances :
    (bytes : List ℕ) (a : Attachment) (s : State)
    → a.at + a.size ≤ length bytes
    → (t : State) × (store bytes a s ≡ some t) × (t.content ≡ s.content) × (t.left ≡ s.left)
unfolding store push_attachment push_reference
store-Advances bytes a s l = elim (Bool-cases ((a.type_code == 0xFD) && leb 4 a.size)) [
  | inr h ↦ rw h (push_attachment a s, refl, refl, refl)
  | inl h ↦
      let four : 4 ≤ a.size = ground arith in
      let b0 = get_elem?-some bytes a.at (omega arith) in
      let b1 = get_elem?-some bytes (a.at + 1) (omega arith) in
      let b2 = get_elem?-some bytes (a.at + 2) (omega arith) in
      let b3 = get_elem?-some bytes (a.at + 3) (omega arith) in
      let t =
        push_reference
          (record {
            offset = b0.0 + 256 * b1.0;
            size = b2.0 + 256 * b3.0;
            string = a.at + 4;
            string_end = a.at + a.size;
            truncated = a.truncated;
          })
          s in
      (t, rw (h, b0.1, b1.1, b2.1, b3.1), refl, refl)
]

attachment_of_size : (c b1 b2 : ℕ) (s : State) → (attachment_of c b1 b2 s).size ≤ s.left - 3
unfolding attachment_of
attachment_of_size c b1 b2 s = ground arith

attachment_of_at : (c b1 b2 : ℕ) (s : State) → (attachment_of c b1 b2 s).at ≡ s.content + 3
unfolding attachment_of
attachment_of_at c b1 b2 s = refl

pub attachment-Advances :
    (bytes : List ℕ) (c : ℕ) (s : State)
    → s.content + s.left ≡ length bytes
    → 0 < s.left
    → Advances bytes s (attachment bytes c s)
unfolding attachment
attachment-Advances bytes c s e p = elim (Bool-cases (ltb 2 s.left)) [
  | inr h ↦ rw h (skip-Advances bytes 1 s s e p (omega arith) (omega arith))
  | inl h ↦
      let three : 2 < s.left = ground arith in
      let b1 = get_elem?-some bytes (s.content + 1) (omega arith) in
      let b2 = get_elem?-some bytes (s.content + 2) (omega arith) in
      let a = attachment_of c b1.0 b2.0 s in
      let fits : a.size ≤ s.left - 3 = attachment_of_size c b1.0 b2.0 s in
      let place : a.at ≡ s.content + 3 = attachment_of_at c b1.0 b2.0 s in
      let t = store-Advances bytes a s (omega arith) in
      let same = t.2 in
      let rest = t.3 in
      rw (h, b1.1, b2.1, t.1)
        (skip-Advances bytes (a.size + 3) s t.0 (omega arith) (omega arith) (omega arith)
          (omega arith))
]
