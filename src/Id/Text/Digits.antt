-- ===== src/Id/Text/Digits.antt =====
-- Hexadecimal digits, from the printer to the scanner.
use mathlib.Core.List.{append_assoc}
use native.Mathlib.Nat.{pow-suc}
use raddi.Base.{
  ℕ, zero, suc, ◌+◌, ◌-◌, ◌*◌, ◌/◌, ◌%◌, ◌^◌, ◌≤◌, ◌<◌, ◌≡◌, ◌≢◌, refl, ap, ◌∙◌, some, none, List,
  [], ◌∷◌, ◌++◌, length, length-append, arith, ltb, ltb→lt, lt→ltb, ◌⊎◌, Bool-cases, inl, inr,
}
use raddi.Time.{u32}
use raddi.Id.Text.{
  hex_digit, hex_pad, hex, hex_value, skip_space, scan_digits, scan_number, scan_sign, scan_hex,
}

-- The text `cs` writes the number `n`, at least one digit long.
pub data Spells : List ℕ → ℕ → Type 0 where
  single : {d : ℕ} → d < 16 → Spells (hex_digit d ∷ []) d
  snoc :
      {cs : List ℕ} {m n d : ℕ}
      → Spells cs m
      → d < 16
      → n ≡ m * 16 + d
      → Spells (cs ++ (hex_digit d ∷ [])) n

-- What may follow a number, so that the scanner stops there.
abbrev pub Stops : List ℕ → Type 0
Stops [] = Unit {0}
Stops (c ∷ cs) = (hex_value c ≡ none) × (c ≢ b'x') × (c ≢ b'X')

abbrev pub StartsNoPrefix : List ℕ → Type 0
StartsNoPrefix [] = Unit {0}
StartsNoPrefix (c ∷ cs) = (c ≢ b'x') × (c ≢ b'X')

pub value-hex_digit : (d : ℕ) → d < 16 → hex_value (hex_digit d) ≡ some d
unfolding hex_value hex_digit
value-hex_digit d h = ground arith

scan_digits_one :
    (w d acc n : ℕ) (rest : List ℕ)
    → d < 16
    → scan_digits (suc w) (hex_digit d ∷ rest) acc n ≡ scan_digits w rest (acc * 16 + d) (n + 1)
unfolding scan_digits
scan_digits_one w d acc n rest h = rw (value-hex_digit d h, scan_digits)

-- The scanner reads a spelled number whole, if the width has room for it.
pub scan_digits-Spells :
    {cs : List ℕ} {v : ℕ} (width w n used : ℕ) (rest : List ℕ)
    → Spells cs v
    → width ≡ w + length cs
    → used ≡ n + length cs
    → scan_digits width (cs ++ rest) 0 n ≡ scan_digits w rest v used
scan_digits-Spells width w n used rest (single {d} h) e u =
    let e' : width ≡ suc w = omega arith in
    let u' : used ≡ n + 1 = omega arith in
    rw (e', u', scan_digits_one w d 0 n rest h)
      (ap (λ t. scan_digits w rest t (n + 1)) (omega arith))
scan_digits-Spells width w n used rest (snoc {cs} {m} {n = v} {d} s h q) e u =
    let l = length-append cs (hex_digit d ∷ []) in
    let u' : used ≡ n + length cs + 1 = omega (arith, l) in
    rw
      (
        append_assoc,
        q,
        u',
        scan_digits-Spells width (suc w) n (n + length cs) (hex_digit d ∷ rest) s (omega (arith, l))
            refl,
      )
      (scan_digits_one w d m (n + length cs) rest h)

hex_pad-Spells : (k n : ℕ) → n < 16 ^ suc k → Spells (hex_pad (suc k) n) n
unfolding hex_pad
hex_pad-Spells zero n h = let e : n % 16 ≡ n = omega arith in rw e (single (omega arith))
hex_pad-Spells (suc k) n h =
    snoc (hex_pad-Spells k (n / 16) (omega (arith, pow-suc 16 (suc k)))) (omega arith) (omega arith)

hex-Spells : (k n : ℕ) → n < 16 ^ suc k → Spells (hex k n) n
unfolding hex
hex-Spells zero n h = single (omega arith)
hex-Spells (suc k) n h = elim (Bool-cases (ltb n 16)) [
  | inl t ↦ rw t (single (ltb→lt n 16 t))
  | inr t ↦
      rw t (
        snoc (hex-Spells k (n / 16) (omega (arith, pow-suc 16 (suc k)))) (omega arith)
          (omega arith))
]

pub hex_pad-Spells_eight : (n : ℕ) → n < u32 → Spells (hex_pad 8 n) n
hex_pad-Spells_eight n h = hex_pad-Spells 7 n (omega arith)

pub hex-Spells_eight : (n : ℕ) → n < u32 → Spells (hex 7 n) n
hex-Spells_eight n h = hex-Spells 7 n (omega arith)

pub length-hex_pad : (k n : ℕ) → length (hex_pad k n) ≡ k
unfolding hex_pad
length-hex_pad zero n = refl
length-hex_pad (suc k) n =
    omega (
      arith,
      length-append (hex_pad k (n / 16)) (hex_digit (n % 16) ∷ []),
      length-hex_pad k (n / 16),
    )

pub length-hex : (k n : ℕ) → (1 ≤ length (hex k n)) × (length (hex k n) ≤ k + 1)
unfolding hex
length-hex zero n = omega arith
length-hex (suc k) n =
    ground (arith, length-append (hex k (n / 16)) (hex_digit (n % 16) ∷ []), length-hex k (n / 16))

-- A text whose first character is a digit, and whose second is no x.
pub data Starts : List ℕ → Type 0 where
  starts : {c d : ℕ} {cs : List ℕ} → hex_value c ≡ some d → StartsNoPrefix cs → Starts (c ∷ cs)

digit-StartsNoPrefix : (d : ℕ) (rest : List ℕ) → d < 16 → StartsNoPrefix (hex_digit d ∷ rest)
unfolding hex_digit
digit-StartsNoPrefix d rest h = (ground arith, ground arith)

pub Spells-StartsNoPrefix :
    {cs : List ℕ} {v : ℕ} (rest : List ℕ) → Spells cs v → StartsNoPrefix rest → Starts (cs ++ rest)
Spells-StartsNoPrefix rest (single {d} h) s = starts (value-hex_digit d h) s
Spells-StartsNoPrefix rest (snoc {cs} {d} p h e) s =
    rw append_assoc (Spells-StartsNoPrefix (hex_digit d ∷ rest) p (digit-StartsNoPrefix d rest h))

Stops-StartsNoPrefix : (rest : List ℕ) → Stops rest → StartsNoPrefix rest
Stops-StartsNoPrefix [] s = tt
Stops-StartsNoPrefix (c ∷ cs) s = (s.1, s.2)

pub Spells-Starts :
    {cs : List ℕ} {v : ℕ} (rest : List ℕ) → Spells cs v → Stops rest → Starts (cs ++ rest)
Spells-Starts rest p s = Spells-StartsNoPrefix rest p (Stops-StartsNoPrefix rest s)

-- Neither a sign nor a prefix is read off such a text, and no white space is skipped.
scan_sign-Starts : {cs : List ℕ} (w n : ℕ) → Starts cs → scan_sign w cs n ≡ scan_number w cs n
unfolding scan_sign hex_value
scan_sign-Starts w n (starts {c} {cs = []} e s) = ground arith
scan_sign-Starts w n (starts {c} {cs = c' ∷ cs} e s) = ground arith

pub skip_space-Starts :
    {cs : List ℕ} (n : ℕ) → Starts cs → skip_space cs n ≡ record { rest = cs; used = n }
unfolding skip_space hex_value
skip_space-Starts n (starts e s) = ground arith

scan_digits-Stops :
    (w v n : ℕ) (rest : List ℕ)
    → Stops rest
    → scan_digits w rest v n ≡ (v, record { rest = rest; used = n })
unfolding scan_digits
scan_digits-Stops zero v n [] s = refl
scan_digits-Stops (suc w) v n [] s = refl
scan_digits-Stops zero v n (c ∷ cs) s = refl
scan_digits-Stops (suc w) v n (c ∷ cs) s = rw (s.0, scan_digits)

length-Spells : {cs : List ℕ} {v : ℕ} → Spells cs v → 0 < length cs
length-Spells (single h) = omega arith
length-Spells (snoc {cs} {d} p h e) =
    omega (arith, length-append cs (hex_digit d ∷ []), length-Spells p)

scan_number-Spells :
    {cs : List ℕ} {v : ℕ} (w n : ℕ) (rest : List ℕ)
    → Spells cs v
    → scan_digits w (cs ++ rest) 0 n ≡ (v, record { rest = rest; used = n + length cs })
    → scan_number w (cs ++ rest) n ≡ some (v, record { rest = rest; used = n + length cs })
unfolding scan_number
scan_number-Spells {cs} w n rest p e =
    rw (e, lt→ltb n (n + length cs) (omega (arith, length-Spells p)))

-- `%x` reads a spelled number of exactly the width's length, whatever follows but an x.
-- It reads a shorter one if what follows stops it.
pub scan_hex-Spells :
    {cs : List ℕ} {v : ℕ} (w n : ℕ) (rest : List ℕ)
    → Spells cs v
    → ((length cs ≡ w) × StartsNoPrefix rest) ⊎ ((length cs ≤ w) × Stops rest)
    → scan_hex w (record { rest = cs ++ rest; used = n })
      ≡ some (v, record { rest = rest; used = n + length cs })
scan_hex-Spells {cs} {v} w n rest p h =
    unfold scan_hex in
    rw (skip_space-Starts n (first h), scan_sign-Starts w n (first h))
      (scan_number-Spells w n rest p (digits h))
  where
    first :
        ((length cs ≡ w) × StartsNoPrefix rest) ⊎ ((length cs ≤ w) × Stops rest)
        → Starts (cs ++ rest)
    first (inl (e, s)) = Spells-StartsNoPrefix rest p s
    first (inr (e, s)) = Spells-Starts rest p s

    digits :
        ((length cs ≡ w) × StartsNoPrefix rest) ⊎ ((length cs ≤ w) × Stops rest)
        → scan_digits w (cs ++ rest) 0 n ≡ (v, record { rest = rest; used = n + length cs })
    digits (inl (e, s)) = scan_digits-Spells w 0 n _ rest p (omega arith) refl ∙ full rest
      where
        full :
            (r : List ℕ)
            → scan_digits 0 r v (n + length cs) ≡ (v, record { rest = r; used = n + length cs })
        full [] = unfold scan_digits in refl
        full (c ∷ cs) = unfold scan_digits in refl
    digits (inr (e, s)) =
        scan_digits-Spells w (w - length cs) n _ rest p (omega arith) refl
        ∙ scan_digits-Stops (w - length cs) v _ rest s

pub tail-StartsNoPrefix :
    {cs : List ℕ} {v : ℕ} (rest : List ℕ) → Spells cs v → StartsNoPrefix (cs ++ rest)
tail-StartsNoPrefix rest (single {d} h) = digit-StartsNoPrefix d rest h
tail-StartsNoPrefix rest (snoc {cs} {d} p h e) = rw append_assoc (tail-StartsNoPrefix _ p)
