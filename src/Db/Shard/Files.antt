-- ===== src/Db/Shard/Files.antt =====
-- common/file.h and common/file.cpp, as far as a shard uses them.
use raddi.Base.{
  ℕ, zero, suc, ◌+◌, ◌%◌, List, [], ◌∷◌, ◌++◌, Option, none, some, length, take, drop, get_or, leb,
  if◌then◌else◌, bit_xor,
}

abbrev pub replicate {ℓ} : {A : Type ℓ} → ℕ → A → List A
replicate zero a = []
replicate (suc n) a = a ∷ replicate n a

-- `write` at a position no further than the end: the bytes there are replaced, and more are added.
unfoldable pub write : ℕ → List ℕ → List ℕ → List ℕ
write position bytes file = take position file ++ (bytes ++ drop (position + length bytes) file)

-- `resize` to a length no larger than the file's.
abbrev pub resize : ℕ → List ℕ → List ℕ
resize n file = take n file

-- `read` of `n` bytes from an offset; a short read is a failure.
unfoldable pub read : ℕ → ℕ → List ℕ → Option (List ℕ)
read offset n file =
    if leb (offset + n) (length file) then some (take n (drop offset file)) else none

-- `zero`: the bytes in the range become 0; the file keeps its length.
unfoldable pub zero_range : ℕ → ℕ → List ℕ → List ℕ
zero_range offset n [] = []
zero_range zero zero (b ∷ bs) = b ∷ bs
zero_range zero (suc n) (b ∷ bs) = 0 ∷ zero_range zero n bs
zero_range (suc o) n (b ∷ bs) = b ∷ zero_range o n bs

-- The loops that mask content, `x ^ mask [(position + i) % mask_size]`, at a file position.
unfoldable pub masked : List ℕ → ℕ → List ℕ → List ℕ
masked mask position [] = []
masked mask position (b ∷ bs) =
    bit_xor b (get_or mask (position % length mask) 0) ∷ masked mask (position + 1) bs

-- No mask, no masking.
unfoldable pub apply_mask : List ℕ → ℕ → List ℕ → List ℕ
unfolding masked
apply_mask [] position bytes = bytes
apply_mask (m ∷ ms) position bytes = masked (m ∷ ms) position bytes
