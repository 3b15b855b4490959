-- ===== src/Db/Shard/Content.antt =====
-- The laws of the content file: appending, reading back, and the mask.
use mathlib.Core.List.{append-nil}
use raddi.Base.{
  ℕ, zero, suc, ◌+◌, ◌-◌, ◌≤◌, List, [], ◌∷◌, ◌++◌, some, ◌≡◌, refl, ap, arith, length,
  length-append, take, drop, take_all, drop_past, take_append, drop_append,
}
use raddi.Base.Bits.{bit_xor_cancel}
use raddi.Db.Shard.Files.{write, resize, read, masked, apply_mask}

pub write_end : (bytes f : List ℕ) → write (length f) bytes f ≡ f ++ bytes
unfolding write
write_end bytes f = rw (take_all f, drop_past (length f + length bytes) f (omega arith), append-nil)

pub resize-write : (bytes f : List ℕ) → resize (length f) (write (length f) bytes f) ≡ f
resize-write bytes f = rw (write_end bytes f) (take_append f bytes)

pub resize-write_at : (p : ℕ) (bytes f : List ℕ) → p ≡ length f → resize p (write p bytes f) ≡ f
resize-write_at p bytes f e = rw e (resize-write bytes f)

pub resize_end : (f : List ℕ) → resize (length f) f ≡ f
resize_end f = take_all f

take_front : (n : ℕ) (xs ys : List ℕ) → n ≤ length xs → take n (xs ++ ys) ≡ take n xs
take_front zero xs ys h = refl
take_front (suc n) [] ys h = absurd (omega arith)
take_front (suc n) (x ∷ xs) ys h = ap (◌∷◌ x) (take_front n xs ys (omega arith))

drop_front : (n : ℕ) (xs ys : List ℕ) → n ≤ length xs → drop n (xs ++ ys) ≡ drop n xs ++ ys
drop_front zero xs ys h = refl
drop_front (suc n) [] ys h = absurd (omega arith)
drop_front (suc n) (x ∷ xs) ys h = drop_front n xs ys (omega arith)

length-drop_le : (n : ℕ) (xs : List ℕ) → length (drop n xs) ≡ length xs - n
length-drop_le zero xs = omega arith
length-drop_le (suc n) [] = omega arith
length-drop_le (suc n) (x ∷ xs) = omega (arith, length-drop_le n xs)

-- What lies in the file already reads the same after more is appended.
pub read-append :
    (offset n : ℕ) (f more : List ℕ)
    → offset + n ≤ length f
    → read offset n (f ++ more) ≡ read offset n f
unfolding read
read-append offset n f more h =
    rw
      (
        drop_front offset f more (omega arith),
        take_front n (drop offset f) more (omega (arith, length-drop_le offset f)),
      )
      (ground (arith, length-append f more))

-- What was appended reads back.
pub read_end : (f bytes : List ℕ) → read (length f) (length bytes) (f ++ bytes) ≡ some bytes
unfolding read
read_end f bytes = rw (drop_append f bytes, take_all bytes) (ground (arith, length-append f bytes))

length-masked :
    (mask : List ℕ) (position : ℕ) (bytes : List ℕ)
    → length (masked mask position bytes) ≡ length bytes
unfolding masked
length-masked mask position [] = refl
length-masked mask position (b ∷ bs) = ap suc (length-masked mask (position + 1) bs)

pub length-apply_mask :
    (mask : List ℕ) (position : ℕ) (bytes : List ℕ)
    → length (apply_mask mask position bytes) ≡ length bytes
unfolding apply_mask
length-apply_mask [] position bytes = refl
length-apply_mask (m ∷ ms) position bytes = length-masked (m ∷ ms) position bytes

masked_twice :
    (mask : List ℕ) (position : ℕ) (bytes : List ℕ)
    → masked mask position (masked mask position bytes) ≡ bytes
unfolding masked
masked_twice mask position [] = refl
masked_twice mask position (b ∷ bs) = rw (bit_xor_cancel b, masked_twice mask (position + 1) bs)

-- Masking at the same position twice gives the bytes back, whatever the mask.
pub apply_mask_twice :
    (mask : List ℕ) (position : ℕ) (bytes : List ℕ)
    → apply_mask mask position (apply_mask mask position bytes) ≡ bytes
unfolding apply_mask
apply_mask_twice [] position bytes = refl
apply_mask_twice (m ∷ ms) position bytes = masked_twice (m ∷ ms) position bytes
