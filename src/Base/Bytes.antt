-- ===== src/Base/Bytes.antt =====
-- C memory as lists of bytes: reads at an offset, `memcpy` of a block, and `memcmp`.
use Prim.Native.Nat.{ℕ, zero, suc, ◌+◌, ◌≤◌}
use mathlib.Core.Path.{◌≡◌, refl, ap}
use mathlib.Core.Logic.{◌↔◌}
use mathlib.Core.Bool.{Bool, true, false, ◌&&◌}
use mathlib.Core.List.{List, [], ◌∷◌, ◌++◌}
use native.Mathlib.Omega.{arith}
use pico_fido_microkey.Base.Tests.{◌==◌}
use pico_fido_microkey.Base.Lists.{length, get_or, drop}

-- `p[i]`; a read past the modelled memory gives 0.
abbrev pub byte_at : List ℕ → ℕ → ℕ
byte_at buf i = get_or buf i 0

-- The first `n` bytes of `buf`, padded by zeros past its end.
unfoldable pub block : ℕ → List ℕ → List ℕ
block zero buf = []
block (suc n) [] = 0 ∷ block n []
block (suc n) (x ∷ buf) = x ∷ block n buf

-- The `n` bytes at `buf + offset`.
unfoldable pub read_bytes : List ℕ → ℕ → ℕ → List ℕ
unfolding block
read_bytes buf offset n = block n (drop offset buf)

-- The bytes of `buf` with those at `offset` overwritten by `src`.
unfoldable pub write_bytes : List ℕ → ℕ → List ℕ → List ℕ
unfolding block
write_bytes buf offset src = block offset buf ++ (src ++ drop (offset + length src) buf)

-- `memcmp(a, b, n) == 0`.
unfoldable pub bytes_eq : List ℕ → List ℕ → Bool
bytes_eq [] [] = true
bytes_eq (x ∷ xs) (y ∷ ys) = x == y && bytes_eq xs ys
bytes_eq _ _ = false

unfoldable pub memcmp_eq : List ℕ → List ℕ → ℕ → Bool
unfolding block bytes_eq
memcmp_eq a b n = bytes_eq (block n a) (block n b)

pub bytes_eq_refl : (xs : List ℕ) → bytes_eq xs xs ≡ true
unfolding bytes_eq
bytes_eq_refl [] = refl
bytes_eq_refl (x ∷ xs) = ground (arith, bytes_eq_refl xs)

pub bytes_eq_sound : (xs ys : List ℕ) → bytes_eq xs ys ≡ true → xs ≡ ys
unfolding bytes_eq
bytes_eq_sound [] [] h = refl
bytes_eq_sound [] (y ∷ ys) h = ground arith
bytes_eq_sound (x ∷ xs) [] h = ground arith
bytes_eq_sound (x ∷ xs) (y ∷ ys) h = ground (arith, bytes_eq_sound xs ys)

pub bytes_eq_iff : (xs ys : List ℕ) → (bytes_eq xs ys ≡ true) ↔ (xs ≡ ys)
bytes_eq_iff xs ys = (bytes_eq_sound xs ys, λ e. rw e (bytes_eq_refl ys))

pub length-block : (n : ℕ) (buf : List ℕ) → length (block n buf) ≡ n
unfolding block
length-block zero buf = refl
length-block (suc n) [] = ap suc (length-block n [])
length-block (suc n) (x ∷ buf) = ap suc (length-block n buf)

pub block-length : (buf : List ℕ) (n : ℕ) → length buf ≡ n → block n buf ≡ buf
unfolding block
block-length [] zero e = refl
block-length [] (suc n) e = absurd (omega arith)
block-length (x ∷ buf) zero e = absurd (omega arith)
block-length (x ∷ buf) (suc n) e = ap (◌∷◌ x) (block-length buf n (omega arith))

pub block-append : (xs ys : List ℕ) (n : ℕ) → length xs ≡ n → block n (xs ++ ys) ≡ xs
unfolding block
block-append [] ys zero e = refl
block-append [] ys (suc n) e = absurd (omega arith)
block-append (x ∷ xs) ys zero e = absurd (omega arith)
block-append (x ∷ xs) ys (suc n) e = ap (◌∷◌ x) (block-append xs ys n (omega arith))

pub block-front : (n : ℕ) (xs ys : List ℕ) → n ≤ length xs → block n (xs ++ ys) ≡ block n xs
unfolding block
block-front zero xs ys h = refl
block-front (suc n) [] ys h = absurd (omega arith)
block-front (suc n) (x ∷ xs) ys h = ap (◌∷◌ x) (block-front n xs ys (omega arith))

-- The byte between two parts.
pub byte_at-middle : (xs ys : List ℕ) (n y : ℕ) → length xs ≡ n → byte_at (xs ++ y ∷ ys) n ≡ y
byte_at-middle [] ys zero y e = refl
byte_at-middle [] ys (suc n) y e = absurd (omega arith)
byte_at-middle (x ∷ xs) ys zero y e = absurd (omega arith)
byte_at-middle (x ∷ xs) ys (suc n) y e = byte_at-middle xs ys n y (omega arith)

pub drop-append : (xs ys : List ℕ) (n : ℕ) → length xs ≡ n → drop n (xs ++ ys) ≡ ys
drop-append [] ys zero e = refl
drop-append [] ys (suc n) e = absurd (omega arith)
drop-append (x ∷ xs) ys zero e = absurd (omega arith)
drop-append (x ∷ xs) ys (suc n) e = drop-append xs ys n (omega arith)

pub memcmp_eq_refl : (xs : List ℕ) (n : ℕ) → memcmp_eq xs xs n ≡ true
unfolding memcmp_eq
memcmp_eq_refl xs n = bytes_eq_refl (block n xs)

pub length-read_bytes : (buf : List ℕ) (offset n : ℕ) → length (read_bytes buf offset n) ≡ n
unfolding read_bytes
length-read_bytes buf offset n = length-block n (drop offset buf)

pub block-block : (n : ℕ) (buf : List ℕ) → block n (block n buf) ≡ block n buf
block-block n buf = block-length (block n buf) n (length-block n buf)

pub memcmp_eq-block : (xs : List ℕ) (n : ℕ) → memcmp_eq xs (block n xs) n ≡ true
unfolding memcmp_eq
memcmp_eq-block xs n = rw (block-block n xs) (bytes_eq_refl (block n xs))

pub memcmp_eq_iff :
    (xs ys : List ℕ) (n : ℕ) → (memcmp_eq xs ys n ≡ true) ↔ (block n xs ≡ block n ys)
unfolding memcmp_eq
memcmp_eq_iff xs ys n = bytes_eq_iff (block n xs) (block n ys)
