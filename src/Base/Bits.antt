-- ===== src/Base/Bits.antt =====
-- Facts on bytes, each tested at every value.
use Prim.Native.Nat.{ℕ, zero, suc, ◌<◌, bit_xor}
use mathlib.Core.Path.{◌≡◌, refl}
use mathlib.Core.Bool.{Bool, true, false}
use native.Mathlib.Omega.{arith}
use pico_fido_microkey.Base.Tests.{◌==◌, ==_iff, if◌then◌else◌}

-- Whether a test passes at each of 0, …, limit - 1.
unfoldable pub passes_upto : (ℕ → Bool) → ℕ → Bool
passes_upto test zero = true
passes_upto test (suc limit) =
    let smaller = passes_upto test limit in if test limit then smaller else false

pub passes_upto-at :
    (test : ℕ → Bool) (limit x : ℕ) → x < limit → passes_upto test limit ≡ true → test x ≡ true
unfolding passes_upto
passes_upto-at test zero x below h = absurd (omega arith)
passes_upto-at test (suc limit) x below h = ground (arith, passes_upto-at test limit x)

abbrev undone : ℕ → ℕ → Bool
undone x m = bit_xor (bit_xor x m) m == x

undone_everywhere : passes_upto (λ x. passes_upto (undone x) 256) 256 ≡ true
unfolding passes_upto
undone_everywhere = refl

-- A mask that is applied twice is undone.
pub bit_xor-bit_xor : (x m : ℕ) → x < 256 → m < 256 → bit_xor (bit_xor x m) m ≡ x
bit_xor-bit_xor x m hx hm =
    let row = passes_upto-at (λ y. passes_upto (undone y) 256) 256 x hx undone_everywhere in
    (==_iff _ x).0 (passes_upto-at (undone x) 256 m hm row)
