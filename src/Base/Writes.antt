-- ===== src/Base/Writes.antt =====
-- What a write into a list of bytes leaves.
use Prim.Native.Nat.{ℕ, ◌+◌, ◌≤◌}
use mathlib.Core.Path.{◌≡◌, ◌∙◌, ap, sym}
use mathlib.Core.List.{List, ◌++◌}
use mathlib.Core.List.{append_assoc}
use native.Mathlib.Omega.{arith}
use pico_fido_microkey.Base.Lists.{length, drop, length-append, length-drop}
use pico_fido_microkey.Base.Bytes.{block, write_bytes, length-block, block-append, drop-append}

pub length-write_bytes :
    (buf : List ℕ) (offset : ℕ) (src : List ℕ)
    → offset + length src ≤ length buf
    → length (write_bytes buf offset src) ≡ length buf
unfolding write_bytes
length-write_bytes buf offset src h = omega (
  arith,
  length-append (block offset buf) (src ++ drop (offset + length src) buf),
  length-append src (drop (offset + length src) buf),
  length-block offset buf,
  length-drop (offset + length src) buf,
)

pub drop-write_bytes :
    (buf : List ℕ) (offset : ℕ) (src : List ℕ)
    → drop offset (write_bytes buf offset src) ≡ src ++ drop (offset + length src) buf
unfolding write_bytes
drop-write_bytes buf offset src = drop-append (block offset buf) _ offset (length-block offset buf)

-- The bytes up to the end of the write: those before it, and what was written.
pub block-write_bytes :
    (buf : List ℕ) (offset : ℕ) (src : List ℕ)
    → block (offset + length src) (write_bytes buf offset src) ≡ block offset buf ++ src
unfolding write_bytes
block-write_bytes buf offset src =
    ap (block (offset + length src)) (sym (append_assoc (block offset buf) src _))
    ∙ block-append (block offset buf ++ src) _ (offset + length src)
        (omega (arith, length-append (block offset buf) src, length-block offset buf))
