-- ===== src/Otp/Residue.antt =====
-- The check sum of otp.c: what its complement makes of it.
use pico_fido_microkey.Base.{
  ℕ, zero, suc, ◌+◌, ◌-◌, ◌*◌, ◌/◌, ◌%◌, ◌^◌, ◌<◌, ◌≡◌, refl, ap, subst, ◌∙◌, sym, arith, bit_xor,
  Bool, true, List, [], ◌∷◌, ◌++◌, length, block, block-append, passes_upto, passes_upto-at, ◌==◌,
  ==_iff, length-append,
}
use mathlib.Core.List.{append_assoc}
use pico_fido_microkey.Otp.State.{otp_config_size}
use pico_fido_microkey.Otp.Crc.{crc_bit, crc_bits, crc_byte, crc_from, calculate_crc, check_crc}

crc_bits-lt : (n crc : ℕ) → crc < 2 ^ 16 → crc_bits n crc < 2 ^ 16
unfolding crc_bits crc_bit
crc_bits-lt zero crc h = h
crc_bits-lt (suc n) crc h = crc_bits-lt n (crc_bit crc) (ground arith)

crc_from-lt : (crc : ℕ) (d : List ℕ) → crc < 2 ^ 16 → crc_from crc d < 2 ^ 16
unfolding crc_from crc_byte
crc_from-lt crc [] h = h
crc_from-lt crc (x ∷ d) h =
    crc_from-lt (crc_byte crc x) d (crc_bits-lt 8 (bit_xor crc x % 2 ^ 16) (omega arith))

-- A check sum has 16 bits.
pub calculate_crc-lt : (d : List ℕ) → calculate_crc d < 2 ^ 16
unfolding calculate_crc
calculate_crc-lt d = crc_from-lt 0xffff d (omega arith)

crc_from-append : (crc : ℕ) (d e : List ℕ) → crc_from crc (d ++ e) ≡ crc_from (crc_from crc d) e
unfolding crc_from
crc_from-append crc [] e = refl
crc_from-append crc (x ∷ d) e = crc_from-append (crc_byte crc x) d e

-- The complement of a check sum, the low byte first.
abbrev pub crc_bytes : ℕ → List ℕ
crc_bytes crc = (2 ^ 16 - 1 - crc) % 256 ∷ (2 ^ 16 - 1 - crc) / 256 ∷ []

-- The complement of the low byte sets it, whatever the high byte is.
abbrev low_test : ℕ → ℕ → Bool
low_test high low = bit_xor (high * 256 + low) (255 - low) % 2 ^ 16 == high * 256 + 255

low_everywhere : passes_upto (λ high. passes_upto (low_test high) 256) 256 ≡ true
unfolding passes_upto
low_everywhere = refl

abbrev high_test : ℕ → Bool
high_test high =
    crc_bits 8 (bit_xor (crc_bits 8 (high * 256 + 255)) (255 - high) % 2 ^ 16) == 0xf0b8

high_everywhere : passes_upto high_test 256 ≡ true
unfolding passes_upto crc_bits crc_bit
high_everywhere = refl

residue_of :
    (high low : ℕ)
    → high < 256
    → low < 256
    → crc_from (high * 256 + low) ((255 - low) ∷ (255 - high) ∷ []) ≡ 0xf0b8
unfolding crc_from crc_byte
residue_of high low h l =
    let row = passes_upto-at (λ x. passes_upto (low_test x) 256) 256 high h low_everywhere in
    let e = (==_iff _ _).0 (passes_upto-at (low_test high) 256 low l row) in
    ap (λ x. crc_bits 8 (bit_xor (crc_bits 8 x) (255 - high) % 2 ^ 16)) e
    ∙ (==_iff _ 0xf0b8).0 (passes_upto-at high_test 256 high h high_everywhere)

crc_bytes_of :
    (high low : ℕ)
    → high < 256
    → low < 256
    → crc_bytes (high * 256 + low) ≡ (255 - low) ∷ (255 - high) ∷ []
crc_bytes_of high low h l =
    let first : (2 ^ 16 - 1 - (high * 256 + low)) % 256 ≡ 255 - low = omega arith in
    let second : (2 ^ 16 - 1 - (high * 256 + low)) / 256 ≡ 255 - high = omega arith in
    rw (first, second) refl

residue_from : (crc : ℕ) → crc < 2 ^ 16 → crc_from crc (crc_bytes crc) ≡ 0xf0b8
residue_from crc h =
    let e : crc / 256 * 256 + crc % 256 ≡ crc = omega arith in
    subst (λ c. crc_from c (crc_bytes c) ≡ 0xf0b8) e
      (rw (crc_bytes_of (crc / 256) (crc % 256) (omega arith) (omega arith))
        (residue_of (crc / 256) (crc % 256) (omega arith) (omega arith)))

-- Data that are followed by the complement of their check sum, the low byte first, have the check sum
-- 0xf0b8, whatever the data are.
pub calculate_crc_residue : (d : List ℕ) → calculate_crc (d ++ crc_bytes (calculate_crc d)) ≡ 0xf0b8
unfolding calculate_crc
calculate_crc_residue d =
    crc_from-append 0xffff d (crc_bytes (crc_from 0xffff d))
    ∙ residue_from (crc_from 0xffff d) (calculate_crc-lt d)

-- A configuration of 50 bytes that is followed by the complement of its check sum is accepted,
-- whatever comes after it in memory.
pub check_crc-residue :
    (d rest : List ℕ)
    → length d ≡ 50
    → check_crc (d ++ (crc_bytes (calculate_crc d) ++ rest)) ≡ true
unfolding check_crc
check_crc-residue d rest l =
    let whole = d ++ crc_bytes (calculate_crc d) in
    let e : length whole ≡ otp_config_size =
      omega (arith, length-append d (crc_bytes (calculate_crc d))) in
    (==_iff _ 0xf0b8).1 (
      ap (λ b. calculate_crc (block otp_config_size b))
        (sym (append_assoc d (crc_bytes (calculate_crc d)) rest))
      ∙ ap calculate_crc (block-append whole rest otp_config_size e)
      ∙ calculate_crc_residue d)
