-- ===== src/Otp/Crc.antt =====
-- otp.c, lines 188 to 201 and 383 to 386: the check sum of a configuration and of a frame.
use pico_fido_microkey.Base.{
  ℕ, zero, suc, ◌/◌, ◌%◌, ◌^◌, bit_xor, Bool, List, [], ◌∷◌, block, ◌==◌, if◌then◌else◌,
}
use pico_fido_microkey.Otp.State.{otp_config_size}

-- One bit of the inner loop, on a number of 16 bits.
unfoldable pub crc_bit : ℕ → ℕ
crc_bit crc = if crc % 2 == 1 then bit_xor (crc / 2) 0x8408 % 2 ^ 16 else crc / 2

unfoldable pub crc_bits : ℕ → ℕ → ℕ
crc_bits zero crc = crc
crc_bits (suc n) crc = crc_bits n (crc_bit crc)

unfoldable pub crc_byte : ℕ → ℕ → ℕ
crc_byte crc x = crc_bits 8 (bit_xor crc x % 2 ^ 16)

-- The outer loop.
unfoldable pub crc_from : ℕ → List ℕ → ℕ
crc_from crc [] = crc
crc_from crc (x ∷ d) = crc_from (crc_byte crc x) d

unfoldable pub calculate_crc : List ℕ → ℕ
calculate_crc d = crc_from 0xffff d

unfoldable pub check_crc : List ℕ → Bool
check_crc d = calculate_crc (block otp_config_size d) == 0xf0b8
