-- ===== src/Tests/OtpCodes.antt =====
-- Runs of the button: passwords and codes.
use pico_fido_microkey.Base.{
  ℕ, ◌≡◌, ◌+◌, ◌<◌, ◌^◌, refl, arith, true, List, [], ◌∷◌, ◌++◌, block, block-length, read_bytes,
}
use pico_fido_microkey.Sdk.{Contents, ideal_flash-IsFlash}
use pico_fido_microkey.Files.{ef_otp_slot1}
use pico_fido_microkey.Oath.Counter.{AllBytes}
use pico_fido_microkey.Otp.State.{slot_memory, add_keyboard_buffer}
use pico_fido_microkey.Otp.Crc.{calculate_crc, crc_from, crc_byte, crc_bits, crc_bit}
use pico_fido_microkey.Otp.Modhex.{decode_modhex}
use pico_fido_microkey.Otp.Button.{
  use_counter, otp_fields, otp_plain, otp_password, type_yubico, hotp_counter,
}
use pico_fido_microkey.Otp.Counters.{uses, type_yubico-uses}
use pico_fido_microkey.Otp.Password.{line_end, Verifies, type_yubico-Verifies}
use pico_fido_microkey.Tests.OtpToy.{toy_otp, toy-IsUint16, slot_front, slot, slot_files, otp}

-- A slot for Yubico passwords, which ends a line.
abbrev yubico : Contents
yubico = slot_files (slot 0x20 0) []

used_five : use_counter toy_otp (slot_memory toy_otp yubico ef_otp_slot1) ≡ 5
unfolding use_counter
used_five = refl

type_yubico-uses_example :
    uses toy_otp 1 ef_otp_slot1 (type_yubico toy_otp 1 5000 ef_otp_slot1 (otp yubico []))
    ≡ uses toy_otp 1 ef_otp_slot1 (otp yubico []) + 1
type_yubico-uses_example =
    type_yubico-uses toy_otp toy-IsUint16 ideal_flash-IsFlash 1 5000 ef_otp_slot1 (otp yubico [])
      (omega (arith, used_five)) (omega arith)

password_bytes :
    AllBytes (otp_password toy_otp 1 5000 (slot_memory toy_otp yubico ef_otp_slot1) (otp yubico []))
unfolding otp_password otp_plain otp_fields use_counter block read_bytes calculate_crc crc_from
    crc_byte crc_bits crc_bit
password_bytes = ground arith

type_yubico-Verifies_example :
    (keys : List ℕ) × (((type_yubico toy_otp 1 5000 ef_otp_slot1 (otp yubico [])).keyboard
        ≡ add_keyboard_buffer keys true ∷ line_end (slot_memory toy_otp yubico ef_otp_slot1))
      × Verifies toy_otp
          (λ k m. m)
          1
          5000
          (slot_memory toy_otp yubico ef_otp_slot1)
          (decode_modhex keys)
          (otp yubico []))
type_yubico-Verifies_example =
    type_yubico-Verifies toy_otp toy-IsUint16 (λ k m. m) (λ k m e. block-length m 16 e) 1 5000
      ef_otp_slot1 (otp yubico []) (omega (arith, used_five)) password_bytes

-- A slot for counter-based codes, whose counter is 7.
abbrev hotp : Contents
hotp = slot_files (slot_front 0x40 0 ++ 0 ∷ 0 ∷ 0 ∷ 0 ∷ 7 ∷ 0 ∷ 0 ∷ 0 ∷ 0 ∷ 0 ∷ 0 ∷ 0 ∷ []) []

abbrev memory : List ℕ
memory = slot_memory toy_otp hotp ef_otp_slot1

abbrev hotp_chal : List ℕ
hotp_chal = block 8 (toy_otp.oath.put_uint64_t_be (hotp_counter toy_otp memory))

abbrev response : List ℕ
response = 5 ∷ 9 ∷ 3 ∷ 3 ∷ 3 ∷ 3 ∷ []

next_small : hotp_counter toy_otp memory + 1 < 2 ^ 64
unfolding hotp_counter
next_small = omega arith
