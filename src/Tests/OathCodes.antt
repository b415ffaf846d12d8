-- ===== src/Tests/OathCodes.antt =====
-- Runs of the OATH application: codes and the OTP PIN.
use pico_fido_microkey.Base.{
  ◌≡◌, refl, true, false, some, [], ◌∷◌, ◌++◌, replicate, block, read_bytes, memcmp_eq,
}
use pico_fido_microkey.Base.Exec.{err, is_ok}
use pico_fido_microkey.Sdk.{ideal_flash-IsFlash}
use pico_fido_microkey.Files.{ef_oath_cred}
use pico_fido_microkey.Apdu.{Apdu, apdu_data, wrong_data}
use pico_fido_microkey.Oath.State.{Tlv, get_oath_md_info}
use pico_fido_microkey.Oath.Calculate.{
  truncated, oath_answer, response_code, given_code, calculate_oath, calculate_with, verify_code,
}
use pico_fido_microkey.Oath.Pin.{is_otp_pin, cmd_set_otp_pin, cmd_verify_otp_pin}
use pico_fido_microkey.Oath.Counter.{Moved, calculate_with-Moved}
use pico_fido_microkey.Oath.Tries.{Tried, password_is_pin, cmd_verify_otp_pin-Tried}
use pico_fido_microkey.Tests.Toy.{bytes_ok}
use pico_fido_microkey.Tests.OathToy.{
  walk, first, toy_oath, command, oath, hotp_file, used_files, no_files, toy-IsUint64Be, give_pin,
}

secret_bytes : bytes_ok (replicate 19 200 ++ 3 ∷ []) ≡ true
secret_bytes = refl

abbrev calc : Apdu
calc = command 0xa2 0 1 (0x74 ∷ 0 ∷ 0x71 ∷ 1 ∷ 65 ∷ [])

abbrev key_tlv : Tlv
key_tlv = record { offset = 5; len = 4 }

abbrev hotp_imf : Tlv
hotp_imf = record { offset = 11; len = 8 }

calc_runs :
    is_ok
      (calculate_with toy_oath calc ef_oath_cred key_tlv
        (record { offset = 2; len = 0 })
        (oath true (used_files 3))).0
    ≡ true
unfolding calculate_with calculate_oath get_oath_md_info read_bytes
calc_runs = refl

calculate_with-Moved_example :
    Moved toy_oath calc ef_oath_cred key_tlv hotp_imf
      (oath true (used_files 3))
      (calculate_with toy_oath calc ef_oath_cred key_tlv
        (record { offset = 2; len = 0 })
        (oath true (used_files 3))).1
calculate_with-Moved_example =
    calculate_with-Moved toy_oath ideal_flash-IsFlash toy-IsUint64Be calc ef_oath_cred key_tlv
      (record { offset = 2; len = 0 }) hotp_imf (oath true (used_files 3)) refl refl calc_runs

-- A verification of the name "A" that carries no code.
abbrev check_hotp : Apdu
check_hotp = command 0xb1 0 0 (0x71 ∷ 1 ∷ 65 ∷ [])

wrong_code :
    (verify_code toy_oath check_hotp hotp_file key_tlv (oath false (used_files 3))).0
    ≡ err wrong_data
unfolding verify_code calculate_oath get_oath_md_info read_bytes response_code oath_answer truncated
    given_code
wrong_code = refl

cmd_verify_otp_pin-Tried_example :
    Tried toy_oath give_pin
      (oath false (used_files 3))
      (cmd_verify_otp_pin toy_oath give_pin (oath false (used_files 3))).0
      (cmd_verify_otp_pin toy_oath give_pin (oath false (used_files 3))).1
cmd_verify_otp_pin-Tried_example =
    cmd_verify_otp_pin-Tried toy_oath ideal_flash-IsFlash give_pin (oath false (used_files 3))

abbrev new_otp_pin : Apdu
new_otp_pin = command 0xb3 0 0 (0x80 ∷ 2 ∷ 5 ∷ 5 ∷ 0x81 ∷ 1 ∷ 6 ∷ [])

right_password : password_is_pin toy_oath new_otp_pin (used_files 0) ≡ true
unfolding is_otp_pin memcmp_eq read_bytes
right_password = refl

new_password_tlv :
    first (walk 9 (apdu_data new_otp_pin) 0) 0x81 ≡ some (record { offset = 6; len = 1 })
unfolding block
new_password_tlv = refl

pin_set : is_ok (cmd_set_otp_pin toy_oath give_pin (oath false no_files)).0 ≡ true
unfolding cmd_set_otp_pin block
pin_set = refl
