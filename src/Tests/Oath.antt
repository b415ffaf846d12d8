-- ===== src/Tests/Oath.antt =====
-- Runs of the OATH application: access and the credential files.
use pico_fido_microkey.Base.{
  ◌≡◌, refl, true, false, some, [], ◌∷◌, block, read_bytes, memcmp_eq, bytes_eq,
}
use pico_fido_microkey.Base.Exec.{is_ok}
use pico_fido_microkey.Sdk.{has_data, ideal_flash-IsFlash}
use pico_fido_microkey.Apdu.{Apdu, apdu_data}
use pico_fido_microkey.Management.{cap_supported}
use pico_fido_microkey.Oath.{oath_command, oath_process_apdu}
use pico_fido_microkey.Oath.State.{tlv_data, get_oath_md_info, sha1}
use pico_fido_microkey.Oath.Creds.{
  has_name, find_from, find_oath_cred, free_from, store_cred, cmd_put,
}
use pico_fido_microkey.Oath.Pin.{is_otp_pin, cmd_verify_otp_pin}
use pico_fido_microkey.Oath.Access.{oath_process_apdu_locked, opens, oath_access_gained}
use pico_fido_microkey.Oath.Store.{Found, cmd_put-Found}
use pico_fido_microkey.Tests.OathToy.{walk, first, toy_oath, command, oath, used_files, give_pin}

oath_process_apdu_locked_example :
    (is_ok (oath_process_apdu toy_oath (command 0xa1 0 0 []) (oath false (used_files 3))).0 ≡ false)
    × ((oath_process_apdu toy_oath (command 0xa1 0 0 []) (oath false (used_files 3))).1
        ≡ oath false (used_files 3))
oath_process_apdu_locked_example =
    oath_process_apdu_locked toy_oath (command 0xa1 0 0 []) (oath false (used_files 3)) refl refl

pin_opens : (oath_process_apdu toy_oath give_pin (oath false (used_files 3))).1.validated ≡ true
unfolding oath_process_apdu cap_supported oath_command cmd_verify_otp_pin block is_otp_pin memcmp_eq
    read_bytes
pin_opens = refl

oath_access_gained_example : opens toy_oath give_pin (oath false (used_files 3)) ≡ true
oath_access_gained_example =
    oath_access_gained toy_oath give_pin (oath false (used_files 3)) refl pin_opens

-- A challenge of two bytes, and an empty response.
abbrev empty_response : Apdu
empty_response = command 0xa3 0 0 (0x74 ∷ 2 ∷ 9 ∷ 9 ∷ 0x75 ∷ 0 ∷ [])

chal_tlv : first (walk 9 (apdu_data empty_response) 0) 0x74 ≡ some (record { offset = 2; len = 2 })
unfolding block
chal_tlv = refl

resp_tlv : first (walk 9 (apdu_data empty_response) 0) 0x75 ≡ some (record { offset = 6; len = 0 })
unfolding block
resp_tlv = refl

code_alg : get_oath_md_info 1 ≡ some sha1
unfolding get_oath_md_info
code_alg = refl

-- A time-based credential of the name "B".
abbrev put_totp : Apdu
put_totp = command 0x01 0 0 (0x71 ∷ 1 ∷ 66 ∷ 0x73 ∷ 4 ∷ 0x21 ∷ 6 ∷ 1 ∷ 2 ∷ [])

key_tlv : first (walk 9 (apdu_data put_totp) 0) 0x73 ≡ some (record { offset = 5; len = 4 })
unfolding block
key_tlv = refl

name_tlv : first (walk 9 (apdu_data put_totp) 0) 0x71 ≡ some (record { offset = 2; len = 1 })
unfolding block
name_tlv = refl

same_name :
    tlv_data (apdu_data put_totp) (record { offset = 2; len = 1 })
    ≡ tlv_data put_totp.buffer (record { offset = 2; len = 1 })
unfolding read_bytes
same_name = refl

put_data : has_data (apdu_data put_totp) ≡ true
unfolding block
put_data = refl

put_runs : is_ok (cmd_put toy_oath put_totp (oath true (used_files 3))).0 ≡ true
unfolding cmd_put block store_cred find_oath_cred find_from has_name read_bytes bytes_eq free_from
put_runs = refl

cmd_put-Found_example :
    Found toy_oath
      (tlv_data put_totp.buffer (record { offset = 2; len = 1 }))
      (apdu_data put_totp)
      (cmd_put toy_oath put_totp (oath true (used_files 3))).1.files
cmd_put-Found_example =
    cmd_put-Found toy_oath ideal_flash-IsFlash put_totp (oath true (used_files 3))
      (record { offset = 5; len = 4 }) (record { offset = 2; len = 1 }) key_tlv name_tlv same_name
      put_data refl put_runs
