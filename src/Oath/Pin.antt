-- ===== src/Oath/Pin.antt =====
-- oath.c, lines 471 to 543: the OTP PIN.
use pico_fido_microkey.Base.{
  ℕ, ◌-◌, Bool, true, false, not, ◌||◌, List, ◌∷◌, block, read_bytes, byte_at, memcmp_eq, ◌==◌,
  if◌then◌else◌,
}
use pico_fido_microkey.Base.Exec.{fail, gets, require, modify, guard, ◌>>=◌, ◌>>◌}
use pico_fido_microkey.Sdk.{Contents, has_data}
use pico_fido_microkey.Files.{ef_otp_pin}
use pico_fido_microkey.Apdu.{
  Apdu, apdu_data, security_status_not_satisfied, incorrect_params, conditions_not_satisfied,
}
use pico_fido_microkey.Oath.State.{
  OathSdk, Oath, Cmd, tlv_data, max_otp_counter, tag_password, tag_new_password, put_file,
}

-- EF_OTP_PIN: the tries left and 32 bytes of the hash.
abbrev pub otp_tries : Contents → ℕ
otp_tries c = byte_at (c ef_otp_pin) 0

abbrev pub otp_hash : Contents → List ℕ
otp_hash c = read_bytes (c ef_otp_pin) 1 32

module _ (sdk : OathSdk) where
  -- The file for a PIN with all tries.
  unfoldable pub otp_pin_data : List ℕ → List ℕ
  otp_pin_data pw = max_otp_counter ∷ block 32 (sdk.double_hash_pin pw)

  -- Whether the password is the PIN.
  unfoldable pub is_otp_pin : List ℕ → Contents → Bool
  is_otp_pin pw c = memcmp_eq (otp_hash c) (sdk.double_hash_pin pw) 32

  unfoldable pub cmd_set_otp_pin : Apdu → Cmd (Unit {0})
  cmd_set_otp_pin a = do
    c ← gets (λ s. s.files)
    guard (not (has_data (c ef_otp_pin))) conditions_not_satisfied
    pw ← require (sdk.find_tag (apdu_data a) tag_password) incorrect_params
    modify (put_file sdk ef_otp_pin (otp_pin_data (tlv_data a.buffer pw)))

  unfoldable pub cmd_change_otp_pin : Apdu → Cmd (Unit {0})
  cmd_change_otp_pin a = do
    c ← gets (λ s. s.files)
    guard (has_data (c ef_otp_pin)) conditions_not_satisfied
    pw ← require (sdk.find_tag (apdu_data a) tag_password) incorrect_params
    guard (is_otp_pin (tlv_data a.buffer pw) c) security_status_not_satisfied
    new_pw ← require (sdk.find_tag (apdu_data a) tag_new_password) incorrect_params
    modify (put_file sdk ef_otp_pin (otp_pin_data (tlv_data a.buffer new_pw)))

  -- A wrong PIN costs a try, if any is left, and takes the access away.
  unfoldable pub refuse_otp_pin : Oath → Oath
  refuse_otp_pin s = record s {
    files = sdk.flash.file_put_data s.files ef_otp_pin ((otp_tries s.files - 1) ∷ otp_hash s.files);
    validated = false;
  }

  unfoldable pub accept_otp_pin : Oath → Oath
  accept_otp_pin s = record s {
    files = sdk.flash.file_put_data s.files ef_otp_pin (max_otp_counter ∷ otp_hash s.files);
    validated = true;
  }

  unfoldable pub cmd_verify_otp_pin : Apdu → Cmd (Unit {0})
  unfolding refuse_otp_pin accept_otp_pin
  cmd_verify_otp_pin a = do
    c ← gets (λ s. s.files)
    guard (has_data (c ef_otp_pin)) conditions_not_satisfied
    pw ← require (sdk.find_tag (apdu_data a) tag_password) incorrect_params
    if otp_tries c == 0 || not (is_otp_pin (tlv_data a.buffer pw) c)
        then (do modify refuse_otp_pin; fail security_status_not_satisfied)
        else modify accept_otp_pin
