-- ===== src/Otp/Challenge.antt =====
-- otp.c, lines 485 to 545: the response of a slot to a challenge.
use pico_fido_microkey.Base.{
  ℕ, zero, suc, Bool, ◌||◌, List, ◌++◌, block, write_bytes, byte_at, ◌==◌, if◌then◌else◌,
}
use pico_fido_microkey.Base.Exec.{pure, gets, modify, guard, fail, ◌>>=◌, ◌>>◌}
use pico_fido_microkey.Sdk.{has_data}
use pico_fido_microkey.Apdu.{wrong_data, conditions_not_satisfied}
use pico_fido_microkey.Otp.State.{
  OtpSdk, Otp, OtpCmd, uid, aes_key, tkt_flags, cfg_flags, chal_resp, hmac_lt64, chal_btn_trig,
  chal_yubico, chal_hmac, has_flag, otp_status,
}

-- The loop that takes the padding off: it stops at the last byte that differs from byte 63.
unfoldable pub unpadded_len : List ℕ → ℕ → ℕ
unpadded_len d zero = 0
unpadded_len d (suc n) =
    let shorter = unpadded_len d n in if byte_at d 63 == byte_at d n then shorter else suc n

-- The length of the challenge: a slot for short messages takes the padding off.
unfoldable pub challenge_length : List ℕ → List ℕ → ℕ
challenge_length file d = if has_flag (cfg_flags file) hmac_lt64 then unpadded_len d 64 else 64

-- A response that was written from `res_APDU` on.
unfoldable pub respond_with : List ℕ → ℕ → Otp → Otp
respond_with d n s = record s { rdata = write_bytes s.rdata 0 (block n d); res_size = n }

abbrev pub set_status : ℕ → Otp → Otp
set_status b s = record s { status_byte = b }

unfoldable pub show_status : ℕ → Otp → Otp
show_status b s = otp_status s.is_otp (set_status b s)

-- The status byte while the button is awaited. `timed_out` is what `wait_button` returns.
unfoldable pub wait_touch : Bool → OtpCmd (Unit {0})
wait_touch timed_out = do
  modify (show_status 0x20)
  if timed_out
      then (do modify (show_status 0x00); fail conditions_not_satisfied)
      else modify (set_status 0x10)

unfoldable pub touch_slot : Bool → List ℕ → OtpCmd (Unit {0})
touch_slot timed_out file =
    if has_flag (cfg_flags file) chal_btn_trig then wait_touch timed_out else pure tt

module _ (sdk : OtpSdk) where
  -- The HMAC-SHA1 of the challenge under the key of 22 bytes.
  unfoldable pub hmac_response : List ℕ → List ℕ → List ℕ
  hmac_response file d =
      sdk.hmac_sha1 (aes_key file ++ uid file) (block (challenge_length file d) d)

  unfoldable pub respond_hmac : List ℕ → OtpCmd (Unit {0})
  respond_hmac file = do
    guard (has_flag (cfg_flags file) chal_hmac) wrong_data
    modify (λ s. respond_with (hmac_response file s.data_in) 20 s)
    modify (set_status 0x00)

  -- Six bytes of challenge and ten of the serial number, encrypted.
  unfoldable pub yubico_response : List ℕ → List ℕ → ℕ × List ℕ
  yubico_response file d =
      sdk.aes_encrypt_ecb (aes_key file) (block 6 d ++ block 10 sdk.oath.serial_str)

  unfoldable pub respond_yubico : List ℕ → OtpCmd (Unit {0})
  respond_yubico file = do
    guard (has_flag (cfg_flags file) chal_yubico) wrong_data
    d ← gets (λ s. s.data_in)
    let (ret, out) = yubico_response file d
    if ret == 0 then (do modify (respond_with out 16); modify (set_status 0x00)) else pure tt

  unfoldable pub answer_challenge : Bool → ℕ → List ℕ → OtpCmd (Unit {0})
  answer_challenge timed_out p1 file = do
    guard (has_flag (tkt_flags file) chal_resp) wrong_data
    touch_slot timed_out file
    if p1 == 0x30 || p1 == 0x38 then respond_hmac file else respond_yubico file

  unfoldable pub calculate_otp : Bool → ℕ → ℕ → OtpCmd (Unit {0})
  calculate_otp timed_out p1 fid = do
    file ← gets (λ s. s.files fid)
    if has_data file then answer_challenge timed_out p1 file else pure tt
