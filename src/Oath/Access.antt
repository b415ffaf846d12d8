-- ===== src/Oath/Access.antt =====
-- Who may use the credentials of oath.c: the flag `validated`.
use pico_fido_microkey.Base.{
  ℕ, ◌≡◌, ◌⊎◌, inl, inr, arith, Bool, true, false, not, ◌&&◌, ◌||◌, none, some, Bool-cases, drop,
  byte_at, memcmp_eq, ◌==◌,
}
use pico_fido_microkey.Base.Exec.{is_ok}
use pico_fido_microkey.Sdk.{has_data}
use pico_fido_microkey.Files.{ef_oath_code}
use pico_fido_microkey.Apdu.{Apdu, apdu_data}
use pico_fido_microkey.Oath.{oath_process_apdu, oath_command}
use pico_fido_microkey.Oath.State.{
  OathSdk, Oath, Md, Tlv, tlv_data, tag_challenge, tag_response, tag_password, get_oath_md_info,
}
use pico_fido_microkey.Oath.Creds.{cmd_put, cmd_delete, cmd_reset, cmd_list, cmd_rename}
use pico_fido_microkey.Oath.Code.{
  cmd_set_code, cmd_validate, validate_with, code_hmac, check_response,
}
use pico_fido_microkey.Oath.Calculate.{
  cmd_calculate, cmd_calculate_all, cmd_verify_hotp, verify_code, append_code,
}
use pico_fido_microkey.Oath.Pin.{
  cmd_set_otp_pin, cmd_change_otp_pin, cmd_verify_otp_pin, refuse_otp_pin, accept_otp_pin,
  is_otp_pin, otp_tries,
}

-- The commands on credentials and on the access code.
abbrev pub needs_access : ℕ → Bool
needs_access ins =
    ins == 0x01
    || ins == 0x02
    || ins == 0x03
    || ins == 0x05
    || ins == 0xa1
    || ins == 0xa2
    || ins == 0xa4

module _ (sdk : OathSdk) where
  -- Without access, a command that puts, deletes, renames, lists or calculates credentials, or that
  -- sets the access code, is refused, and it changes nothing.
  pub oath_process_apdu_locked :
      (a : Apdu) (s : Oath)
      → s.validated ≡ false
      → needs_access a.ins ≡ true
      → (is_ok (oath_process_apdu sdk a s).0 ≡ false) × ((oath_process_apdu sdk a s).1 ≡ s)
  unfolding oath_process_apdu oath_command cmd_put cmd_delete cmd_set_code cmd_rename cmd_list
      cmd_calculate cmd_calculate_all
  oath_process_apdu_locked a s v n = ground arith

  -- Whether a response to the challenge of the card begins with the bytes of the right one, as far as
  -- it goes.
  abbrev pub answers_challenge : Apdu → Oath → Bool
  answers_challenge a s = elim (sdk.find_tag (apdu_data a) tag_response) [
    | none ↦ false
    | some resp ↦ elim (get_oath_md_info (byte_at (s.files ef_oath_code) 0)) [
      | none ↦ false
      | some md ↦
          memcmp_eq (sdk.hmac md (drop 1 (s.files ef_oath_code)) s.challenge).1
            (drop resp.offset a.buffer) resp.len
    ]
  ]

  abbrev pub gives_otp_pin : Apdu → Oath → Bool
  gives_otp_pin a s = elim (sdk.find_tag (apdu_data a) tag_password) [
    | none ↦ false
    | some pw ↦ is_otp_pin sdk (tlv_data a.buffer pw) s.files && not (otp_tries s.files == 0)
  ]

  -- The ways to get access.
  abbrev pub opens : Apdu → Oath → Bool
  opens a s =
      (a.ins == 0x04 && (a.p1 == 0xde && a.p2 == 0xad))
      || (a.ins == 0xa3 && (not (has_data (s.files ef_oath_code)) || answers_challenge a s))
      || (a.ins == 0xb2 && gives_otp_pin a s)

  validate_opens :
      (a : Apdu) (s : Oath)
      → s.validated ≡ false
      → (cmd_validate sdk a s).1.validated ≡ true
      → not (has_data (s.files ef_oath_code)) || answers_challenge a s ≡ true
  unfolding cmd_validate validate_with code_hmac check_response
  validate_opens a s v h = ground arith

  verify_opens :
      (a : Apdu) (s : Oath)
      → s.validated ≡ false
      → (cmd_verify_otp_pin sdk a s).1.validated ≡ true
      → gives_otp_pin a s ≡ true
  unfolding cmd_verify_otp_pin refuse_otp_pin accept_otp_pin
  verify_opens a s v h = ground arith

  reset_opens :
      (a : Apdu) (s : Oath)
      → s.validated ≡ false
      → (cmd_reset sdk a s).1.validated ≡ true
      → a.p1 == 0xde && a.p2 == 0xad ≡ true
  unfolding cmd_reset
  reset_opens a s v h = ground arith

  set_pin_keeps_closed : (a : Apdu) (s : Oath) → (cmd_set_otp_pin sdk a s).1.validated ≡ s.validated
  unfolding cmd_set_otp_pin
  set_pin_keeps_closed a s = ground arith

  change_pin_keeps_closed :
      (a : Apdu) (s : Oath) → (cmd_change_otp_pin sdk a s).1.validated ≡ s.validated
  unfolding cmd_change_otp_pin
  change_pin_keeps_closed a s = ground arith

  verify_hotp_keeps_closed :
      (a : Apdu) (s : Oath) → (cmd_verify_hotp sdk a s).1.validated ≡ s.validated
  unfolding cmd_verify_hotp verify_code append_code
  verify_hotp_keeps_closed a s = ground arith

  closed_command :
      (a : Apdu) (s : Oath)
      → s.validated ≡ false
      → (needs_access a.ins ≡ true) ⊎ (needs_access a.ins ≡ false)
      → (oath_process_apdu sdk a s).1.validated ≡ true
      → opens a s ≡ true
  unfolding oath_process_apdu oath_command
  closed_command a s v (inl n) h = ground (arith, oath_process_apdu_locked a s v n)
  closed_command a s v (inr n) h = ground (
    arith,
    validate_opens a s,
    verify_opens a s,
    reset_opens a s,
    set_pin_keeps_closed a s,
    change_pin_keeps_closed a s,
    verify_hotp_keeps_closed a s,
  )

  -- Access that was not there is gained only by a reset, by a validation when no access code is set or
  -- when the response agrees with the HMAC of the challenge as far as it goes, or by the OTP PIN while
  -- tries are left.
  pub oath_access_gained :
      (a : Apdu) (s : Oath)
      → s.validated ≡ false
      → (oath_process_apdu sdk a s).1.validated ≡ true
      → opens a s ≡ true
  oath_access_gained a s v h = closed_command a s v (Bool-cases (needs_access a.ins)) h

  -- A response of no bytes at all validates, whatever the access code: the length that is compared is
  -- the one that the client gives.
  pub cmd_validate_empty :
      (a : Apdu) (s : Oath) (chal resp : Tlv) (md : Md)
      → sdk.find_tag (apdu_data a) tag_challenge ≡ some chal
      → sdk.find_tag (apdu_data a) tag_response ≡ some resp
      → resp.len ≡ 0
      → has_data (s.files ef_oath_code) ≡ true
      → get_oath_md_info (byte_at (s.files ef_oath_code) 0) ≡ some md
      → (sdk.hmac md (drop 1 (s.files ef_oath_code)) s.challenge).0 ≡ 0
      → (sdk.hmac md (drop 1 (s.files ef_oath_code)) (tlv_data a.buffer chal)).0 ≡ 0
      → (is_ok (cmd_validate sdk a s).0 ≡ true) × ((cmd_validate sdk a s).1.validated ≡ true)
  unfolding cmd_validate validate_with code_hmac check_response memcmp_eq
  cmd_validate_empty a s chal resp md hc hr e d m h1 h2 = ground arith
