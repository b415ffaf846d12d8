-- ===== src/Oath/Code.antt =====
-- oath.c, lines 206 to 250 and 290 to 335: the access code.
use pico_fido_microkey.Base.{
  ℕ, ◌+◌, true, false, List, ◌∷◌, drop, block, byte_at, memcmp_eq, leb, ◌==◌, if◌then◌else◌,
}
use pico_fido_microkey.Base.Exec.{pure, fail, gets, require, modify, guard, ◌>>=◌, ◌>>◌}
use pico_fido_microkey.Sdk.{has_data}
use pico_fido_microkey.Files.{ef_oath_code}
use pico_fido_microkey.Apdu.{
  Apdu, apdu_data, security_status_not_satisfied, incorrect_params, data_invalid, exec_error,
  memory_fault,
}
use pico_fido_microkey.Oath.State.{
  OathSdk, Oath, Cmd, Md, Tlv, tlv_data, tag_key, tag_challenge, tag_response, get_oath_md_info,
  put_file, remove_file, answer, challenge_len,
}

module _ (sdk : OathSdk) where
  -- A fresh challenge.
  unfoldable pub new_challenge : Oath → Oath
  new_challenge s = record s {
    challenge = block challenge_len (sdk.random_gen s.draws challenge_len);
    draws = s.draws + 1;
  }

  -- The HMAC of a challenge under a stored or given key, whose first byte names the hash.
  unfoldable pub code_hmac : Md → List ℕ → List ℕ → Cmd (List ℕ)
  code_hmac md key chal = do
    let (r, hmac) = sdk.hmac md (drop 1 key) chal
    guard (r == 0) exec_error
    pure hmac

  -- `memcmp(hmac, resp.data, resp.len)`, where `hmac` has 64 bytes.
  unfoldable pub check_response : Apdu → Tlv → List ℕ → Cmd (Unit {0})
  check_response a resp hmac = do
    guard (leb resp.len 64) memory_fault
    guard (memcmp_eq hmac (drop resp.offset a.buffer) resp.len) data_invalid

  -- No access code: everything is allowed.
  unfoldable pub remove_code : Oath → Oath
  remove_code s = record (remove_file sdk ef_oath_code s) { validated = true }

  unfoldable pub install_code : Apdu → Tlv → Cmd (Unit {0})
  unfolding code_hmac check_response new_challenge
  install_code a key = do
    chal ← require (sdk.find_tag (apdu_data a) tag_challenge) incorrect_params
    resp ← require (sdk.find_tag (apdu_data a) tag_response) incorrect_params
    md ← require (get_oath_md_info (byte_at a.buffer key.offset)) incorrect_params
    hmac ← code_hmac md (tlv_data a.buffer key) (tlv_data a.buffer chal)
    check_response a resp hmac
    modify new_challenge
    modify (put_file sdk ef_oath_code (tlv_data a.buffer key))
    modify λ s. record s { validated = false }

  unfoldable pub cmd_set_code : Apdu → Cmd (Unit {0})
  cmd_set_code a = do
    validated ← gets (λ s. s.validated)
    guard validated security_status_not_satisfied
    if a.nc == 0 then modify remove_code else (do
      key ← require (sdk.find_tag (apdu_data a) tag_key) incorrect_params
      if key.len == 0 then modify remove_code else install_code a key)

  -- The response to the challenge of the client.
  abbrev pub validated_answer : Md → List ℕ → Oath → Oath
  validated_answer md hmac s =
      answer (tag_response ∷ sdk.md_get_size md ∷ block (sdk.md_get_size md) hmac)
        (record s { validated = true })

  unfoldable pub validate_with : Apdu → Tlv → Tlv → List ℕ → Cmd (Unit {0})
  unfolding code_hmac check_response
  validate_with a chal resp key = do
    md ← require (get_oath_md_info (byte_at key 0)) incorrect_params
    challenge ← gets (λ s. s.challenge)
    expected ← code_hmac md key challenge
    check_response a resp expected
    hmac ← code_hmac md key (tlv_data a.buffer chal)
    modify (validated_answer md hmac)

  unfoldable pub cmd_validate : Apdu → Cmd (Unit {0})
  cmd_validate a = do
    chal ← require (sdk.find_tag (apdu_data a) tag_challenge) incorrect_params
    resp ← require (sdk.find_tag (apdu_data a) tag_response) incorrect_params
    c ← gets (λ s. s.files)
    if has_data (c ef_oath_code)
        then validate_with a chal resp (c ef_oath_code)
        else (do modify (λ s. record s { validated = true }); fail data_invalid)
