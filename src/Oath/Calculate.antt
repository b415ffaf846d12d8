-- ===== src/Oath/Calculate.antt =====
-- oath.c, lines 337 to 465 and 545 to 585: one-time codes.
use pico_fido_microkey.Base.{
  ℕ, zero, suc, ◌+◌, ◌-◌, ◌%◌, ◌^◌, bit_and, Bool, false, not, ◌||◌, none, some, List, [], ◌∷◌,
  ◌++◌, length, drop, block, write_bytes, byte_at, ltb, leb, ◌==◌, if◌then◌else◌,
}
use pico_fido_microkey.Base.Exec.{Result, ok, err, pure, gets, require, modify, guard, ◌>>=◌, ◌>>◌}
use pico_fido_microkey.Sdk.{has_data}
use pico_fido_microkey.Files.{ef_oath_cred}
use pico_fido_microkey.Apdu.{
  Apdu, apdu_data, Sw, security_status_not_satisfied, incorrect_params, incorrect_p1p2,
  data_invalid, exec_error, wrong_data, memory_fault,
}
use pico_fido_microkey.Oath.State.{
  OathSdk, Cmd, Md, Tlv, tlv_data, max_oath_cred, tag_name, tag_key, tag_challenge, tag_response,
  tag_no_response, tag_property, tag_touch_response, tag_imf, is_hotp, get_oath_md_info, put_file,
  answer,
}
use pico_fido_microkey.Oath.Creds.{find_oath_cred}

-- Dynamic truncation: four bytes of the HMAC from where its last byte says, without the top bit.
unfoldable pub truncated : List ℕ → ℕ → List ℕ
truncated hmac size =
    let offset = bit_and (byte_at hmac (size - 1)) 0x0f in
    bit_and (byte_at hmac offset) 0x7f
    ∷ byte_at hmac (offset + 1)
    ∷ byte_at hmac (offset + 2)
    ∷ byte_at hmac (offset + 3)
    ∷ []

module _ (sdk : OathSdk) where
  -- What is appended to the response: the length, the digits `key[1]` and the code or the HMAC.
  unfoldable pub oath_answer : ℕ → List ℕ → Md → List ℕ → List ℕ
  oath_answer truncate key md hmac =
      let size = sdk.md_get_size md in
      if truncate == 0x01
      then 5 ∷ byte_at key 1 ∷ truncated hmac size
      else (size + 1) % 256 ∷ byte_at key 1 ∷ block size hmac

  -- A key shorter than its two bytes of header has no secret: `key_len - 2` wraps around.
  unfoldable pub calculate_oath : ℕ → List ℕ → List ℕ → Result Sw (List ℕ)
  calculate_oath truncate key chal = elim (get_oath_md_info (byte_at key 0)) [
    | none ↦ err incorrect_params
    | some md ↦
        let (r, hmac) = sdk.hmac md (drop 2 key) chal in
        if ltb (length key) 2
        then err memory_fault
        else if r == 0
        then ok (oath_answer truncate key md hmac)
        else err exec_error
  ]

  -- `ret != PICOKEY_OK`: every failure becomes SW_EXEC_ERROR.
  abbrev pub to_exec_error : Sw → Sw
  to_exec_error memory_fault = memory_fault
  to_exec_error incorrect_params = exec_error
  to_exec_error _ = exec_error

  unfoldable pub append_code : ℕ → List ℕ → List ℕ → Cmd (Unit {0})
  append_code truncate key chal s = elim (calculate_oath truncate key chal) [
    | ok d ↦ (ok tt, answer d s)
    | err e ↦ (err (to_exec_error e), s)
  ]

  -- The moving factor of a HOTP credential is incremented in its file. It takes 8 bytes, whatever
  -- length the file gives it.
  unfoldable pub next_hotp : ℕ → Tlv → Cmd (Unit {0})
  next_hotp fid imf = do
    c ← gets (λ s. s.files)
    guard (leb (imf.offset + 8) (length (c fid))) memory_fault
    let v = (sdk.get_uint64_t_be (drop imf.offset (c fid)) + 1) % 2 ^ 64
    modify (put_file sdk fid (write_bytes (c fid) imf.offset (block 8 (sdk.put_uint64_t_be v))))

  -- One code or HMAC, after its tag.
  unfoldable pub respond : ℕ → List ℕ → List ℕ → Cmd (Unit {0})
  unfolding append_code
  respond p2 key chal = do modify (answer ((tag_response + p2) % 256 ∷ [])); append_code p2 key chal

  -- A time-based code is for the challenge of the client, a counter-based one for the counter.
  unfoldable pub calculate_with : Apdu → ℕ → Tlv → Tlv → Cmd (Unit {0})
  unfolding respond append_code next_hotp
  calculate_with a fid key chal = do
    c ← gets (λ s. s.files)
    if is_hotp (byte_at (c fid) key.offset)
        then (do
          imf ← require (sdk.find_tag (c fid) tag_imf) incorrect_params
          respond a.p2 (tlv_data (c fid) key) (tlv_data (c fid) imf)
          next_hotp fid imf)
        else respond a.p2 (tlv_data (c fid) key) (tlv_data a.buffer chal)

  unfoldable pub cmd_calculate : Apdu → Cmd (Unit {0})
  cmd_calculate a = do
    guard (a.p2 == 0 || a.p2 == 1) incorrect_p1p2
    validated ← gets (λ s. s.validated)
    guard validated security_status_not_satisfied
    chal ← require (sdk.find_tag (apdu_data a) tag_challenge) incorrect_params
    name ← require (sdk.find_tag (apdu_data a) tag_name) incorrect_params
    c ← gets (λ s. s.files)
    fid ← require (find_oath_cred sdk (tlv_data a.buffer name) c) data_invalid
    key ← require (sdk.find_tag (c fid) tag_key) incorrect_params
    calculate_with a fid key chal

  -- Whether the credential wants a touch.
  unfoldable pub wants_touch : List ℕ → Bool
  wants_touch file = elim (sdk.find_tag file tag_property) [
    | none ↦ false
    | some prop ↦ not (bit_and (byte_at file prop.offset) 0x02 == 0)
  ]

  -- What follows the name of a credential: the code, or why there is none.
  unfoldable pub code_entry : ℕ → List ℕ → Tlv → List ℕ → Result Sw (List ℕ)
  code_entry p2 file key chal =
      let digits = byte_at file (key.offset + 1) in
      if is_hotp (byte_at file key.offset)
      then ok (tag_no_response ∷ 1 ∷ digits ∷ [])
      else if wants_touch file
      then ok (tag_touch_response ∷ 1 ∷ digits ∷ [])
      else elim (calculate_oath p2 (tlv_data file key) chal) [
        | ok d ↦ ok ((tag_response + p2) % 256 ∷ d)
        | err memory_fault ↦ err memory_fault
        | err _ ↦ ok ((tag_response + p2) % 256 ∷ 1 ∷ digits ∷ [])
      ]

  -- One round of the loop, for a file with data.
  unfoldable pub calculate_entry : ℕ → List ℕ → List ℕ → Result Sw (List ℕ)
  calculate_entry p2 file chal = elim (sdk.find_tag file tag_name) [
    | none ↦ ok []
    | some name ↦ elim (sdk.find_tag file tag_key) [
      | none ↦ ok []
      | some key ↦ elim (code_entry p2 file key chal) [
        | ok d ↦ ok (tag_name ∷ name.len % 256 ∷ (tlv_data file name ++ d))
        | err e ↦ err e
      ]
    ]
  ]

  unfoldable pub calculate_from : ℕ → ℕ → ℕ → List ℕ → Cmd (Unit {0})
  calculate_from zero i p2 chal = pure tt
  calculate_from (suc n) i p2 chal = do
    c ← gets (λ s. s.files)
    d ← (λ s. (
      if has_data (c (ef_oath_cred + i))
          then calculate_entry p2 (c (ef_oath_cred + i)) chal
          else ok [],
      s,
    ))
    modify (answer d)
    calculate_from n (i + 1) p2 chal

  unfoldable pub cmd_calculate_all : Apdu → Cmd (Unit {0})
  cmd_calculate_all a = do
    guard (a.p2 == 0 || a.p2 == 1) incorrect_p1p2
    validated ← gets (λ s. s.validated)
    guard validated security_status_not_satisfied
    chal ← require (sdk.find_tag (apdu_data a) tag_challenge) incorrect_params
    modify λ s. record s { res = [] }
    calculate_from max_oath_cred 0 a.p2 (tlv_data a.buffer chal)

  -- The code that the command carries; 0 if it carries none.
  unfoldable pub given_code : Apdu → ℕ
  given_code a = elim (sdk.find_tag (apdu_data a) tag_response) [
    | none ↦ 0
    | some code ↦ sdk.get_uint32_t_be (drop code.offset a.buffer)
  ]

  -- The number in the response, with 6 digits or with 8.
  unfoldable pub response_code : List ℕ → ℕ
  response_code res =
      let n = sdk.get_uint32_t_be (drop 2 res) in
      if byte_at res 1 == 6 then n % 1000000 else n % 100000000

  unfoldable pub verify_code : Apdu → List ℕ → Tlv → Cmd (Unit {0})
  unfolding append_code
  verify_code a file key = do
    guard (is_hotp (byte_at file key.offset)) data_invalid
    imf ← require (sdk.find_tag file tag_imf) incorrect_params
    append_code 0x01 (tlv_data file key) (tlv_data file imf)
    res ← gets (λ s. s.res)
    guard (response_code res == given_code a) wrong_data
    modify λ s. record s { res = [] }

  unfoldable pub cmd_verify_hotp : Apdu → Cmd (Unit {0})
  cmd_verify_hotp a = do
    name ← require (sdk.find_tag (apdu_data a) tag_name) incorrect_params
    c ← gets (λ s. s.files)
    fid ← require (find_oath_cred sdk (tlv_data a.buffer name) c) data_invalid
    key ← require (sdk.find_tag (c fid) tag_key) incorrect_params
    verify_code a (c fid) key
