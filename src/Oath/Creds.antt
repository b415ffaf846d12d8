-- ===== src/Oath/Creds.antt =====
-- oath.c, lines 116 to 191, 252 to 288 and 587 to 627: the credentials. Credential `i` is the file
-- EF_OATH_CRED + i.
use pico_fido_microkey.Base.{
  ℕ, zero, suc, ◌+◌, ◌-◌, ◌%◌, Bool, true, false, not, ◌&&◌, Option, none, some, List, [], ◌∷◌,
  ◌++◌, length, drop, replicate, block, write_bytes, byte_at, bytes_eq, memcmp_eq, ltb, ◌==◌,
  if◌then◌else◌,
}
use pico_fido_microkey.Base.Exec.{gets, require, modify, guard, ◌>>=◌, ◌>>◌}
use pico_fido_microkey.Sdk.{Contents, has_data}
use pico_fido_microkey.Files.{ef_oath_cred, ef_oath_code, ef_otp_pin}
use pico_fido_microkey.Apdu.{
  Apdu, apdu_data, security_status_not_satisfied, incorrect_params, incorrect_p1p2, data_invalid,
  file_full, wrong_data,
}
use pico_fido_microkey.Oath.State.{
  OathSdk, Oath, Cmd, Tlv, tlv_data, max_oath_cred, tag_name, tag_name_list, tag_key, tag_imf,
  is_hotp, put_file, remove_file, answer,
}

module _ (sdk : OathSdk) where
  -- The test in the loop of `find_oath_cred`.
  unfoldable pub has_name : List ℕ → List ℕ → Bool
  has_name file name = has_data file && elim (sdk.find_tag file tag_name) [
    | none ↦ false
    | some t ↦ t.len == length name && bytes_eq (tlv_data file t) name
  ]

  -- The loop from credential `i` on, with the rounds left.
  unfoldable pub find_from : ℕ → ℕ → List ℕ → Contents → Option ℕ
  find_from zero i name c = none
  find_from (suc n) i name c =
      let rest = find_from n (i + 1) name c in
      if has_name (c (ef_oath_cred + i)) name then some (ef_oath_cred + i) else rest

  -- `find_oath_cred`: the identifier of the file.
  unfoldable pub find_oath_cred : List ℕ → Contents → Option ℕ
  find_oath_cred name c = find_from max_oath_cred 0 name c

  -- The first credential file with no data, from `i` on.
  unfoldable pub free_from : ℕ → ℕ → Contents → Option ℕ
  free_from zero i c = none
  free_from (suc n) i c =
      let rest = free_from n (i + 1) c in
      if has_data (c (ef_oath_cred + i)) then rest else some (ef_oath_cred + i)

  -- A moving factor of fewer than 8 bytes is moved to the end of 8, in place.
  unfoldable pub pad_imf : Tlv → Apdu → Apdu
  pad_imf imf a =
      let moved = write_bytes a.buffer (imf.offset + (8 - imf.len)) (tlv_data a.buffer imf) in
      let zeroed = write_bytes moved imf.offset (replicate (8 - imf.len) 0) in
      record a { buffer = write_bytes zeroed (imf.offset - 1) (8 ∷ []); nc = a.nc + (8 - imf.len) }

  -- A HOTP credential gets a moving factor of 8 bytes.
  unfoldable pub with_imf : Apdu → Apdu
  unfolding pad_imf
  with_imf a = elim (sdk.find_tag (apdu_data a) tag_imf) [
    | none ↦ record a {
      buffer = write_bytes a.buffer a.nc (0x7a ∷ 0x08 ∷ 0 ∷ 0 ∷ 0 ∷ 0 ∷ 0 ∷ 0 ∷ 0 ∷ 0 ∷ []);
      nc = a.nc + 10;
    }
    | some imf ↦ if ltb imf.len 8 then pad_imf imf a else a
  ]

  -- An old credential of that name is overwritten; a new one takes the first free file.
  unfoldable pub store_cred : List ℕ → List ℕ → Cmd (Unit {0})
  store_cred name d = do
    c ← gets (λ s. s.files)
    fid ←
        require
          (elim (find_oath_cred name c) [
            | some fid ↦ some fid
            | none ↦ free_from max_oath_cred 0 c
          ])
          file_full
    modify (put_file sdk fid d)

  unfoldable pub cmd_put : Apdu → Cmd (Unit {0})
  cmd_put a = do
    validated ← gets (λ s. s.validated)
    guard validated security_status_not_satisfied
    key ← require (sdk.find_tag (apdu_data a) tag_key) incorrect_params
    name ← require (sdk.find_tag (apdu_data a) tag_name) incorrect_params
    let a' = (if is_hotp (byte_at a.buffer key.offset) then with_imf a else a)
    store_cred (tlv_data a'.buffer name) (apdu_data a')

  unfoldable pub cmd_delete : Apdu → Cmd (Unit {0})
  cmd_delete a = do
    validated ← gets (λ s. s.validated)
    guard validated security_status_not_satisfied
    name ← require (sdk.find_tag (apdu_data a) tag_name) incorrect_params
    c ← gets (λ s. s.files)
    fid ← require (find_oath_cred (tlv_data a.buffer name) c) data_invalid
    modify (remove_file sdk fid)

  -- `for` over the credentials: those with data are deleted.
  unfoldable pub reset_from : ℕ → ℕ → Oath → Oath
  reset_from zero i s = s
  reset_from (suc n) i s =
      reset_from n (i + 1)
        (if has_data (s.files (ef_oath_cred + i)) then remove_file sdk (ef_oath_cred + i) s else s)

  -- `flash_clear_file` leaves the file with no data.
  unfoldable pub cmd_reset : Apdu → Cmd (Unit {0})
  cmd_reset a = do
    guard (a.p1 == 0xde && a.p2 == 0xad) incorrect_p1p2
    modify (reset_from max_oath_cred 0)
    modify (remove_file sdk ef_oath_code)
    modify (remove_file sdk ef_otp_pin)
    modify λ s. record s { validated = true }

  -- One entry of the list, for a credential with a name and a key.
  unfoldable pub list_entry : List ℕ → List ℕ
  list_entry file = elim (sdk.find_tag file tag_name) [
    | none ↦ []
    | some name ↦ elim (sdk.find_tag file tag_key) [
      | none ↦ []
      | some key ↦
          tag_name_list ∷ (name.len + 1) % 256 ∷ byte_at file key.offset ∷ tlv_data file name
    ]
  ]

  unfoldable pub list_from : ℕ → ℕ → Contents → List ℕ
  list_from zero i c = []
  list_from (suc n) i c =
      (if has_data (c (ef_oath_cred + i)) then list_entry (c (ef_oath_cred + i)) else [])
      ++ list_from n (i + 1) c

  unfoldable pub cmd_list : Cmd (Unit {0})
  cmd_list = do
    validated ← gets (λ s. s.validated)
    guard validated security_status_not_satisfied
    modify λ s. answer (list_from max_oath_cred 0 s.files) s

  -- The file with its name replaced.
  unfoldable pub renamed : List ℕ → Tlv → List ℕ → List ℕ
  renamed file name new_name =
      write_bytes (block name.offset file) (name.offset - 1) (length new_name % 256 ∷ [])
      ++ (new_name ++ drop (name.offset + name.len) file)

  unfoldable pub cmd_rename : Apdu → Cmd (Unit {0})
  cmd_rename a = do
    validated ← gets (λ s. s.validated)
    guard validated security_status_not_satisfied
    guard (byte_at a.buffer 0 == tag_name) wrong_data
    name ← require (sdk.find_tag (apdu_data a) tag_name) wrong_data
    let rest = drop (name.offset + name.len) (apdu_data a)
    new_name ← require (sdk.find_tag rest tag_name) wrong_data
    let new = drop (name.offset + name.len + new_name.offset) a.buffer
    guard (not (memcmp_eq (tlv_data a.buffer name) new name.len)) wrong_data
    c ← gets (λ s. s.files)
    fid ← require (find_oath_cred (tlv_data a.buffer name) c) data_invalid
    old ← require (sdk.find_tag (c fid) tag_name) wrong_data
    modify (put_file sdk fid (renamed (c fid) old (tlv_data rest new_name)))
