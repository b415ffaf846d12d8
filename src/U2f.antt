-- ===== src/U2f.antt =====
-- cmd_register.c, cmd_authenticate.c and cmd_version.c: the U2F commands.
use pico_fido_microkey.Base.{
  ℕ, ◌+◌, ◌/◌, ◌%◌, ◌^◌, Bool, true, false, not, ◌&&◌, ◌||◌, Option, none, some, List, [], ◌∷◌,
  ◌++◌, block, drop, replicate, read_bytes, byte_at, memcmp_eq, ltb, ◌==◌, if◌then◌else◌,
}
use pico_fido_microkey.Base.Exec.{
  Exec, Result, ok, err, or_err, gets, require, guard, modify, pure, ◌>>=◌, ◌>>◌,
}
use pico_fido_microkey.Apdu.{
  Apdu, Sw, wrong_length, wrong_data, incorrect_params, conditions_not_satisfied, exec_error,
  data_invalid, channel_busy, cla_not_supported, ins_not_supported,
}
use pico_fido_microkey.Files.{ef_counter, ef_ee_dev}
use pico_fido_microkey.Keys.{
  Fido, KeySdk, key_path_entries, load_keydev, derive_new_key, derive_old_key, handle_tag, is_path,
}
use pico_fido_microkey.Credential.{CredSdk, open_credential}
pub mod Counter
pub mod Draws
pub mod Registered

-- What the U2F commands need beyond CredSdk.
pub record U2fSdk : Type 0 where
  pub cred : CredSdk
  -- whether ENABLE_EMULATION is defined
  pub emulation : Bool
  -- `mbedtls_ecp_point_write_binary` of the public key of a private key
  pub point : List ℕ → ℕ × List ℕ
  -- `mbedtls_ecdsa_write_signature` with a private key, for a hash
  pub sign : List ℕ → List ℕ → ℕ × List ℕ
  -- `mbedtls_ecp_write_key_ext` for a key that was not read
  pub unread : ℕ × List ℕ
  -- `fido_load_key` on P-256: the private key
  pub load_key : Fido → List ℕ → Option (List ℕ)
  pub get_uint32_t_le : List ℕ → ℕ
  pub put_uint32_t_be : ℕ → List ℕ

abbrev pub U2fCmd : Type 0
U2fCmd = Exec Fido Sw (List ℕ)

-- Applications that browsers ask for when they want a touch only.
unfoldable pub is_bogus : List ℕ → Bool
is_bogus app_id = memcmp_eq app_id (replicate 32 0x00) 32 || memcmp_eq app_id (replicate 32 0x41) 32

-- A counter of 32 bits as it lies in memory.
unfoldable pub counter_bytes : ℕ → List ℕ
counter_bytes n = n % 256 ∷ (n / 256) % 256 ∷ (n / 65536) % 256 ∷ (n / 16777216) % 256 ∷ []

-- "U2F_V2"
unfoldable pub cmd_version : U2fCmd
cmd_version = pure (85 ∷ 50 ∷ 70 ∷ 95 ∷ 86 ∷ 50 ∷ [])

-- What the attestation key signs.
unfoldable pub register_base : List ℕ → List ℕ → List ℕ → List ℕ → List ℕ
register_base app_id chal handle point =
    0x00 ∷ (block 32 app_id ++ (block 32 chal ++ (block 64 handle ++ block 65 point)))

abbrev pub presence_flag : ℕ → ℕ
presence_flag p1 = if p1 == 3 then 1 else 0

module _ (sdk : U2fSdk) where
  abbrev keys : KeySdk
  keys = sdk.cred.keys

  -- `derive_key` with `new_key` and a key: the handle, and the private key of its path.
  unfoldable pub made_key : List ℕ → Fido → Option (List ℕ × List ℕ)
  made_key app_id s = elim (derive_new_key keys app_id s) [
    | none ↦ none
    | some handle ↦ elim (derive_old_key keys handle s) [
      | none ↦ none
      | some key ↦ some (handle, key)
    ]
  ]

  -- The signature of the key of the device.
  unfoldable pub attest : Fido → List ℕ → Option (List ℕ)
  attest s m =
      let (ret, hash) = keys.crypto.sha256 m in
      let (loaded, key) = load_keydev keys s (replicate 32 0) in
      let (signed, sig) = sdk.sign (block 32 key) (block 32 hash) in
      if ret == 0 && (loaded && (keys.ecp_read_key (block 32 key) == 0 && signed == 0))
      then some sig
      else none

  -- `timeout` is what `wait_button_pressed` returns.
  unfoldable pub cmd_register : Bool → Apdu → U2fCmd
  cmd_register timeout a = do
    guard (a.nc == 64) wrong_length
    guard (not timeout) conditions_not_satisfied
    let chal = block 32 a.buffer
    let app_id = read_bytes a.buffer 32 32
    guard (not (is_bogus app_id)) (if sdk.emulation then data_invalid else channel_busy)
    s ← gets (λ s. s)
    made ← require (made_key app_id s) exec_error
    modify
        (λ t. record t { device = record t.device { draws = t.device.draws + key_path_entries } })
    let (ret, point) = sdk.point made.1
    guard (ret == 0) exec_error
    sig ← require (attest s (register_base app_id chal made.0 point)) exec_error
    pure (0x05 ∷ (block 65 point ++ (64 ∷ (made.0 ++ (s.device.files ef_ee_dev ++ sig)))))

  unfoldable pub written : Option (List ℕ) → ℕ × List ℕ
  written none = sdk.unread
  written (some key) = keys.ecp_write_key key

  -- `verify_key` with the key that was derived, or not, and the return code of `derive_key`.
  unfoldable pub handle_key : List ℕ → List ℕ → Fido → Result Sw (List ℕ)
  handle_key app_id handle s =
      let key = derive_old_key keys handle s in
      let (ret, d) = written key in
      if is_path keys key_path_entries handle
        && (ret == 0 && memcmp_eq (drop 32 handle) (handle_tag keys d app_id handle) 32)
      then or_err key exec_error
      else err incorrect_params

  -- The key for a handle: that of a credential, or of a handle of U2F.
  unfoldable pub key_for : List ℕ → List ℕ → ℕ → Fido → Result Sw (List ℕ)
  key_for app_id handle len s = elim (open_credential sdk.cred s (block len handle) app_id) [
    | ok plain ↦ or_err (sdk.load_key s handle) exec_error
    | err e ↦ handle_key app_id handle s
  ]

  unfoldable pub get_sign_counter : Fido → ℕ
  get_sign_counter s = sdk.get_uint32_t_le (s.device.files ef_counter)

  -- What is signed.
  unfoldable pub authenticate_base : List ℕ → ℕ → ℕ → List ℕ → List ℕ
  authenticate_base app_id p1 ctr chal =
      block 32 app_id ++ (presence_flag p1 ∷ (block 4 (sdk.put_uint32_t_be ctr) ++ block 32 chal))

  unfoldable pub signed : List ℕ → List ℕ → Option (List ℕ)
  signed key m =
      let (ret, hash) = keys.crypto.sha256 m in
      let (code, sig) = sdk.sign key (block 32 hash) in
      if ret == 0 && code == 0 then some sig else none

  -- The counter that was signed, plus one.
  unfoldable pub advance_counter : ℕ → Fido → Fido
  advance_counter ctr s = record s {
    device = record s.device {
      files =
          keys.crypto.flash.file_put_data s.device.files ef_counter
            (counter_bytes ((ctr + 1) % 2 ^ 32));
    };
  }

  -- The length of the handle is not compared with that of the request.
  unfoldable pub cmd_authenticate : Bool → Apdu → U2fCmd
  cmd_authenticate timeout a = do
    guard (not (ltb a.nc 66)) wrong_data
    let chal = block 32 a.buffer
    let app_id = read_bytes a.buffer 32 32
    let len = byte_at a.buffer 64
    let handle = drop 65 a.buffer
    guard (not (ltb len 64)) incorrect_params
    guard (not (a.p1 == 3 && timeout)) conditions_not_satisfied
    s ← gets (λ s. s)
    key ← (λ t. (key_for app_id handle len t, t))
    guard (not (a.p1 == 7)) conditions_not_satisfied
    let ctr = get_sign_counter s
    sig ← require (signed key (authenticate_base app_id a.p1 ctr chal)) exec_error
    modify (advance_counter ctr)
    pure (presence_flag a.p1 ∷ (block 4 (sdk.put_uint32_t_be ctr) ++ sig))

  -- `u2f_process_apdu`; `enabled` is `cap_supported(CAP_U2F)`.
  unfoldable pub u2f_process_apdu : Bool → Bool → Apdu → U2fCmd
  u2f_process_apdu enabled timeout a = do
    guard (a.cla == 0) cla_not_supported
    guard enabled ins_not_supported
    if a.ins == 1
        then cmd_register timeout a
        else if a.ins == 2
        then cmd_authenticate timeout a
        else if a.ins == 3
        then cmd_version
        else λ s. (err ins_not_supported, s)
