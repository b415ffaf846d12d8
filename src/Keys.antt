-- ===== src/Keys.antt =====
-- fido.c, lines 199 to 307: the key of the device, and the keys that are derived from it for key
-- handles.
use pico_fido_microkey.Base.{
  ℕ, zero, suc, ◌+◌, ◌*◌, bit_or, bit_and, Bool, true, false, not, ◌&&◌, Option, none, some, List,
  [], ◌∷◌, ◌++◌, block, drop, replicate, read_bytes, write_bytes, memcmp_eq, byte_at, ltb, ◌==◌,
  if◌then◌else◌,
}
use pico_fido_microkey.Base.Exec.{Exec, Result, ok, err}
use pico_fido_microkey.Sdk.{has_data}
use pico_fido_microkey.Files.{ef_key_dev}
use pico_fido_microkey.Device.{Device, Crypto}
use pico_fido_microkey.Kek.{mkek_decrypt}
pub mod Handles
pub mod Curves

-- The device with `has_keydev_dec` and `keydev_dec`.
pub record Fido : Type 0 where
  pub device : Device
  pub has_keydev_dec : Bool
  pub keydev_dec : List ℕ

-- What the keys need beyond Crypto: a function with an output array gives its return code first.
pub record KeySdk : Type 0 where
  pub crypto : Crypto
  -- `mbedtls_hkdf` with SHA-512, for a salt, a key and an info, to 67 bytes
  pub hkdf_sha512 : List ℕ → List ℕ → List ℕ → ℕ × List ℕ
  pub hmac_sha512 : List ℕ → List ℕ → List ℕ
  -- `mbedtls_ecp_read_key` on P-256, and what `mbedtls_ecp_write_key_ext` then gives
  pub ecp_read_key : List ℕ → ℕ
  pub ecp_write_key : List ℕ → ℕ × List ℕ
  -- `mbedtls_ecp_mul` for the public key: its return code
  pub ecp_mul : List ℕ → ℕ

abbrev pub key_path_entries : ℕ
key_path_entries = 8

abbrev pub key_handle_len : ℕ
key_handle_len = 64

module _ (sdk : KeySdk) where
  -- The last layer of the key of the device: the key of the chip.
  unfoldable pub unwrap_otp : List ℕ → Bool × List ℕ
  unwrap_otp key = elim sdk.crypto.otp_key_1 [
    | none ↦ (true, key)
    | some otp ↦
        let (ret, plain) = sdk.crypto.aes_cbc_decrypt otp none (block 32 key) in
        (ret == 0, write_bytes key 0 (block 32 plain))
  ]

  -- The file of the key under the master key.
  unfoldable pub open_keydev : Fido → List ℕ → Bool × List ℕ
  open_keydev s key = elim (mkek_decrypt sdk.crypto (block 32 key) s.device).0 [
    | err e ↦ (false, key)
    | ok r ↦
        let opened = write_bytes key 0 (block 32 r.1) in
        if r.0 == 0 then unwrap_otp opened else (false, opened)
  ]

  -- Whether the key was loaded, and the array `key` after that.
  unfoldable pub load_keydev : Fido → List ℕ → Bool × List ℕ
  load_keydev s key =
      let file = s.device.files ef_key_dev in
      if s.has_keydev_dec
      then (true, write_bytes key 0 (block 32 s.keydev_dec))
      else if has_data file
      then open_keydev s (write_bytes key 0 file)
      else (false, key)

  -- The loop over the path: each entry of 4 bytes takes the 67 bytes one step further.
  unfoldable pub derive_path : ℕ → List ℕ → List ℕ → Option (List ℕ)
  derive_path zero handle outk = some outk
  derive_path (suc n) handle outk =
      let (r, next) = sdk.hkdf_sha512 (block 4 handle) (block 32 outk) (read_bytes outk 32 32) in
      let rest = derive_path n (drop 4 handle) (block 67 next) in if r == 0 then rest else none

  -- The path of a new handle: random numbers with the top bit set, the lowest byte first.
  unfoldable pub new_path : ℕ → ℕ → List ℕ
  new_path zero draws = []
  new_path (suc n) draws =
      let val = block 4 (sdk.crypto.random_gen draws 4) in
      block 3 val ++ bit_or (byte_at val 3) 0x80 ∷ new_path n (draws + 1)

  -- `memset` and `load_keydev`, and the path.
  unfoldable pub derived : Fido → List ℕ → Option (List ℕ)
  derived s handle =
      let (loaded, outk) = load_keydev s (replicate 67 0) in
      if loaded then derive_path key_path_entries handle outk else none

  -- The tag of a handle: the HMAC of the application and the path.
  unfoldable pub handle_tag : List ℕ → List ℕ → List ℕ → List ℕ
  handle_tag key app_id path =
      block 32 (sdk.crypto.hmac_sha256 (block 32 key) (block 32 app_id ++ block 32 path)).1

  -- `derive_key` with `new_key` and no `key`: the handle of 64 bytes, if all goes well.
  unfoldable pub derive_new_key : List ℕ → Fido → Option (List ℕ)
  derive_new_key app_id s =
      let path = new_path key_path_entries s.device.draws in
      elim (derived s path) [
        | none ↦ none
        | some outk ↦
            if (sdk.crypto.hmac_sha256 (block 32 outk) (block 32 app_id ++ block 32 path)).0 == 0
            then some (path ++ handle_tag outk app_id path)
            else none
      ]

  -- `derive_key` for a handle on P-256: the key that was read, as `mbedtls_ecp_write_key_ext` gives it.
  unfoldable pub derive_old_key : List ℕ → Fido → Option (List ℕ)
  derive_old_key handle s = elim (derived s handle) [
    | none ↦ none
    | some outk ↦
        if sdk.ecp_read_key (block 32 outk) == 0 && sdk.ecp_mul (block 32 outk) == 0
        then some (block 32 outk)
        else none
  ]

  -- Whether every entry of a path has its top bit set.
  unfoldable pub is_path : ℕ → List ℕ → Bool
  is_path zero handle = true
  is_path (suc n) handle =
      let rest = is_path n (drop 4 handle) in
      if bit_and (byte_at handle 3) 0x80 == 0 then false else rest

  -- `verify_key` with no key given: whether it returns 0.
  unfoldable pub verify_key : List ℕ → List ℕ → Fido → Bool
  verify_key app_id handle s =
      if is_path key_path_entries handle
      then elim (derive_old_key handle s) [
        | none ↦ false
        | some key ↦
            let (ret, d) = sdk.ecp_write_key key in
            if ret == 0 then memcmp_eq (drop 32 handle) (handle_tag d app_id handle) 32 else false
      ]
      else false
