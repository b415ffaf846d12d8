-- ===== src/Credential.antt =====
-- credential.c, lines 34 to 84 and 381 to 423, and the constants of credential.h: the credential
-- identifiers, how they are opened and recognised, and the keys derived from them.
use pico_fido_microkey.Base.{
  ℕ, ◌+◌, ◌-◌, Bool, true, false, not, Option, none, some, List, [], ◌∷◌, ◌++◌, length, drop, block,
  replicate, read_bytes, memcmp_eq, ltb, ◌==◌, if◌then◌else◌,
}
use pico_fido_microkey.Base.Exec.{Result, ok, err}
use pico_fido_microkey.Ctap.{CtapError, invalid_credential, memory_fault}
use pico_fido_microkey.Cbor.{Items}
use pico_fido_microkey.Keys.{Fido, KeySdk, load_keydev}
pub mod Encode
pub mod Load
pub mod Store
pub mod Extensions
pub mod Fields
pub mod Parts
pub mod Sealed
pub mod Silent

-- What the credentials need beyond KeySdk. CBOR is encoded and decoded by tinycbor: `encode` gives
-- the bytes of a map, and `parse` the map at the start of some bytes.
pub record CredSdk : Type 0 where
  pub keys : KeySdk
  pub serial_id : List ℕ
  -- `mbedtls_chachapoly_encrypt_and_tag` for key, nonce, additional data and text: the return code,
  -- the cipher text and the tag
  pub seal : List ℕ → List ℕ → List ℕ → List ℕ → ℕ × (List ℕ × List ℕ)
  -- `mbedtls_chachapoly_auth_decrypt` for key, nonce, additional data, tag and cipher text
  pub unseal : List ℕ → List ℕ → List ℕ → List ℕ → List ℕ → ℕ × List ℕ
  -- The 16 bytes behind the encoding in the array of the caller of `credential_create`, by how many
  -- random numbers were drawn.
  pub beyond : ℕ → List ℕ
  pub encode : Items → List ℕ
  pub parse : List ℕ → Option Items

abbrev pub cred_proto_22_s : List ℕ
cred_proto_22_s = 0xf1 ∷ 0xd0 ∷ 0x02 ∷ 0x02 ∷ []

abbrev pub cred_proto_len : ℕ
cred_proto_len = 4

abbrev pub cred_iv_len : ℕ
cred_iv_len = 12

abbrev pub cred_tag_len : ℕ
cred_tag_len = 16

abbrev pub cred_silent_tag_len : ℕ
cred_silent_tag_len = 16

-- The labels of the key derivation, as ASCII: "SLIP-0022", "Encryption key", "hmac-secret" and
-- "largeBlobKey".
abbrev pub slip_label : List ℕ
slip_label = 83 ∷ 76 ∷ 73 ∷ 80 ∷ 45 ∷ 48 ∷ 48 ∷ 50 ∷ 50 ∷ []

abbrev pub encryption_label : List ℕ
encryption_label =
    69 ∷ 110 ∷ 99 ∷ 114 ∷ 121 ∷ 112 ∷ 116 ∷ 105 ∷ 111 ∷ 110 ∷ 32 ∷ 107 ∷ 101 ∷ 121 ∷ []

abbrev pub hmac_secret_label : List ℕ
hmac_secret_label = 104 ∷ 109 ∷ 97 ∷ 99 ∷ 45 ∷ 115 ∷ 101 ∷ 99 ∷ 114 ∷ 101 ∷ 116 ∷ []

abbrev pub large_blob_label : List ℕ
large_blob_label = 108 ∷ 97 ∷ 114 ∷ 103 ∷ 101 ∷ 66 ∷ 108 ∷ 111 ∷ 98 ∷ 75 ∷ 101 ∷ 121 ∷ []

-- Whether an identifier has the new format, with a silent tag at its end.
unfoldable pub is_new_format : List ℕ → Bool
is_new_format id = memcmp_eq id cred_proto_22_s cred_proto_len

-- What stands in an identifier besides the cipher text.
unfoldable pub overhead : List ℕ → ℕ
overhead id = if is_new_format id then 48 else 32

unfoldable pub cipher_len : List ℕ → ℕ
cipher_len id = length id - overhead id

module _ (sdk : CredSdk) where
  abbrev hmac : List ℕ → List ℕ → List ℕ
  hmac key m = block 32 (sdk.keys.crypto.hmac_sha256 (block 32 key) m).1

  abbrev tag_seed : Option (List ℕ) → List ℕ
  tag_seed (some otp) = block 32 otp
  tag_seed none = sdk.serial_id

  -- `credential_silent_tag`: the HMAC of the identifier without its silent tag, under a key for the
  -- relying party.
  unfoldable pub credential_silent_tag : List ℕ → List ℕ → List ℕ
  credential_silent_tag id rp_id_hash =
      let outk =
        (sdk.keys.crypto.sha256 (tag_seed sdk.keys.crypto.otp_key_1 ++ block 32 rp_id_hash)).1 in
      hmac outk (block (length id - cred_silent_tag_len) id)

  -- `credential_derive_chacha_key`: whether the key of the device was loaded, and the key. Without it,
  -- the array stays as `load_keydev` left it.
  unfoldable pub derive_chacha_key : Fido → List ℕ → Bool × List ℕ
  derive_chacha_key s proto =
      let (loaded, key) = load_keydev sdk.keys s (replicate 32 0) in
      if loaded
      then (true, hmac (hmac (hmac key slip_label) (block cred_proto_len proto)) encryption_label)
      else (false, key)

  -- `credential_verify`, not silent: what the identifier holds, if it is sealed for the relying party,
  -- with the rest of what is parsed afterwards.
  -- The return code of the key derivation is not looked at. An identifier of the new format that is
  -- shorter than its header makes the length of the cipher text wrap around.
  unfoldable pub open_credential : Fido → List ℕ → List ℕ → Result CtapError (List ℕ)
  open_credential s id rp_id_hash =
      let (loaded, key) = derive_chacha_key s id in
      let n = cipher_len id in
      let (ret, plain) =
        sdk.unseal key (read_bytes id 4 12) (block 32 rp_id_hash) (read_bytes id (16 + n) 16)
          (read_bytes id 16 n) in
      if ltb (length id) 32
      then err invalid_credential
      else if ltb (length id) (overhead id)
      then err memory_fault
      else if ret == 0
      then ok (block n plain ++ read_bytes id (16 + n) (overhead id - 32))
      else err invalid_credential

  -- `credential_verify`, silent: whether the identifier carries the silent tag of this device.
  unfoldable pub verify_silent : List ℕ → List ℕ → Bool
  verify_silent id rp_id_hash =
      if ltb (length id) 32
      then false
      else if is_new_format id
      then memcmp_eq (credential_silent_tag id rp_id_hash)
          (drop (length id - cred_silent_tag_len) id) cred_silent_tag_len
      else false

  -- `credential_derive_large_blob_key`
  unfoldable pub derive_large_blob_key : Fido → List ℕ → Option (List ℕ)
  derive_large_blob_key s id =
      let (loaded, key) = load_keydev sdk.keys s (replicate 32 0) in
      if loaded
      then some
          (hmac (hmac (hmac (hmac key slip_label) (block cred_proto_len id)) large_blob_label) id)
      else none

  abbrev hmac_long : List ℕ → List ℕ → List ℕ
  hmac_long key m = block 64 (sdk.keys.hmac_sha512 (block 32 key) m)

  -- `credential_derive_hmac_key`: 64 bytes
  unfoldable pub derive_hmac_key : Fido → List ℕ → Option (List ℕ)
  derive_hmac_key s id =
      let (loaded, key) = load_keydev sdk.keys s (replicate 64 0) in
      if loaded
      then some (
          hmac_long
            (hmac_long (hmac_long (hmac_long key slip_label) (block cred_proto_len id))
              hmac_secret_label)
            id)
      else none
