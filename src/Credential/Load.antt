-- ===== src/Credential/Load.antt =====
-- credential.c, lines 183 to 277: a credential identifier is read.
use pico_fido_microkey.Base.{
  ℕ, Bool, Option, none, some, List, length, bytes_eq, ◌==◌, if◌then◌else◌,
}
use pico_fido_microkey.Base.Exec.{Result, ok, err}
use pico_fido_microkey.Ctap.{CtapError, cbor_unexpected_type, invalid_credential, memory_fault}
use pico_fido_microkey.Cbor.{
  Item, Items, uint, boolean, fields, done, next, get_uint, get_bytes, get_text, get_int, and_then,
}
use pico_fido_microkey.Keys.{Fido, key_handle_len, verify_key}
use pico_fido_microkey.Credential.{CredSdk, open_credential}
use pico_fido_microkey.Credential.Encode.{
  CredExtensions, CredData, alg_es256, curve_p256, hmac_secret_key, cred_protect_key, cred_blob_key,
  large_blob_key_key, third_party_key, rk_key,
}

-- CBOR_FIELD_GET_BOOL
abbrev pub get_bool : Item → Result CtapError Bool
get_bool (uint n) = err cbor_unexpected_type
get_bool (boolean b) = ok b
get_bool _ = err cbor_unexpected_type

-- CBOR_PARSE_MAP_START
abbrev pub get_map : Item → Result CtapError Items
get_map (uint n) = err cbor_unexpected_type
get_map (fields items) = ok items
get_map _ = err cbor_unexpected_type

abbrev pub no_extensions : CredExtensions
no_extensions = record {
  hmac_secret = none;
  cred_protect = 0;
  cred_blob = none;
  large_blob_key = none;
  third_party_payment = none;
}

-- After `memset`; a key of the default kind.
abbrev pub no_data : CredData
no_data = record {
  rp_id = none;
  user_id = none;
  user_name = none;
  user_display_name = none;
  creation = 0;
  extensions = none;
  use_sign_count = none;
  alg = alg_es256;
  curve = curve_p256;
  opts = none;
}

-- One extension, under its key; others are passed over.
unfoldable pub extension_field : List ℕ → Item → CredExtensions → Result CtapError CredExtensions
extension_field k v e =
    if bytes_eq k hmac_secret_key
    then and_then (get_bool v) (λ b. ok (record e { hmac_secret = some b }))
    else if bytes_eq k cred_protect_key
    then and_then (get_uint v) (λ n. ok (record e { cred_protect = n }))
    else if bytes_eq k cred_blob_key
    then and_then (get_bytes v) (λ b. ok (record e { cred_blob = some b }))
    else if bytes_eq k large_blob_key_key
    then and_then (get_bool v) (λ b. ok (record e { large_blob_key = some b }))
    else if bytes_eq k third_party_key
    then and_then (get_bool v) (λ b. ok (record e { third_party_payment = some b }))
    else ok e

unfoldable pub extension_fields : Items → CredExtensions → Result CtapError CredExtensions
extension_fields done e = ok e
extension_fields (next k done) e = and_then (get_text k) (λ t. err cbor_unexpected_type)
extension_fields (next k (next v rest)) e =
    let go = extension_fields rest in
    and_then (get_text k) (λ t. and_then (extension_field t v e) go)

-- The options: "rk".
unfoldable pub option_fields : Items → Option Bool → Result CtapError (Option Bool)
option_fields done rk = ok rk
option_fields (next k done) rk = and_then (get_text k) (λ t. err cbor_unexpected_type)
option_fields (next k (next v rest)) rk =
    let go = option_fields rest in
    and_then (get_text k)
      (λ t. if bytes_eq t rk_key then and_then (get_bool v) (λ b. go (some b)) else go rk)

-- The extensions that were read before, if any.
abbrev pub known_extensions : Option CredExtensions → CredExtensions
known_extensions (some e) = e
known_extensions none = no_extensions

abbrev pub known_opts : Option (Option Bool) → Option Bool
known_opts (some o) = o
known_opts none = none

-- One field of the map, under its key.
unfoldable pub credential_field : ℕ → Item → CredData → Result CtapError CredData
credential_field k v d =
    if k == 0x01
    then and_then (get_text v) (λ b. ok (record d { rp_id = some b }))
    else if k == 0x03
    then and_then (get_bytes v) (λ b. ok (record d { user_id = some b }))
    else if k == 0x04
    then and_then (get_text v) (λ b. ok (record d { user_name = some b }))
    else if k == 0x05
    then and_then (get_text v) (λ b. ok (record d { user_display_name = some b }))
    else if k == 0x06
    then and_then (get_uint v) (λ n. ok (record d { creation = n }))
    else if k == 0x07
    then and_then (get_map v) (λ m.
      and_then (extension_fields m (known_extensions d.extensions))
        (λ e. ok (record d { extensions = some e })))
    else if k == 0x08
    then and_then (get_bool v) (λ b. ok (record d { use_sign_count = some b }))
    else if k == 0x09
    then and_then (get_int v) (λ n. ok (record d { alg = n }))
    else if k == 0x0a
    then and_then (get_int v) (λ n. ok (record d { curve = n }))
    else if k == 0x0b
    then and_then (get_map v)
        (λ m. and_then (option_fields m (known_opts d.opts)) (λ o. ok (record d { opts = some o })))
    else ok d

unfoldable pub credential_fields : Items → CredData → Result CtapError CredData
credential_fields done d = ok d
credential_fields (next k done) d = and_then (get_uint k) (λ n. err cbor_unexpected_type)
credential_fields (next k (next v rest)) d =
    let go = credential_fields rest in
    and_then (get_uint k) (λ n. and_then (credential_field n v d) go)

module _ (sdk : CredSdk) where
  -- The map in an identifier that was opened.
  unfoldable pub parse_credential : List ℕ → Result CtapError CredData
  parse_credential plain = elim (sdk.parse plain) [
    | none ↦ err cbor_unexpected_type
    | some items ↦ credential_fields items no_data
  ]

  -- A key handle of U2F is a credential without data.
  abbrev pub u2f_data : CredData
  u2f_data = record no_data { alg = uint 0; curve = uint 0 }

  -- What was not opened may be a key handle.
  unfoldable pub load_handle : CtapError → Fido → List ℕ → List ℕ → Result CtapError CredData
  load_handle memory_fault s id rp_id_hash = err memory_fault
  load_handle _ s id rp_id_hash =
      if length id == key_handle_len
      then (if verify_key sdk.keys rp_id_hash id s then ok u2f_data else err invalid_credential)
      else err invalid_credential

  -- `credential_load`
  unfoldable pub credential_load : Fido → List ℕ → List ℕ → Result CtapError CredData
  credential_load s id rp_id_hash = elim (open_credential sdk s id rp_id_hash) [
    | ok plain ↦ parse_credential plain
    | err e ↦ load_handle e s id rp_id_hash
  ]
