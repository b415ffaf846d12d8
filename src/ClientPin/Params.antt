-- ===== src/ClientPin/Params.antt =====
-- cbor_client_pin.c, lines 298 to 352: the request's parameters, read from its map in one pass.
use pico_fido_microkey.Base.{
  ℕ, ◌+◌, ◌%◌, ◌^◌, not, ◌&&◌, Option, none, some, List, ltb, leb, ◌==◌, if◌then◌else◌,
}
use pico_fido_microkey.Base.Exec.{Result, ok, err}
use pico_fido_microkey.Ctap.{CtapError, cbor_unexpected_type, missing_parameter, invalid_cbor}
use pico_fido_microkey.Cbor.{
  Item, uint, fields, Items, done, next, and_then, get_uint, get_bytes, get_text, CoseKey,
  cose_read_key,
}

pub record Params : Type 0 where
  pub subcommand : ℕ
  pub pin_uv_auth_protocol : ℕ
  pub permissions : ℕ
  pub key : CoseKey
  pub pin_uv_auth_param : Option (List ℕ)
  pub new_pin_enc : Option (List ℕ)
  pub pin_hash_enc : Option (List ℕ)
  pub rp_id : Option (List ℕ)

abbrev pub no_params : Params
no_params = record {
  subcommand = 0;
  pin_uv_auth_protocol = 0;
  permissions = 0;
  key = record { kty = uint 0; alg = uint 0; crv = uint 0; kax = none; kay = none };
  pin_uv_auth_param = none;
  new_pin_enc = none;
  pin_hash_enc = none;
  rp_id = none;
}

-- The key of a field: 1 and 2 must be there and come first, and keys grow.
unfoldable pub key_of : ℕ → Item → Result CtapError ℕ
key_of val_c item = and_then (get_uint item) λ val_u.
    if leb val_c 2 && not (val_c == val_u)
    then err missing_parameter
    else if ltb val_u val_c
    then err invalid_cbor
    else ok val_u

-- The value under a key; `none` for a key whose value the loop does not read.
unfoldable pub field : ℕ → Item → Params → Option (Result CtapError Params)
field key v p =
    if key == 0x01
    then some (and_then (get_uint v) (λ n. ok (record p { pin_uv_auth_protocol = n })))
    else if key == 0x02
    then some (and_then (get_uint v) (λ n. ok (record p { subcommand = n })))
    else if key == 0x03
    then some (and_then (cose_read_key v p.key) (λ k. ok (record p { key = k })))
    else if key == 0x04
    then some (and_then (get_bytes v) (λ b. ok (record p { pin_uv_auth_param = some b })))
    else if key == 0x05
    then some (and_then (get_bytes v) (λ b. ok (record p { new_pin_enc = some b })))
    else if key == 0x06
    then some (and_then (get_bytes v) (λ b. ok (record p { pin_hash_enc = some b })))
    else if key == 0x09
    then some (and_then (get_uint v) (λ n. ok (record p { permissions = n })))
    else if key == 0x0a
    then some (and_then (get_text v) (λ t. ok (record p { rp_id = some t })))
    else none

-- A value that is not read is taken for the next key.
unfoldable pub parse_params : Items → ℕ → Params → Result CtapError Params
unfolding key_of field
parse_params done val_c p = ok p
parse_params (next k done) val_c p =
    and_then (key_of val_c k)
      λ key. elim (field key (fields done) p) [ none ↦ ok p | some _ ↦ err cbor_unexpected_type ]
parse_params (next k (next v rest)) val_c p =
    let skip = parse_params (next v rest) in
    let go = parse_params rest in
    and_then (key_of val_c k) λ key. elim (field key v p) [
      | none ↦ skip ((key + 1) % 2 ^ 64) p
      | some r ↦ and_then r (go ((key + 1) % 2 ^ 64))
    ]
