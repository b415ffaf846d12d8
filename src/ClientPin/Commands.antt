-- ===== src/ClientPin/Commands.antt =====
-- cbor_client_pin.c, lines 354 to 705: the subcommands and their dispatch.
use pico_fido_microkey.Base.{
  ℕ, ◌+◌, ◌*◌, ◌-◌, ◌%◌, Bool, false, not, ◌&&◌, ◌||◌, none, some, List, ◌∷◌, ◌++◌, length, block,
  read_bytes, byte_at, memcmp_eq, is_some, ltb, ◌==◌, if◌then◌else◌,
}
use pico_fido_microkey.Base.Exec.{Result, ok, err, pure, fail, gets, modify, guard, ◌>>=◌, ◌>>◌}
use pico_fido_microkey.Files.{ef_pin, ef_minpinlen}
use pico_fido_microkey.Ctap.{
  CtapError, cbor_unexpected_type, missing_parameter, invalid_parameter, pin_invalid,
  pin_auth_invalid, pin_policy_violation, unsupported_option, kek_failed, permission_mc,
  permission_ga, iv_size,
}
use pico_fido_microkey.Device.{Device, Crypto}
use pico_fido_microkey.Cbor.{Item, uint, fields}
use pico_fido_microkey.Token.{initialize, reset_pin_uv_auth_token, begin_using_pin_uv_auth_token}
use pico_fido_microkey.Kek.{load_mkek, store_mkek}
use pico_fido_microkey.ClientPin.Protocol.{encrypt, verify}
use pico_fido_microkey.ClientPin.Params.{Params, no_params, parse_params}
use pico_fido_microkey.ClientPin.Checks.{known_protocol, check_set, check_change, check_token}
use pico_fido_microkey.ClientPin.Steps.{
  Pin, pin_retries, pin_hash, min_pin_length, must_change, pin_length, from_kek, write_file, agree,
  decrypt_pin, try_pin, accept_pin, check_mkek_encrypted, pin_digest, new_pin_data,
}

-- The response, before tinycbor encodes it.
pub data Reply : Type 0 where
  empty : Reply
  retries : ℕ → Bool → Reply
  -- `COSE_key_shared` of the platform key agreement key
  key_agreement : List ℕ → Reply
  token : List ℕ → Reply

unfoldable pub parse_item : Item → Result CtapError Params
unfolding parse_params
parse_item (uint n) = err cbor_unexpected_type
parse_item (fields items) = parse_params items 1 no_params
parse_item _ = err cbor_unexpected_type

module _ (crypto : Crypto) where
  unfoldable pub get_pin_retries : Pin Reply
  get_pin_retries s = (ok (retries (pin_retries s.files) s.needs_power_cycle), s)

  unfoldable pub get_key_agreement : Params → Pin Reply
  get_key_agreement p s =
      if known_protocol p.pin_uv_auth_protocol
      then (ok (key_agreement s.hkey), s)
      else (err (if p.pin_uv_auth_protocol == 0 then missing_parameter else invalid_parameter), s)

  -- setPIN, from the decryption of the new PIN on.
  unfoldable pub enrol_pin : ℕ → List ℕ → List ℕ → Pin Reply
  unfolding decrypt_pin
  enrol_pin protocol secret new_pin_enc = do
    padded ← decrypt_pin crypto protocol secret new_pin_enc
    guard (byte_at padded 63 == 0) pin_policy_violation
    files ← gets (λ s. s.files)
    guard (not (ltb (pin_length padded) (min_pin_length files))) pin_policy_violation
    modify (write_file crypto ef_pin (new_pin_data crypto padded))
    check_mkek_encrypted crypto (pin_digest crypto padded)
    pure empty

  unfoldable pub set_pin : Params → Pin Reply
  unfolding agree
  set_pin p = do
    q ← λ s. (check_set p s.files, s)
    secret ← agree crypto p.pin_uv_auth_protocol q.x q.y
    guard (verify crypto p.pin_uv_auth_protocol secret q.new_pin_enc q.pin_uv_auth_param)
        pin_auth_invalid
    enrol_pin p.pin_uv_auth_protocol secret q.new_pin_enc

  -- A forced change is done: `tmpf[1] = 0`.
  unfoldable pub clear_must_change : Device → Device
  clear_must_change s =
      if must_change s.files
      then write_file crypto ef_minpinlen
          (byte_at (s.files ef_minpinlen) 0
            ∷ 0
            ∷ read_bytes (s.files ef_minpinlen) 2 (length (s.files ef_minpinlen) - 2))
          s
      else s

  -- changePIN, for a new PIN that the policy allows: the master key goes over to it.
  unfoldable pub install_pin : List ℕ → Pin Reply
  install_pin padded = do
    mkek ← λ s. let (r, t) = load_mkek crypto s in (from_kek kek_failed r, t)
    modify (write_file crypto ef_pin (new_pin_data crypto padded))
    check_mkek_encrypted crypto (pin_digest crypto padded)
    modify λ s. record s { session_pin = crypto.hash_multi (block 16 (pin_digest crypto padded)) }
    λ s. let (r, t) = store_mkek crypto (some mkek) s in (from_kek kek_failed r, t)
    modify clear_must_change
    modify (reset_pin_uv_auth_token crypto)
    pure empty

  -- changePIN, after the current PIN was accepted.
  unfoldable pub replace_pin : ℕ → List ℕ → List ℕ → Pin Reply
  unfolding decrypt_pin
  replace_pin protocol secret new_pin_enc = do
    padded ← decrypt_pin crypto protocol secret new_pin_enc
    guard (byte_at padded 63 == 0) invalid_parameter
    files ← gets (λ s. s.files)
    guard (not (ltb (pin_length padded) (min_pin_length files))) pin_policy_violation
    guard
        (not (
          must_change files
          && memcmp_eq (read_bytes (new_pin_data crypto padded) 2 32) (pin_hash files) 32))
        pin_policy_violation
    install_pin padded

  unfoldable pub change_pin : Params → Pin Reply
  unfolding agree
  change_pin p = do
    q ← λ s. (check_change p s.files, s)
    secret ← agree crypto p.pin_uv_auth_protocol q.x q.y
    guard
        (verify crypto p.pin_uv_auth_protocol secret (q.new_pin_enc ++ q.pin_hash_enc)
          q.pin_uv_auth_param)
        pin_auth_invalid
    padded ← try_pin crypto p.pin_uv_auth_protocol secret q.pin_hash_enc
    modify (accept_pin crypto padded)
    replace_pin p.pin_uv_auth_protocol secret q.new_pin_enc

  -- The token, fresh and with the permissions asked for.
  unfoldable pub grant_token : ℕ → Params → List ℕ → Pin Reply
  grant_token now p secret s =
      let s1 = begin_using_pin_uv_auth_token false now (reset_pin_uv_auth_token crypto s) in
      let permissions =
        (if p.subcommand == 0x05 then permission_mc + permission_ga else p.permissions) in
      let paut = record s1.paut {
        permissions = permissions % 256;
        has_rp_id = is_some p.rp_id;
        rp_id_hash = elim p.rp_id [
          | none ↦ s1.paut.rp_id_hash
          | some rp_id ↦ (crypto.sha256 rp_id).1
        ];
      } in
      let (ret, out) =
        encrypt crypto p.pin_uv_auth_protocol secret (crypto.random_gen s1.draws iv_size)
          (block 32 paut.bytes) in
      let draws = (if p.pin_uv_auth_protocol == 2 then s1.draws + 1 else s1.draws) in
      (
        ok (token (block (32 + (p.pin_uv_auth_protocol - 1) * iv_size) out)),
        record s1 { paut = paut; draws = draws },
      )

  unfoldable pub get_pin_token : ℕ → Params → Pin Reply
  unfolding agree
  get_pin_token now p = do
    q ← λ s. (check_token p s.files, s)
    secret ← agree crypto p.pin_uv_auth_protocol q.x q.y
    padded ← try_pin crypto p.pin_uv_auth_protocol secret q.pin_hash_enc
    check_mkek_encrypted crypto padded
    modify (accept_pin crypto padded)
    files ← gets (λ s. s.files)
    guard (not (must_change files)) pin_invalid
    grant_token now p secret

  unfoldable pub dispatch : ℕ → Params → Pin Reply
  dispatch now p =
      if p.subcommand == 0x0
      then fail missing_parameter
      else if p.subcommand == 0x1
      then get_pin_retries
      else if p.subcommand == 0x2
      then get_key_agreement p
      else if p.subcommand == 0x3
      then set_pin p
      else if p.subcommand == 0x4
      then change_pin p
      else if p.subcommand == 0x9 || p.subcommand == 0x5
      then get_pin_token now p
      else fail unsupported_option

  abbrev pub dispatch_parsed : ℕ → Result CtapError Params → Pin Reply
  dispatch_parsed now (err e) s = (err e, s)
  dispatch_parsed now (ok p) s = dispatch now p s

  -- The command at the time `now`, on its decoded argument.
  unfoldable pub cbor_client_pin : ℕ → Item → Pin Reply
  unfolding dispatch
  cbor_client_pin now item s =
      dispatch_parsed now (parse_item item) (if s.hkey_init then s else initialize crypto s)
