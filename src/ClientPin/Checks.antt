-- ===== src/ClientPin/Checks.antt =====
-- cbor_client_pin.c, lines 383 to 396, 451 to 469 and 584 to 608: what setPIN, changePIN and
-- getPinToken ask of a request before they compute anything.
use pico_fido_microkey.Base.{
  ℕ, ◌+◌, bit_and, Bool, true, false, not, ◌&&◌, ◌||◌, ◌≡◌, some, List, length, is_some, ◌==◌,
  if◌then◌else◌, arith,
}
use pico_fido_microkey.Base.Exec.{Result, ok, err, or_err}
use pico_fido_microkey.Sdk.{Contents, has_data}
use pico_fido_microkey.Files.{ef_pin}
use pico_fido_microkey.Ctap.{
  CtapError, missing_parameter, invalid_parameter, pin_blocked, pin_not_set, not_allowed,
  unauthorized_permission, permission_be, iv_size,
}
use pico_fido_microkey.Cbor.{is_zero, and_then}
use pico_fido_microkey.ClientPin.Params.{Params}
use pico_fido_microkey.ClientPin.Steps.{pin_retries}

infixl 5 ◌>>=◌ ◌>>◌
abbrev ◌>>=◌ : {A B : Type 0} → Result CtapError A → (A → Result CtapError B) → Result CtapError B
m >>= f = and_then m f

abbrev ◌>>◌ : {A B : Type 0} → Result CtapError A → Result CtapError B → Result CtapError B
m >> n = and_then m (λ _. n)

-- `if (!b) CBOR_ERROR(e);`
abbrev check : Bool → CtapError → Result CtapError (Unit {0})
check true e = ok tt
check false e = err e

abbrev pub known_protocol : ℕ → Bool
known_protocol n = n == 1 || n == 2

-- The lengths of 64 and 16 bytes of plain text.
abbrev pub new_pin_enc_fits : ℕ → List ℕ → Bool
new_pin_enc_fits protocol enc = length enc == (if protocol == 1 then 64 else 64 + iv_size)

abbrev pub pin_hash_enc_fits : ℕ → List ℕ → Bool
pin_hash_enc_fits protocol enc = length enc == (if protocol == 1 then 16 else 16 + iv_size)

pub record SetRequest : Type 0 where
  pub x : List ℕ
  pub y : List ℕ
  pub new_pin_enc : List ℕ
  pub pin_uv_auth_param : List ℕ

pub record ChangeRequest : Type 0 where
  pub x : List ℕ
  pub y : List ℕ
  pub new_pin_enc : List ℕ
  pub pin_uv_auth_param : List ℕ
  pub pin_hash_enc : List ℕ

pub record TokenRequest : Type 0 where
  pub x : List ℕ
  pub y : List ℕ
  pub pin_hash_enc : List ℕ

unfoldable pub check_set : Params → Contents → Result CtapError SetRequest
check_set p files = do
  x ← or_err p.key.kax missing_parameter
  y ← or_err p.key.kay missing_parameter
  check (not (p.pin_uv_auth_protocol == 0)) missing_parameter
  new_pin_enc ← or_err p.new_pin_enc missing_parameter
  pin_uv_auth_param ← or_err p.pin_uv_auth_param missing_parameter
  check (not (is_zero p.key.alg)) missing_parameter
  check (known_protocol p.pin_uv_auth_protocol) invalid_parameter
  check (not (has_data (files ef_pin))) not_allowed
  check (new_pin_enc_fits p.pin_uv_auth_protocol new_pin_enc) invalid_parameter
  ok (record { x = x; y = y; new_pin_enc = new_pin_enc; pin_uv_auth_param = pin_uv_auth_param })

unfoldable pub check_change : Params → Contents → Result CtapError ChangeRequest
check_change p files = do
  x ← or_err p.key.kax missing_parameter
  y ← or_err p.key.kay missing_parameter
  check (not (p.pin_uv_auth_protocol == 0)) missing_parameter
  new_pin_enc ← or_err p.new_pin_enc missing_parameter
  pin_uv_auth_param ← or_err p.pin_uv_auth_param missing_parameter
  check (not (is_zero p.key.alg)) missing_parameter
  pin_hash_enc ← or_err p.pin_hash_enc missing_parameter
  check (known_protocol p.pin_uv_auth_protocol) invalid_parameter
  check (has_data (files ef_pin)) pin_not_set
  check (not (pin_retries files == 0)) pin_blocked
  check
      (new_pin_enc_fits p.pin_uv_auth_protocol new_pin_enc
        && pin_hash_enc_fits p.pin_uv_auth_protocol pin_hash_enc)
      invalid_parameter
  ok (record {
    x = x;
    y = y;
    new_pin_enc = new_pin_enc;
    pin_uv_auth_param = pin_uv_auth_param;
    pin_hash_enc = pin_hash_enc;
  })

unfoldable pub check_token : Params → Contents → Result CtapError TokenRequest
check_token p files = do
  x ← or_err p.key.kax missing_parameter
  y ← or_err p.key.kay missing_parameter
  check (not (p.pin_uv_auth_protocol == 0)) missing_parameter
  check (not (is_zero p.key.alg)) missing_parameter
  pin_hash_enc ← or_err p.pin_hash_enc missing_parameter
  check (known_protocol p.pin_uv_auth_protocol) invalid_parameter
  check (not (p.subcommand == 0x05 && (not (p.permissions == 0) || is_some p.rp_id)))
      invalid_parameter
  check (not (p.subcommand == 0x09 && p.permissions == 0)) invalid_parameter
  check (not (p.subcommand == 0x09 && not (bit_and p.permissions permission_be == 0)))
      unauthorized_permission
  check (has_data (files ef_pin)) pin_not_set
  check (not (pin_retries files == 0)) pin_blocked
  ok (record { x = x; y = y; pin_hash_enc = pin_hash_enc })

-- What an accepted request tells: the conditions that the later steps rest on.
pub record SetAccepted (p : Params) (files : Contents) (q : SetRequest) : Type 0 where
  pub kax : p.key.kax ≡ some q.x
  pub kay : p.key.kay ≡ some q.y
  pub new_pin : p.new_pin_enc ≡ some q.new_pin_enc
  pub known : known_protocol p.pin_uv_auth_protocol ≡ true
  pub no_pin : has_data (files ef_pin) ≡ false
  pub new_fits : new_pin_enc_fits p.pin_uv_auth_protocol q.new_pin_enc ≡ true

pub record ChangeAccepted (p : Params) (files : Contents) (q : ChangeRequest) : Type 0 where
  pub kax : p.key.kax ≡ some q.x
  pub kay : p.key.kay ≡ some q.y
  pub hash : p.pin_hash_enc ≡ some q.pin_hash_enc
  pub known : known_protocol p.pin_uv_auth_protocol ≡ true
  pub pin_set : has_data (files ef_pin) ≡ true
  pub tries_left : (pin_retries files == 0) ≡ false
  pub new_fits : new_pin_enc_fits p.pin_uv_auth_protocol q.new_pin_enc ≡ true
  pub hash_fits : pin_hash_enc_fits p.pin_uv_auth_protocol q.pin_hash_enc ≡ true

pub record TokenAccepted (p : Params) (files : Contents) (q : TokenRequest) : Type 0 where
  pub kax : p.key.kax ≡ some q.x
  pub kay : p.key.kay ≡ some q.y
  pub hash : p.pin_hash_enc ≡ some q.pin_hash_enc
  pub known : known_protocol p.pin_uv_auth_protocol ≡ true
  pub no_bio : p.subcommand ≡ 9 → bit_and p.permissions permission_be ≡ 0
  pub pin_set : has_data (files ef_pin) ≡ true
  pub tries_left : (pin_retries files == 0) ≡ false

pub check_set-SetAccepted :
    (p : Params) (files : Contents) (q : SetRequest)
    → check_set p files ≡ ok q
    → SetAccepted p files q
unfolding check_set
check_set-SetAccepted p files q h = ground arith

pub check_change-ChangeAccepted :
    (p : Params) (files : Contents) (q : ChangeRequest)
    → check_change p files ≡ ok q
    → ChangeAccepted p files q
unfolding check_change
check_change-ChangeAccepted p files q h = ground arith

pub check_token-TokenAccepted :
    (p : Params) (files : Contents) (q : TokenRequest)
    → check_token p files ≡ ok q
    → TokenAccepted p files q
unfolding check_token
check_token-TokenAccepted p files q h = ground arith
