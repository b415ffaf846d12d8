-- ===== src/Ctap.antt =====
-- ctap.h: the status codes that the CTAP2 handlers leave with, and the permissions of a token.
use pico_fido_microkey.Base.{ℕ}

-- What `load_mkek` and `store_mkek` return, but for PICOKEY_OK.
pub data KekError : Type 0 where
  exec_error wrong_dkek file_not_found : KekError

pub data CtapError : Type 0 where
  cbor_unexpected_type invalid_cbor missing_parameter invalid_parameter : CtapError
  pin_invalid pin_blocked pin_auth_invalid pin_auth_blocked pin_not_set : CtapError
  pin_policy_violation not_allowed unsupported_option unauthorized_permission puat_required :
      CtapError
  invalid_credential no_credentials processing ctap1_other : CtapError
  -- CborErrorOutOfMemory: an encoding does not fit into its buffer.
  encoding_full : CtapError
  -- The return code -1 of `credential_store`: no free file.
  store_full : CtapError
  -- a code of kek.c, passed on as it is
  kek_failed : KekError → CtapError
  -- A read or write past the end of an array: what happens then is not defined.
  memory_fault : CtapError

abbrev pub permission_mc : ℕ
permission_mc = 0x01

abbrev pub permission_ga : ℕ
permission_ga = 0x02

abbrev pub permission_cm : ℕ
permission_cm = 0x04

abbrev pub permission_be : ℕ
permission_be = 0x08

abbrev pub permission_lbw : ℕ
permission_lbw = 0x10

abbrev pub max_pin_retries : ℕ
max_pin_retries = 8

abbrev pub iv_size : ℕ
iv_size = 16

abbrev pub permission_acfg : ℕ
permission_acfg = 0x20
