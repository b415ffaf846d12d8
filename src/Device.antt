-- ===== src/Device.antt =====
-- The state that the CTAP2 handlers share: flash, the PIN/UV auth token of fido.h, and the globals of
-- cbor_client_pin.c, kek.c and fido.c.
use pico_fido_microkey.Base.{ℕ, Bool, List, Option}
use pico_fido_microkey.Sdk.{Contents, Flash}

-- `pinUvAuthToken_t`; `len` is the length of `bytes`.
pub record PinUvAuthToken : Type 0 where
  pub bytes : List ℕ
  pub in_use : Bool
  pub permissions : ℕ
  pub rp_id_hash : List ℕ
  pub has_rp_id : Bool
  pub user_present : Bool
  pub user_verified : Bool

pub record Device : Type 0 where
  pub files : Contents
  pub paut : PinUvAuthToken
  pub hkey : List ℕ
  pub hkey_init : Bool
  pub usage_timer : ℕ
  pub initial_usage_time_limit : ℕ
  pub user_present_time_limit : ℕ
  pub needs_power_cycle : Bool
  pub new_pin_mismatches : ℕ
  pub session_pin : List ℕ
  pub has_mkek_mask : Bool
  pub mkek_mask : List ℕ
  -- How many calls of the random generator were made.
  pub draws : ℕ

-- What the handlers call in the SDK and in mbedtls. A function with an output array gives its return
-- code, 0 for success, and what the array then holds.
pub record Crypto : Type 0 where
  pub flash : Flash
  -- Whether `search_file` finds the file.
  pub search_file : ℕ → Bool
  -- The bytes of the i-th call of `random_gen`, and the key pair of the i-th key generation.
  pub random_gen : ℕ → ℕ → List ℕ
  pub gen_public : ℕ → List ℕ
  -- `mbedtls_ecdh_compute_shared` for a private key and a point: the integer `z`.
  pub compute_shared : List ℕ → List ℕ → List ℕ → ℕ × ℕ
  pub mpi_read_binary : List ℕ → ℕ
  pub mpi_write_binary : ℕ → ℕ × List ℕ
  pub sha256 : List ℕ → ℕ × List ℕ
  -- What the stack holds where a handler has `paddedNewPin[64]`, before it is written; it may differ
  -- whenever a random number or a key was drawn, as after each mismatch.
  pub stack : ℕ → List ℕ
  pub hkdf_sha256 : List ℕ → List ℕ → ℕ × List ℕ
  pub hmac_sha256 : List ℕ → List ℕ → ℕ × List ℕ
  pub aes_cbc_encrypt : List ℕ → Option (List ℕ) → List ℕ → ℕ × List ℕ
  pub aes_cbc_decrypt : List ℕ → Option (List ℕ) → List ℕ → ℕ × List ℕ
  pub aes_encrypt_cfb_256 : List ℕ → List ℕ → List ℕ → ℕ × List ℕ
  pub aes_decrypt_cfb_256 : List ℕ → List ℕ → List ℕ → ℕ × List ℕ
  pub double_hash_pin : List ℕ → List ℕ
  pub hash_multi : List ℕ → List ℕ
  -- The key in the chip's one-time programmable memory, where there is one.
  pub otp_key_1 : Option (List ℕ)
