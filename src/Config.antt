-- ===== src/Config.antt =====
-- cbor_config.c, lines 122 to 142 and 192 to 220: the authentication of a configuration request, and
-- the subcommand that sets the minimum PIN length.
use pico_fido_microkey.Base.{
  ℕ, ◌%◌, bit_and, Bool, true, false, not, ◌&&◌, ◌||◌, Option, List, [], ◌∷◌, ◌++◌, replicate,
  block, byte_at, ltb, ◌==◌, if◌then◌else◌,
}
use pico_fido_microkey.Base.Exec.{Exec, gets, require, guard, modify, ◌>>=◌, ◌>>◌}
use pico_fido_microkey.Sdk.{has_data}
use pico_fido_microkey.Files.{ef_pin, ef_minpinlen}
use pico_fido_microkey.Ctap.{
  CtapError, missing_parameter, pin_auth_invalid, pin_policy_violation, pin_not_set, puat_required,
  permission_acfg,
}
use pico_fido_microkey.Device.{Device, Crypto}
use pico_fido_microkey.ClientPin.Protocol.{verify}
use pico_fido_microkey.ClientPin.Steps.{Pin, min_pin_length, write_file}
pub mod MinPin

-- What the request holds: `raw_subpara` are the bytes of the subcommand's parameters, which are
-- decoded to the fields that follow it.
pub record ConfigParams : Type 0 where
  pub subcommand : ℕ
  pub raw_subpara : List ℕ
  pub new_min_pin_length : ℕ
  pub force_change_pin : Bool
  pub min_pin_length_rp_ids : List (List ℕ)
  pub pin_uv_auth_protocol : ℕ
  pub pin_uv_auth_param : Option (List ℕ)

-- What the platform authenticates.
abbrev pub verify_payload : ConfigParams → List ℕ
verify_payload p = replicate 32 0xff ++ 0x0d ∷ p.subcommand % 256 ∷ p.raw_subpara

module _ (crypto : Crypto) where
  unfoldable pub authenticate_config : ConfigParams → Pin (Unit {0})
  authenticate_config p = do
    param ← require p.pin_uv_auth_param puat_required
    guard (not (p.pin_uv_auth_protocol == 0)) missing_parameter
    paut ← gets (λ s. s.paut)
    guard (verify crypto (p.pin_uv_auth_protocol % 256) paut.bytes (verify_payload p) param)
        pin_auth_invalid
    guard (not (bit_and paut.permissions permission_acfg == 0)) pin_auth_invalid

  -- The hashes of the relying parties that may read the minimum length, one behind the other.
  unfoldable pub rp_id_hashes : List (List ℕ) → List ℕ
  rp_id_hashes [] = []
  rp_id_hashes (rp_id ∷ rest) = block 32 (crypto.sha256 rp_id).1 ++ rp_id_hashes rest

  -- No new length stands for the current one. A PIN that is too short now must be changed. The length
  -- is stored in one byte.
  unfoldable pub set_min_pin_length : ConfigParams → Pin (Unit {0})
  set_min_pin_length p = do
    files ← gets (λ s. s.files)
    let current = min_pin_length files
    let new = (if p.new_min_pin_length == 0 then current else p.new_min_pin_length)
    guard (not (ltb new current)) pin_policy_violation
    guard (not (p.force_change_pin && not (has_data (files ef_pin)))) pin_not_set
    let forced =
        p.force_change_pin || (has_data (files ef_pin) && ltb (byte_at (files ef_pin) 1) new)
    modify (
        write_file crypto ef_minpinlen
          (new % 256 ∷ (if forced then 1 else 0) ∷ rp_id_hashes p.min_pin_length_rp_ids))

  -- Subcommand 3.
  unfoldable pub config_min_pin_length : ConfigParams → Pin (Unit {0})
  config_min_pin_length p = do authenticate_config p; set_min_pin_length p
