-- ===== src/Config/MinPin.antt =====
-- The minimum PIN length that cbor_config.c sets, and what it means for the PIN.
use pico_fido_microkey.Base.{
  ℕ, ◌+◌, ◌%◌, ◌≡◌, ◌≤◌, ◌<◌, arith, Bool, true, false, ◌&&◌, ◌||◌, ◌∷◌, byte_at, ltb, ◌==◌,
  if◌then◌else◌,
}
use pico_fido_microkey.Base.Exec.{is_ok}
use pico_fido_microkey.Sdk.{has_data, IsFlash}
use pico_fido_microkey.Files.{ef_pin, ef_minpinlen}
use pico_fido_microkey.Device.{Device, Crypto}
use pico_fido_microkey.ClientPin.Params.{Params}
use pico_fido_microkey.ClientPin.Steps.{min_pin_length, must_change}
use pico_fido_microkey.ClientPin.Commands.{get_pin_token}
use pico_fido_microkey.ClientPin.Grant.{get_pin_token-must_change}
use pico_fido_microkey.Config.{
  ConfigParams, authenticate_config, rp_id_hashes, set_min_pin_length, config_min_pin_length,
}

module _ (crypto : Crypto) where
  authenticate_config_state :
      (p : ConfigParams) (s : Device) → (authenticate_config crypto p s).1 ≡ s
  unfolding authenticate_config
  authenticate_config_state p s = ground arith

  module _ (laws : IsFlash crypto.flash) where
    -- The length that a successful request asks for, or the current one.
    abbrev asked_length : ConfigParams → Device → ℕ
    asked_length p s =
        if p.new_min_pin_length == 0 then min_pin_length s.files else p.new_min_pin_length

    abbrev forces : ConfigParams → Device → Bool
    forces p s =
        p.force_change_pin
        || (has_data (s.files ef_pin) && ltb (byte_at (s.files ef_pin) 1) (asked_length p s))

    set_min_pin_length-file :
        (p : ConfigParams) (s : Device)
        → is_ok (set_min_pin_length crypto p s).0 ≡ true
        → ((set_min_pin_length crypto p s).1.files ef_minpinlen
            ≡ asked_length p s % 256
              ∷ (if forces p s then 1 else 0)
              ∷ rp_id_hashes crypto p.min_pin_length_rp_ids)
          × (min_pin_length s.files ≤ asked_length p s)
    unfolding set_min_pin_length
    set_min_pin_length-file p s h = ground (
      arith,
      laws.put_lem s.files ef_minpinlen
          (asked_length p s % 256
            ∷ (if forces p s then 1 else 0)
            ∷ rp_id_hashes crypto p.min_pin_length_rp_ids)
          ef_minpinlen,
    )

    config-file :
        (p : ConfigParams) (s : Device)
        → is_ok (config_min_pin_length crypto p s).0 ≡ true
        → ((config_min_pin_length crypto p s).1.files ef_minpinlen
            ≡ asked_length p s % 256
              ∷ (if forces p s then 1 else 0)
              ∷ rp_id_hashes crypto p.min_pin_length_rp_ids)
          × (min_pin_length s.files ≤ asked_length p s)
    unfolding config_min_pin_length
    config-file p s h = ground (arith, authenticate_config_state p s, set_min_pin_length-file p s)

    -- A new minimum PIN length that is below 256 is never less than the one before it.
    pub min_pin_length_grows :
        (p : ConfigParams) (s : Device)
        → p.new_min_pin_length < 256
        → min_pin_length s.files < 256
        → is_ok (config_min_pin_length crypto p s).0 ≡ true
        → min_pin_length s.files ≤ min_pin_length (config_min_pin_length crypto p s).1.files
    min_pin_length_grows p s b c h = let r = config-file p s h in ground (arith, r.0, r.1)

    -- A new minimum PIN length of 256 + k, for k below 256, is stored as k, so that it can become less
    -- than it was.
    pub min_pin_length_wraps :
        (p : ConfigParams) (s : Device) (k : ℕ)
        → p.new_min_pin_length ≡ 256 + k
        → k < 256
        → is_ok (config_min_pin_length crypto p s).0 ≡ true
        → min_pin_length (config_min_pin_length crypto p s).1.files ≡ k
    min_pin_length_wraps p s k e b h = let r = config-file p s h in ground (arith, r.0, r.1)

    must_change_after :
        (p : ConfigParams) (s : Device)
        → has_data (s.files ef_pin) ≡ true
        → byte_at (s.files ef_pin) 1 < p.new_min_pin_length
        → is_ok (config_min_pin_length crypto p s).0 ≡ true
        → must_change (config_min_pin_length crypto p s).1.files ≡ true
    must_change_after p s d l h = let r = config-file p s h in ground (arith, r.0)

    -- Where a request sets the minimum length above the length of the PIN, no token is given out in the
    -- state that it leaves, not even for the right PIN.
    pub get_pin_token_after_config :
        (now : ℕ) (p : ConfigParams) (q : Params) (s : Device)
        → has_data (s.files ef_pin) ≡ true
        → byte_at (s.files ef_pin) 1 < p.new_min_pin_length
        → is_ok (config_min_pin_length crypto p s).0 ≡ true
        → is_ok (get_pin_token crypto now q (config_min_pin_length crypto p s).1).0 ≡ false
    get_pin_token_after_config now p q s d l h =
        get_pin_token-must_change crypto laws now q (config_min_pin_length crypto p s).1
          (must_change_after p s d l h)
