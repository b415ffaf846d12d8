-- ===== src/Tests/Config.antt =====
-- Runs of the minimum PIN length.
use pico_fido_microkey.Base.{ℕ, ◌≡◌, refl, arith, true, false, some, [], replicate, memcmp_eq}
use pico_fido_microkey.Base.Exec.{is_ok}
use pico_fido_microkey.Sdk.{ideal_flash-IsFlash}
use pico_fido_microkey.Device.{Device}
use pico_fido_microkey.ClientPin.Protocol.{verify}
use pico_fido_microkey.ClientPin.Steps.{min_pin_length}
use pico_fido_microkey.ClientPin.Commands.{get_pin_token}
use pico_fido_microkey.Config.{
  ConfigParams, authenticate_config, set_min_pin_length, config_min_pin_length,
}
use pico_fido_microkey.Config.MinPin.{min_pin_length_wraps, get_pin_token_after_config}
use pico_fido_microkey.Tests.Toy.{toy, pin, device, with_pin, no_token, token_request}

-- A device whose token may change the configuration.
abbrev configured : Device
configured = record (device (with_pin 8)) { paut = record no_token { permissions = 0x20 } }

abbrev config_request : ℕ → ConfigParams
config_request n = record {
  subcommand = 3;
  raw_subpara = [];
  new_min_pin_length = n;
  force_change_pin = false;
  min_pin_length_rp_ids = [];
  pin_uv_auth_protocol = 2;
  pin_uv_auth_param = some (replicate 32 0xff);
}

longer_set : is_ok (config_min_pin_length toy (config_request 6) configured).0 ≡ true
unfolding config_min_pin_length authenticate_config set_min_pin_length verify memcmp_eq
longer_set = refl

wrapped_set : is_ok (config_min_pin_length toy (config_request 257) configured).0 ≡ true
unfolding config_min_pin_length authenticate_config set_min_pin_length verify memcmp_eq
wrapped_set = refl

min_pin_length_wraps_example :
    min_pin_length (config_min_pin_length toy (config_request 257) configured).1.files ≡ 1
min_pin_length_wraps_example =
    min_pin_length_wraps toy ideal_flash-IsFlash (config_request 257) configured 1 refl
      (omega arith) wrapped_set

get_pin_token_after_config_example :
    is_ok
      (get_pin_token toy 5
        (token_request pin)
        (config_min_pin_length toy (config_request 6) configured).1).0
    ≡ false
get_pin_token_after_config_example =
    get_pin_token_after_config toy ideal_flash-IsFlash 5 (config_request 6) (token_request pin)
      configured refl (omega arith) longer_set
