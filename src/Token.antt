-- ===== src/Token.antt =====
-- cbor_client_pin.c, lines 42 to 98, 174 to 184 and 253 to 281: the PIN/UV auth token, its flags and
-- its timers. The clock, `board_millis()`, is an argument. Times are uint32_t and wrap.
pub mod Laws
use pico_fido_microkey.Base.{
  ℕ, ◌+◌, ◌*◌, ◌%◌, ◌^◌, Bool, true, false, not, ◌&&◌, ◌||◌, [], replicate, ltb, ◌==◌,
  if◌then◌else◌,
}
use pico_fido_microkey.Files.{ef_authtoken}
use pico_fido_microkey.Ctap.{permission_lbw}
use pico_fido_microkey.Device.{PinUvAuthToken, Device, Crypto}

abbrev pub max_usage_time_period : ℕ
max_usage_time_period = 600 * 1000

abbrev pub transport_time_limit : ℕ
transport_time_limit = 30 * 1000

abbrev pub add32 : ℕ → ℕ → ℕ
add32 a b = (a + b) % 2 ^ 32

unfoldable pub begin_using_pin_uv_auth_token : Bool → ℕ → Device → Device
begin_using_pin_uv_auth_token user_is_present now s = record s {
  paut = record s.paut { user_present = user_is_present; user_verified = true; in_use = true };
  initial_usage_time_limit = now;
  usage_timer = now;
}

unfoldable pub clear_user_present_flag : Device → Device
clear_user_present_flag s =
    if s.paut.in_use then record s { paut = record s.paut { user_present = false } } else s

unfoldable pub clear_user_verified_flag : Device → Device
clear_user_verified_flag s =
    if s.paut.in_use then record s { paut = record s.paut { user_verified = false } } else s

unfoldable pub clear_pin_uv_auth_token_permissions_except_lbw : Device → Device
clear_pin_uv_auth_token_permissions_except_lbw s =
    if s.paut.in_use then record s { paut = record s.paut { permissions = permission_lbw } } else s

unfoldable pub stop_using_pin_uv_auth_token : Device → Device
stop_using_pin_uv_auth_token s = record s {
  paut = record s.paut {
    permissions = 0;
    in_use = false;
    rp_id_hash = replicate 32 0;
    has_rp_id = false;
    user_present = false;
    user_verified = false;
  };
  usage_timer = 0;
  initial_usage_time_limit = 0;
  user_present_time_limit = 0;
}

-- The getters write the flag of a token that is not in use.
unfoldable pub get_user_present_flag_value : Device → Bool × Device
get_user_present_flag_value s =
    if s.paut.in_use
    then (s.paut.user_present, s)
    else (false, record s { paut = record s.paut { user_present = false } })

unfoldable pub get_user_verified_flag_value : Device → Bool × Device
get_user_verified_flag_value s =
    if s.paut.in_use
    then (s.paut.user_verified, s)
    else (false, record s { paut = record s.paut { user_verified = false } })

-- What the observer returns.
pub data Observed : Type 0 where
  not_started running stopped : Observed

unfoldable pub drop_stale_presence : ℕ → Device → Device
unfolding clear_user_present_flag
drop_stale_presence now s =
    if s.user_present_time_limit == 0
      || ltb (add32 s.user_present_time_limit transport_time_limit) now
    then clear_user_present_flag s
    else s

unfoldable pub stop_unused : ℕ → Device → Observed × Device
unfolding stop_using_pin_uv_auth_token
stop_unused now s =
    if s.paut.in_use
      && (s.initial_usage_time_limit == 0
          || ltb (add32 s.initial_usage_time_limit transport_time_limit) now)
    then (stopped, stop_using_pin_uv_auth_token s)
    else (running, s)

unfoldable pub pin_uv_auth_token_usage_timer_observer : ℕ → Device → Observed × Device
unfolding drop_stale_presence stop_unused
pin_uv_auth_token_usage_timer_observer now s =
    if s.usage_timer == 0
    then (not_started, s)
    else if ltb now (add32 s.usage_timer max_usage_time_period)
    then stop_unused now (drop_stale_presence now s)
    else (running, s)

module _ (crypto : Crypto) where
  unfoldable pub regenerate : Device → Device
  regenerate s = record s {
    hkey = crypto.gen_public s.draws;
    hkey_init = true;
    draws = s.draws + 1;
  }

  unfoldable pub reset_pin_uv_auth_token : Device → Device
  reset_pin_uv_auth_token s =
      let files = crypto.flash.file_put_data s.files ef_authtoken (crypto.random_gen s.draws 32) in
      record s {
        files = files;
        paut = record s.paut { permissions = 0; bytes = files ef_authtoken };
        draws = s.draws + 1;
      }

  unfoldable pub initialize : Device → Device
  unfolding regenerate reset_pin_uv_auth_token
  initialize s = reset_pin_uv_auth_token (regenerate s)
