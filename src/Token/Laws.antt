-- ===== src/Token/Laws.antt =====
-- What the flags and the timers of the PIN/UV auth token guarantee.
use pico_fido_microkey.Base.{ℕ, ◌+◌, ◌^◌, ◌≤◌, ◌<◌, ◌≡◌, ◌≢◌, false, arith}
use pico_fido_microkey.Device.{Device}
use pico_fido_microkey.Token.{
  running, max_usage_time_period, get_user_present_flag_value, get_user_verified_flag_value,
  pin_uv_auth_token_usage_timer_observer,
}

-- A token that can no longer be used.
pub record Retired (s : Device) : Type 0 where
  pub not_in_use : s.paut.in_use ≡ false
  pub no_permissions : s.paut.permissions ≡ 0
  pub no_rp : s.paut.has_rp_id ≡ false
  pub not_present : (get_user_present_flag_value s).0 ≡ false
  pub not_verified : (get_user_verified_flag_value s).0 ≡ false
  pub no_timer : s.usage_timer ≡ 0

-- When the usage period is over, the observer does nothing: the token stays in use, with its
-- permissions, for good.
pub observer_after_period :
    (now : ℕ) (s : Device)
    → s.usage_timer ≢ 0
    → s.usage_timer + max_usage_time_period < 2 ^ 32
    → s.usage_timer + max_usage_time_period ≤ now
    → pin_uv_auth_token_usage_timer_observer now s ≡ (running, s)
unfolding pin_uv_auth_token_usage_timer_observer
observer_after_period now s t w b = ground arith
