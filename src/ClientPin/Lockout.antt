-- ===== src/ClientPin/Lockout.antt =====
-- The PIN retries of cbor_client_pin.c: what a wrong PIN costs, and when the PIN is blocked.
use pico_fido_microkey.Base.{ℕ, ◌≡◌, refl, arith, true, false}
use pico_fido_microkey.Base.Exec.{Result, ok, err, is_ok}
use pico_fido_microkey.Sdk.{has_data}
use pico_fido_microkey.Files.{ef_pin}
use pico_fido_microkey.Ctap.{CtapError}
use pico_fido_microkey.Device.{Device, Crypto}
use pico_fido_microkey.Cbor.{Item}
use pico_fido_microkey.ClientPin.Params.{Params}
use pico_fido_microkey.ClientPin.Checks.{check_set, check_change, check_token}
use pico_fido_microkey.ClientPin.Steps.{pin_retries}
use pico_fido_microkey.ClientPin.Commands.{
  get_pin_retries, get_key_agreement, set_pin, get_pin_token, change_pin, dispatch, dispatch_parsed,
  cbor_client_pin, parse_item,
}

module _ (crypto : Crypto) where
  get_pin_token_blocked :
      (now : ℕ) (p : Params) (s : Device)
      → pin_retries s.files ≡ 0
      → (is_ok (get_pin_token crypto now p s).0 ≡ false) × ((get_pin_token crypto now p s).1 ≡ s)
  unfolding get_pin_token check_token
  get_pin_token_blocked now p s h = ground arith

  change_pin_blocked :
      (p : Params) (s : Device)
      → pin_retries s.files ≡ 0
      → (is_ok (change_pin crypto p s).0 ≡ false) × ((change_pin crypto p s).1 ≡ s)
  unfolding change_pin check_change
  change_pin_blocked p s h = ground arith

  set_pin_blocked :
      (p : Params) (s : Device)
      → has_data (s.files ef_pin) ≡ true
      → (is_ok (set_pin crypto p s).0 ≡ false) × ((set_pin crypto p s).1 ≡ s)
  unfolding set_pin check_set
  set_pin_blocked p s h = ground arith

  dispatch_blocked :
      (now : ℕ) (p : Params) (s : Device)
      → has_data (s.files ef_pin) ≡ true
      → pin_retries s.files ≡ 0
      → (dispatch crypto now p s).1 ≡ s
  unfolding dispatch get_pin_retries get_key_agreement
  dispatch_blocked now p s d h =
      ground
        (arith, get_pin_token_blocked now p s h, change_pin_blocked p s h, set_pin_blocked p s d)

  dispatch_parsed_blocked :
      (now : ℕ) (r : Result CtapError Params) (s : Device)
      → has_data (s.files ef_pin) ≡ true
      → pin_retries s.files ≡ 0
      → (dispatch_parsed crypto now r s).1 ≡ s
  dispatch_parsed_blocked now (err e) s d h = refl
  dispatch_parsed_blocked now (ok p) s d h = dispatch_blocked now p s d h

  -- Once a PIN is set and no retries are left, no authenticatorClientPIN request of any kind changes
  -- the device or its files, once the key agreement key is there.
  pub cbor_client_pin_blocked :
      (now : ℕ) (item : Item) (s : Device)
      → s.hkey_init ≡ true
      → has_data (s.files ef_pin) ≡ true
      → pin_retries s.files ≡ 0
      → (cbor_client_pin crypto now item s).1 ≡ s
  cbor_client_pin_blocked now item s k d h =
      unfold cbor_client_pin in simp k (dispatch_parsed_blocked now (parse_item item) s d h)
