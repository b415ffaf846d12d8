-- ===== src/ClientPin/Grant.antt =====
-- What a PIN/UV auth token that cbor_client_pin.c gives out is good for.
use pico_fido_microkey.Base.{
  ℕ, ◌%◌, ◌≡◌, refl, ◌∙◌, arith, true, false, ◌==◌, length, List, inl, inr, is_some, if◌then◌else◌,
}
use pico_fido_microkey.Base.Exec.{ok, is_ok, Result-cases}
use pico_fido_microkey.Sdk.{IsFlash}
use pico_fido_microkey.Files.{ef_authtoken, ef_pin, ef_minpinlen, ef_mkek}
use pico_fido_microkey.Ctap.{max_pin_retries}
use pico_fido_microkey.Device.{Device, Crypto}
use pico_fido_microkey.Token.{begin_using_pin_uv_auth_token, reset_pin_uv_auth_token}
use pico_fido_microkey.ClientPin.Protocol.{ecdh}
use pico_fido_microkey.ClientPin.Params.{Params}
use pico_fido_microkey.ClientPin.Checks.{TokenRequest, check_token, check_token-TokenAccepted}
use pico_fido_microkey.ClientPin.Steps.{
  try_pin, accept_pin, check_mkek_encrypted, pin_retries, must_change, with_retries,
}
use pico_fido_microkey.ClientPin.Retries.{
  pin_matches, try_pin_ok, check_mkek_encrypted-file, try_pin-file,
}
use pico_fido_microkey.ClientPin.Commands.{get_pin_token, grant_token}

-- What the request asked for: subcommand 5 has no permissions of its own.
abbrev pub asked : Params → ℕ
asked p = if p.subcommand == 0x05 then 3 else p.permissions % 256

-- The state after a token was given out for `p` at `now`.
pub record Granted (now : ℕ) (p : Params) (t : Device) : Type 0 where
  pub in_use : t.paut.in_use ≡ true
  pub user_verified : t.paut.user_verified ≡ true
  pub user_present : t.paut.user_present ≡ false
  pub permissions : t.paut.permissions ≡ asked p
  pub has_rp_id : t.paut.has_rp_id ≡ is_some p.rp_id
  pub stored : t.paut.bytes ≡ t.files ef_authtoken
  pub started : (t.usage_timer ≡ now) × (t.initial_usage_time_limit ≡ now)
  pub all_retries : pin_retries t.files ≡ max_pin_retries
  pub no_mismatches : t.new_pin_mismatches ≡ 0

module _ (crypto : Crypto) (laws : IsFlash crypto.flash) where
  grant_token-Granted :
      (now : ℕ) (p : Params) (secret padded : List ℕ) (s : Device)
      → Granted now p (grant_token crypto now p secret (accept_pin crypto padded s)).1
  unfolding grant_token accept_pin begin_using_pin_uv_auth_token reset_pin_uv_auth_token
  grant_token-Granted now p secret padded s = ground (
    arith,
    laws.put_lem s.files ef_pin (with_retries max_pin_retries s.files) ef_pin,
    laws.put_lem (crypto.flash.file_put_data s.files ef_pin (with_retries max_pin_retries s.files))
        ef_authtoken (crypto.random_gen s.draws 32) ef_pin,
  )

  -- A request that gets a token leaves the device with a token that is in use, is the one in flash,
  -- has the permissions that were asked for (those of makeCredential and getAssertion for
  -- subcommand 5), is bound to a relying party exactly if one was named, shows user verification
  -- but no presence, and starts its timers; the PIN has all its retries again.
  pub get_pin_token-Granted :
      (now : ℕ) (p : Params) (s : Device)
      → is_ok (get_pin_token crypto now p s).0 ≡ true
      → Granted now p (get_pin_token crypto now p s).1
  unfolding get_pin_token
  get_pin_token-Granted now p s h = elim (Result-cases (check_token p s.files)) [
    | inl (q, e) ↦ grind (arith, grant_token-Granted)
    | inr (r, e) ↦ ground arith
  ]

  must_change_accept :
      (padded : List ℕ) (s : Device)
      → must_change (accept_pin crypto padded s).files ≡ must_change s.files
  unfolding accept_pin
  must_change_accept padded s =
      rw (laws.put_lem s.files ef_pin (with_retries max_pin_retries s.files) ef_minpinlen)

  must_change_at_check :
      (protocol : ℕ) (secret enc dhash padded : List ℕ) (s : Device)
      → let t = (try_pin crypto protocol secret enc s).1 in
        must_change (accept_pin crypto padded (check_mkek_encrypted crypto dhash t).1).files
        ≡ must_change s.files
  must_change_at_check protocol secret enc dhash padded s =
      let t = (try_pin crypto protocol secret enc s).1 in
      must_change_accept padded (check_mkek_encrypted crypto dhash t).1
      ∙ rw (
        check_mkek_encrypted-file crypto laws dhash t ef_minpinlen refl,
        try_pin-file crypto laws protocol secret enc s ef_minpinlen refl,
      )

  -- While the PIN must be changed, no token is given out, not even for the right PIN.
  pub get_pin_token-must_change :
      (now : ℕ) (p : Params) (s : Device)
      → must_change s.files ≡ true
      → is_ok (get_pin_token crypto now p s).0 ≡ false
  unfolding get_pin_token
  get_pin_token-must_change now p s h = elim (Result-cases (check_token p s.files)) [
    | inl (q, e) ↦ grind (arith, must_change_at_check)
    | inr (r, e) ↦ ground arith
  ]

  check_mkek_encrypted_done :
      (dhash : List ℕ) (s : Device)
      → (length (s.files ef_mkek) == 48) ≡ false
      → check_mkek_encrypted crypto dhash s ≡ (ok tt, s)
  unfolding check_mkek_encrypted
  check_mkek_encrypted_done dhash s h = ground arith

  -- A well-formed request with the right PIN gets a token, if the master key is encrypted already and
  -- the PIN need not be changed.
  pub get_pin_token_right :
      (now : ℕ) (p : Params) (q : TokenRequest) (s : Device)
      → check_token p s.files ≡ ok q
      → crypto.mpi_read_binary q.x ≡ 0
      → crypto.mpi_read_binary q.y ≡ 0
      → (ecdh crypto p.pin_uv_auth_protocol s.hkey q.x q.y).0 ≡ 0
      → pin_matches crypto p s ≡ true
      → (length (s.files ef_mkek) == 48) ≡ false
      → must_change s.files ≡ false
      → is_ok (get_pin_token crypto now p s).0 ≡ true
  unfolding get_pin_token grant_token
  get_pin_token_right now p q s e hx hy hs m k f =
      let protocol = p.pin_uv_auth_protocol in
      let secret = (ecdh crypto protocol s.hkey q.x q.y).1 in
      let acc = check_token-TokenAccepted p s.files q e in
      grind (
        arith,
        acc.kax,
        acc.kay,
        acc.hash,
        try_pin_ok crypto laws protocol secret q.pin_hash_enc s,
        try_pin-file crypto laws protocol secret q.pin_hash_enc s ef_mkek refl,
        check_mkek_encrypted_done,
        must_change_at_check protocol secret q.pin_hash_enc,
      )
