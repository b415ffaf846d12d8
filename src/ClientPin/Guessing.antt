-- ===== src/ClientPin/Guessing.antt =====
-- Guessing the PIN through getPinToken and changePIN: the retries bound the answers.
use pico_fido_microkey.Base.{
  ℕ, ◌+◌, ◌≤◌, ◌<◌, ◌≡◌, ◌==◌, arith, Bool, true, false, [], ◌∷◌, List, inl, inr, if◌then◌else◌,
}
use pico_fido_microkey.Base.Exec.{Result-cases, Result, ok, err, is_ok}
use pico_fido_microkey.Sdk.{Contents, IsFlash}
use pico_fido_microkey.Ctap.{CtapError, pin_invalid, pin_auth_blocked, cbor_unexpected_type}
use pico_fido_microkey.Device.{Device, Crypto}
use pico_fido_microkey.ClientPin.Protocol.{ecdh, decrypt}
use pico_fido_microkey.ClientPin.Params.{Params}
use pico_fido_microkey.ClientPin.Checks.{
  check_token, check_change, check_token-TokenAccepted, check_change-ChangeAccepted,
}
use pico_fido_microkey.ClientPin.Steps.{pin_retries, pin_hash, try_pin, Pin}
use pico_fido_microkey.ClientPin.Commands.{Reply, get_pin_token, change_pin}
use pico_fido_microkey.ClientPin.Retries.{
  pin_matches, try_pin_ok, try_pin-ef_pin, pin_hash-with_retries, decrypts_to_pin,
}

-- A request that tries the PIN.
pub data Attempt : Type 0 where
  token_attempt : ℕ → Params → Attempt
  change_attempt : Params → Attempt

abbrev pub params : Attempt → Params
params (token_attempt now p) = p
params (change_attempt p) = p

-- Whether the answer says that the PIN is wrong, and that one may go on.
abbrev pub tells_wrong : Result CtapError Reply → Bool
tells_wrong (ok r) = false
tells_wrong (err cbor_unexpected_type) = false
tells_wrong (err pin_invalid) = true
tells_wrong (err pin_auth_blocked) = true
tells_wrong (err _) = false

-- A wrong attempt from `s` that ends with `r` in `t`.
pub record Spent (s : Device) (r : Result CtapError Reply) (t : Device) : Type 0 where
  pub refused : is_ok r ≡ false
  pub no_more : pin_retries t.files ≤ pin_retries s.files
  pub one_less : tells_wrong r ≡ true → pin_retries t.files + 1 ≡ pin_retries s.files
  pub same_hash : pin_hash t.files ≡ pin_hash s.files

check_token_wrong :
    (p : Params) (files : Contents) (e : CtapError)
    → check_token p files ≡ err e
    → tells_wrong (err e) ≡ false
unfolding check_token
check_token_wrong p files e h = ground arith

check_change_wrong :
    (p : Params) (files : Contents) (e : CtapError)
    → check_change p files ≡ err e
    → tells_wrong (err e) ≡ false
unfolding check_change
check_change_wrong p files e h = ground arith

module _ (crypto : Crypto) where
  abbrev pub attempt : Attempt → Pin Reply
  attempt (token_attempt now p) = get_pin_token crypto now p
  attempt (change_attempt p) = change_pin crypto p

  module _ (laws : IsFlash crypto.flash) where
    try_pin_wrong :
        (protocol : ℕ) (secret enc : List ℕ) (s : Device)
        → decrypts_to_pin crypto
            (decrypt crypto protocol secret enc 64 (crypto.stack s.draws))
            (pin_hash s.files)
          ≡ false
        → (pin_retries s.files == 0) ≡ false
        → pin_retries s.files < 256
        → (is_ok (try_pin crypto protocol secret enc s).0 ≡ false)
          × (pin_retries (try_pin crypto protocol secret enc s).1.files + 1 ≡ pin_retries s.files)
          × (pin_hash (try_pin crypto protocol secret enc s).1.files ≡ pin_hash s.files)
    try_pin_wrong protocol secret enc s wrong h b = (
      cc (try_pin_ok crypto laws protocol secret enc s),
      ground (arith, try_pin-ef_pin crypto laws protocol secret enc s),
      rw (try_pin-ef_pin crypto laws protocol secret enc s) (pin_hash-with_retries _ s.files),
    )

    token_Spent :
        (now : ℕ) (p : Params) (s : Device)
        → pin_matches crypto p s ≡ false
        → pin_retries s.files < 256
        → Spent s (get_pin_token crypto now p s).0 (get_pin_token crypto now p s).1
    unfolding get_pin_token
    token_Spent now p s w b = elim (Result-cases (check_token p s.files)) [
      | inl (q, e) ↦ ground (
        arith,
        check_token-TokenAccepted p s.files q e,
        try_pin_wrong p.pin_uv_auth_protocol (ecdh crypto p.pin_uv_auth_protocol s.hkey q.x q.y).1
            q.pin_hash_enc s,
      )
      | inr (r, e) ↦ ground (arith, check_token_wrong p s.files r)
    ]

    change_Spent :
        (p : Params) (s : Device)
        → pin_matches crypto p s ≡ false
        → pin_retries s.files < 256
        → Spent s (change_pin crypto p s).0 (change_pin crypto p s).1
    unfolding change_pin
    change_Spent p s w b = elim (Result-cases (check_change p s.files)) [
      | inl (q, e) ↦ ground (
        arith,
        check_change-ChangeAccepted p s.files q e,
        try_pin_wrong p.pin_uv_auth_protocol (ecdh crypto p.pin_uv_auth_protocol s.hkey q.x q.y).1
            q.pin_hash_enc s,
      )
      | inr (r, e) ↦ ground (arith, check_change_wrong p s.files r)
    ]

    -- A request with a wrong PIN is refused; the retries never grow, and each answer that tells the
    -- PIN to be wrong costs one.
    pub attempt-Spent :
        (a : Attempt) (s : Device)
        → pin_matches crypto (params a) s ≡ false
        → pin_retries s.files < 256
        → Spent s (attempt a s).0 (attempt a s).1
    attempt-Spent (token_attempt now p) s w b = token_Spent now p s w b
    attempt-Spent (change_attempt p) s w b = change_Spent p s w b

  -- The device after some attempts, and how many of the answers told that the PIN was wrong.
  unfoldable pub run_attempts : List Attempt → Device → Device
  run_attempts [] s = s
  run_attempts (a ∷ rest) s = run_attempts rest (attempt a s).1

  unfoldable pub wrong_answers : List Attempt → Device → ℕ
  wrong_answers [] s = 0
  wrong_answers (a ∷ rest) s =
      (if tells_wrong (attempt a s).0 then 1 else 0) + wrong_answers rest (attempt a s).1

  -- No attempt of the list, when it is decrypted, leaves the hash of the stored PIN in the array.
  abbrev pub AllWrong : List Attempt → Device → Type 0
  AllWrong [] s = Unit
  AllWrong (a ∷ rest) s = (pin_matches crypto (params a) s ≡ false) × AllWrong rest (attempt a s).1

  -- However many wrong PINs are tried, and by whichever of the two subcommands, no more answers are
  -- given than there were retries, as long as no attempt leaves the hash of the stored PIN in the array
  -- that it is decrypted into: those that tell the PIN to be wrong, and the retries left in the
  -- end, are together at most the retries at the start.
  pub wrong_answers-le-retries :
      (laws : IsFlash crypto.flash) (rest : List Attempt) (s : Device)
      → AllWrong rest s
      → pin_retries s.files < 256
      → wrong_answers rest s + pin_retries (run_attempts rest s).files ≤ pin_retries s.files
  unfolding wrong_answers run_attempts
  wrong_answers-le-retries laws [] s w b = omega arith
  wrong_answers-le-retries laws (a ∷ rest) s w b =
      let h = attempt-Spent laws a s w.0 b in
      ground (arith, h.no_more, h.one_less, wrong_answers-le-retries laws rest (attempt a s).1 w.1)
