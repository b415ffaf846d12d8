-- ===== src/ClientPin/Invariant.antt =====
-- The PIN file keeps its form under every authenticatorClientPIN request.
use pico_fido_microkey.Base.{
  ℕ, ◌+◌, ◌%◌, ◌≤◌, ◌≡◌, refl, arith, Bool, true, false, leb, ◌==◌, ◌&&◌, byte_at, length, List, [],
  ◌∷◌, inl, inr, block, read_bytes, length-block, if◌then◌else◌,
}
use pico_fido_microkey.Base.Exec.{Result, ok, err, Result-cases}
use pico_fido_microkey.Sdk.{IsFlash, has_data}
use pico_fido_microkey.Files.{ef_pin, ef_minpinlen, ef_authtoken}
use pico_fido_microkey.Ctap.{CtapError, max_pin_retries}
use pico_fido_microkey.Device.{Device, Crypto}
use pico_fido_microkey.Cbor.{Item}
use pico_fido_microkey.Token.{initialize, reset_pin_uv_auth_token, begin_using_pin_uv_auth_token}
use pico_fido_microkey.Kek.{load_mkek}
use pico_fido_microkey.ClientPin.Protocol.{ecdh}
use pico_fido_microkey.ClientPin.Params.{Params}
use pico_fido_microkey.ClientPin.Checks.{
  check_change, check_token, check_change-ChangeAccepted, check_token-TokenAccepted,
}
use pico_fido_microkey.ClientPin.Steps.{
  write_file, must_change, try_pin, accept_pin, pin_retries, with_retries, new_pin_data, pin_digest,
}
use pico_fido_microkey.ClientPin.Retries.{
  check_mkek_encrypted-file, store_mkek-file, try_pin-ef_pin,
}
use pico_fido_microkey.ClientPin.Enrol.{pin_length-lt}
use pico_fido_microkey.ClientPin.Commands.{
  enrol_pin, set_pin, install_pin, clear_must_change, replace_pin, change_pin, grant_token,
  get_pin_token, get_pin_retries, get_key_agreement, dispatch, dispatch_parsed, parse_item,
  cbor_client_pin,
}

-- EF_PIN is empty, or holds at most 8 retries, a PIN length of at most 63 and a hash of 32 bytes.
unfoldable pub is_pin_file : List ℕ → Bool
is_pin_file [] = true
is_pin_file (r ∷ []) = false
is_pin_file (r ∷ n ∷ hash) = leb r max_pin_retries && (leb n 63 && length hash == 32)

is_pin_file-set_retries :
    (m : ℕ) (f : List ℕ)
    → m ≤ max_pin_retries
    → has_data f ≡ true
    → is_pin_file f ≡ true
    → is_pin_file (m ∷ read_bytes f 1 33) ≡ true
unfolding is_pin_file read_bytes
is_pin_file-set_retries m [] h d w = ground arith
is_pin_file-set_retries m (r ∷ []) h d w = ground arith
is_pin_file-set_retries m (r ∷ n ∷ hash) h d w = ground (arith, length-block 32 hash)

is_pin_file_retries : (f : List ℕ) → is_pin_file f ≡ true → byte_at f 0 ≤ max_pin_retries
unfolding is_pin_file
is_pin_file_retries [] w = omega arith
is_pin_file_retries (r ∷ []) w = ground arith
is_pin_file_retries (r ∷ n ∷ hash) w = ground arith

module _ (crypto : Crypto) where
  is_pin_file-new_pin_data :
      (padded : List ℕ) → byte_at padded 63 ≡ 0 → is_pin_file (new_pin_data crypto padded) ≡ true
  unfolding is_pin_file new_pin_data
  is_pin_file-new_pin_data padded h = ground (
    arith,
    pin_length-lt padded 63 h,
    length-block 32 (crypto.double_hash_pin (block 16 (pin_digest crypto padded))),
  )

  module _ (laws : IsFlash crypto.flash) where
    accept_pin-ef_pin :
        (padded : List ℕ) (s : Device)
        → (accept_pin crypto padded s).files ef_pin ≡ with_retries max_pin_retries s.files
    unfolding accept_pin
    accept_pin-ef_pin padded s =
        laws.put_lem s.files ef_pin (with_retries max_pin_retries s.files) ef_pin

    reset-ef_pin : (s : Device) → (reset_pin_uv_auth_token crypto s).files ef_pin ≡ s.files ef_pin
    unfolding reset_pin_uv_auth_token
    reset-ef_pin s = laws.put_lem s.files ef_authtoken (crypto.random_gen s.draws 32) ef_pin

    grant-ef_pin :
        (now : ℕ) (p : Params) (secret : List ℕ) (s : Device)
        → (grant_token crypto now p secret s).1.files ef_pin ≡ s.files ef_pin
    unfolding grant_token begin_using_pin_uv_auth_token
    grant-ef_pin now p secret s = reset-ef_pin s

    enrol_pin_keeps :
        (protocol : ℕ) (key enc : List ℕ) (s : Device)
        → is_pin_file (s.files ef_pin) ≡ true
        → is_pin_file ((enrol_pin crypto protocol key enc s).1.files ef_pin) ≡ true
    unfolding enrol_pin
    enrol_pin_keeps protocol key enc s w =
        grind (arith, check_mkek_encrypted-file crypto laws, laws.put_lem, is_pin_file-new_pin_data)

    written_if :
        (b : Bool) (d : List ℕ) (s : Device)
        → (if b then write_file crypto ef_minpinlen d s else s).files ef_pin ≡ s.files ef_pin
    written_if true d s = laws.put_lem s.files ef_minpinlen d ef_pin
    written_if false d s = refl

    clear-ef_pin : (s : Device) → (clear_must_change crypto s).files ef_pin ≡ s.files ef_pin
    unfolding clear_must_change
    clear-ef_pin s = written_if (must_change s.files) _ s

    install_pin_keeps :
        (padded : List ℕ) (s : Device)
        → byte_at padded 63 ≡ 0
        → is_pin_file (s.files ef_pin) ≡ true
        → is_pin_file ((install_pin crypto padded s).1.files ef_pin) ≡ true
    unfolding install_pin load_mkek
    install_pin_keeps padded s h w = grind (
      arith,
      check_mkek_encrypted-file crypto laws,
      store_mkek-file crypto laws,
      reset-ef_pin,
      clear-ef_pin,
      laws.put_lem,
      is_pin_file-new_pin_data,
    )

    replace_pin_keeps :
        (protocol : ℕ) (key enc : List ℕ) (s : Device)
        → is_pin_file (s.files ef_pin) ≡ true
        → is_pin_file ((replace_pin crypto protocol key enc s).1.files ef_pin) ≡ true
    unfolding replace_pin
    replace_pin_keeps protocol key enc s w = grind (arith, install_pin_keeps)

    -- EF_PIN after a try, and after an accepted one.
    tried_keeps :
        (protocol : ℕ) (secret enc padded : List ℕ) (s : Device)
        → (pin_retries s.files == 0) ≡ false
        → has_data (s.files ef_pin) ≡ true
        → is_pin_file (s.files ef_pin) ≡ true
        → is_pin_file ((try_pin crypto protocol secret enc s).1.files ef_pin) ≡ true
    tried_keeps protocol secret enc padded s z d w =
        rw (try_pin-ef_pin crypto laws protocol secret enc s) (
          is_pin_file-set_retries ((pin_retries s.files + 255) % 256) (s.files ef_pin)
            (let h = is_pin_file_retries (s.files ef_pin) w in ground arith) d w)

    tried_has_data :
        (protocol : ℕ) (secret enc : List ℕ) (s : Device)
        → has_data ((try_pin crypto protocol secret enc s).1.files ef_pin) ≡ true
    tried_has_data protocol secret enc s = rw (try_pin-ef_pin crypto laws protocol secret enc s)

    accepted_keeps :
        (padded : List ℕ) (s : Device)
        → has_data (s.files ef_pin) ≡ true
        → is_pin_file (s.files ef_pin) ≡ true
        → is_pin_file ((accept_pin crypto padded s).files ef_pin) ≡ true
    accepted_keeps padded s d w =
        rw (accept_pin-ef_pin padded s)
          (is_pin_file-set_retries max_pin_retries (s.files ef_pin) (omega arith) d w)

    set_pin_keeps :
        (p : Params) (s : Device)
        → is_pin_file (s.files ef_pin) ≡ true
        → is_pin_file ((set_pin crypto p s).1.files ef_pin) ≡ true
    unfolding set_pin
    set_pin_keeps p s w = grind (arith, enrol_pin_keeps)

    change_pin_keeps :
        (p : Params) (s : Device)
        → is_pin_file (s.files ef_pin) ≡ true
        → is_pin_file ((change_pin crypto p s).1.files ef_pin) ≡ true
    unfolding change_pin
    change_pin_keeps p s w = elim (Result-cases (check_change p s.files)) [
      | inl (q, e) ↦
          let acc = check_change-ChangeAccepted p s.files q e in
          let protocol = p.pin_uv_auth_protocol in
          let secret = (ecdh crypto protocol s.hkey q.x q.y).1 in
          grind (
            arith,
            tried_has_data protocol secret q.pin_hash_enc s,
            tried_keeps protocol secret q.pin_hash_enc [] s acc.tries_left acc.pin_set w,
            accepted_keeps,
            replace_pin_keeps,
          )
      | inr (r, e) ↦ ground arith
    ]

    get_pin_token_keeps :
        (now : ℕ) (p : Params) (s : Device)
        → is_pin_file (s.files ef_pin) ≡ true
        → is_pin_file ((get_pin_token crypto now p s).1.files ef_pin) ≡ true
    unfolding get_pin_token
    get_pin_token_keeps now p s w = elim (Result-cases (check_token p s.files)) [
      | inl (q, e) ↦
          let acc = check_token-TokenAccepted p s.files q e in
          let protocol = p.pin_uv_auth_protocol in
          let secret = (ecdh crypto protocol s.hkey q.x q.y).1 in
          grind (
            arith,
            tried_has_data protocol secret q.pin_hash_enc s,
            tried_keeps protocol secret q.pin_hash_enc [] s acc.tries_left acc.pin_set w,
            check_mkek_encrypted-file crypto laws,
            accepted_keeps,
            grant-ef_pin,
          )
      | inr (r, e) ↦ ground arith
    ]

    dispatch_keeps :
        (now : ℕ) (p : Params) (s : Device)
        → is_pin_file (s.files ef_pin) ≡ true
        → is_pin_file ((dispatch crypto now p s).1.files ef_pin) ≡ true
    unfolding dispatch get_pin_retries get_key_agreement
    dispatch_keeps now p s w =
        ground (arith, set_pin_keeps p s w, change_pin_keeps p s w, get_pin_token_keeps now p s w)

    dispatch_parsed_keeps :
        (now : ℕ) (r : Result CtapError Params) (s : Device)
        → is_pin_file (s.files ef_pin) ≡ true
        → is_pin_file ((dispatch_parsed crypto now r s).1.files ef_pin) ≡ true
    dispatch_parsed_keeps now (err e) s w = w
    dispatch_parsed_keeps now (ok p) s w = dispatch_keeps now p s w

    initialize-ef_pin : (s : Device) → (initialize crypto s).files ef_pin ≡ s.files ef_pin
    unfolding initialize
    initialize-ef_pin s =
        laws.put_lem s.files ef_authtoken (crypto.random_gen (s.draws + 1) 32) ef_pin

    started_keeps :
        (s : Device)
        → is_pin_file (s.files ef_pin) ≡ true
        → is_pin_file ((if s.hkey_init then s else initialize crypto s).files ef_pin) ≡ true
    started_keeps s w = ground (arith, initialize-ef_pin s)

    -- Every request, whatever it holds and however it ends, leaves EF_PIN empty or well formed: at
    -- most 8 retries, a PIN length of at most 63, and 32 bytes of hash.
    pub cbor_client_pin_keeps :
        (now : ℕ) (item : Item) (s : Device)
        → is_pin_file (s.files ef_pin) ≡ true
        → is_pin_file ((cbor_client_pin crypto now item s).1.files ef_pin) ≡ true
    cbor_client_pin_keeps now item s w =
        unfold cbor_client_pin in dispatch_parsed_keeps now (parse_item item) _ (started_keeps s w)
