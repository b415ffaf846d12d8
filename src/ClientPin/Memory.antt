-- ===== src/ClientPin/Memory.antt =====
-- Writes past `paddedNewPin[64]` of cbor_client_pin.c.
use pico_fido_microkey.Base.{
  block, none, memcmp_eq, ◌==◌, false, [], ap, ◌∙◌, ℕ, ◌<◌, ◌≡◌, ◌≢◌, arith, true, length, List,
  inl, inr,
}
use pico_fido_microkey.Base.Exec.{ok, err, is_ok, Result-cases}
use pico_fido_microkey.Sdk.{IsFlash}
use pico_fido_microkey.Files.{ef_mkek}
use pico_fido_microkey.ClientPin.Grant.{get_pin_token_right}
use pico_fido_microkey.Ctap.{memory_fault}
use pico_fido_microkey.Device.{Device, Crypto}
use pico_fido_microkey.ClientPin.Protocol.{overrun, decrypt, ecdh}
use pico_fido_microkey.ClientPin.Params.{Params}
use pico_fido_microkey.ClientPin.Checks.{
  TokenRequest, check_set, check_change, check_token, known_protocol, new_pin_enc_fits,
  pin_hash_enc_fits, check_set-SetAccepted, check_change-ChangeAccepted, check_token-TokenAccepted,
}
use pico_fido_microkey.ClientPin.Steps.{pin_hash, must_change, try_pin, check_mkek_encrypted}
use pico_fido_microkey.ClientPin.Commands.{
  enrol_pin, set_pin, install_pin, replace_pin, change_pin, get_pin_token,
}

module _ (crypto : Crypto) where
  decrypt_fits_new :
      (protocol : ℕ) (key enc before : List ℕ)
      → known_protocol protocol ≡ true
      → new_pin_enc_fits protocol enc ≡ true
      → decrypt crypto protocol key enc 64 before ≢ overrun
  unfolding decrypt
  decrypt_fits_new protocol key enc before k f = ground arith

  decrypt_fits_hash :
      (protocol : ℕ) (key enc before : List ℕ)
      → known_protocol protocol ≡ true
      → pin_hash_enc_fits protocol enc ≡ true
      → decrypt crypto protocol key enc 64 before ≢ overrun
  unfolding decrypt
  decrypt_fits_hash protocol key enc before k f = ground arith

  store_mkek_no_fault :
      (dhash : List ℕ) (s : Device) → (check_mkek_encrypted crypto dhash s).0 ≢ err memory_fault
  unfolding check_mkek_encrypted
  store_mkek_no_fault dhash s = ground arith

  try_pin_no_fault :
      (protocol : ℕ) (key enc : List ℕ) (s : Device)
      → decrypt crypto protocol key enc 64 (crypto.stack s.draws) ≢ overrun
      → (try_pin crypto protocol key enc s).0 ≢ err memory_fault
  unfolding try_pin
  try_pin_no_fault protocol key enc s h = ground arith

  install_pin_no_fault :
      (padded : List ℕ) (s : Device) → (install_pin crypto padded s).0 ≢ err memory_fault
  unfolding install_pin
  install_pin_no_fault padded s = grind (arith, store_mkek_no_fault)

  replace_pin_no_fault :
      (protocol : ℕ) (key enc : List ℕ) (s : Device)
      → decrypt crypto protocol key enc 64 (crypto.stack s.draws) ≢ overrun
      → (replace_pin crypto protocol key enc s).0 ≢ err memory_fault
  unfolding replace_pin
  replace_pin_no_fault protocol key enc s h = grind (arith, install_pin_no_fault)

  check_set_no_fault : (p : Params) (s : Device) → check_set p s.files ≢ err memory_fault
  unfolding check_set
  check_set_no_fault p s = ground arith

  check_change_no_fault : (p : Params) (s : Device) → check_change p s.files ≢ err memory_fault
  unfolding check_change
  check_change_no_fault p s = ground arith

  enrol_pin_no_fault :
      (protocol : ℕ) (key enc : List ℕ) (s : Device)
      → decrypt crypto protocol key enc 64 (crypto.stack s.draws) ≢ overrun
      → (enrol_pin crypto protocol key enc s).0 ≢ err memory_fault
  unfolding enrol_pin
  enrol_pin_no_fault protocol key enc s h = grind (arith, store_mkek_no_fault)

  -- setPIN never writes past `paddedNewPin`, whatever the request.
  pub set_pin_no_fault : (p : Params) (s : Device) → (set_pin crypto p s).0 ≢ err memory_fault
  unfolding set_pin
  set_pin_no_fault p s = elim (Result-cases (check_set p s.files)) [
    | inl (q, e) ↦
        let secret = (ecdh crypto p.pin_uv_auth_protocol s.hkey q.x q.y).1 in
        let ok_q = check_set-SetAccepted p s.files q e in
        ground (
          arith,
          enrol_pin_no_fault p.pin_uv_auth_protocol secret q.new_pin_enc s (
              decrypt_fits_new p.pin_uv_auth_protocol secret q.new_pin_enc (crypto.stack s.draws)
                ok_q.known ok_q.new_fits),
        )
    | inr (r, e) ↦ ground (arith, check_set_no_fault p s)
  ]

  -- changePIN never writes past `paddedNewPin`, whatever the request.
  pub change_pin_no_fault : (p : Params) (s : Device) → (change_pin crypto p s).0 ≢ err memory_fault
  unfolding change_pin
  change_pin_no_fault p s = elim (Result-cases (check_change p s.files)) [
    | inl (q, e) ↦
        let protocol = p.pin_uv_auth_protocol in
        let secret = (ecdh crypto protocol s.hkey q.x q.y).1 in
        let ok_q = check_change-ChangeAccepted p s.files q e in
        grind (
          arith,
          try_pin_no_fault protocol secret q.pin_hash_enc s (
              decrypt_fits_hash protocol secret q.pin_hash_enc (crypto.stack s.draws) ok_q.known
                ok_q.hash_fits),
          λ (t : Device). replace_pin_no_fault protocol secret q.new_pin_enc t (
              decrypt_fits_new protocol secret q.new_pin_enc (crypto.stack t.draws) ok_q.known
                ok_q.new_fits),
        )
    | inr (r, e) ↦ ground (arith, check_change_no_fault p s)
  ]

  -- getPinToken writes past `paddedNewPin` whenever the request is well-formed, the key agreement
  -- succeeds and the encrypted PIN hash is longer than 80 bytes: its length is never
  -- looked at, and with protocol 1 or 2 the decryption then writes past the end of the array.
  pub get_pin_token_overrun :
      (now : ℕ) (p : Params) (q : TokenRequest) (s : Device)
      → check_token p s.files ≡ ok q
      → crypto.mpi_read_binary q.x ≡ 0
      → crypto.mpi_read_binary q.y ≡ 0
      → (ecdh crypto p.pin_uv_auth_protocol s.hkey q.x q.y).0 ≡ 0
      → 80 < length q.pin_hash_enc
      → (get_pin_token crypto now p s).0 ≡ err memory_fault
  unfolding get_pin_token try_pin decrypt
  get_pin_token_overrun now p q s e hx hy hs long =
      ground (arith, check_token-TokenAccepted p s.files q e)

  -- getPinToken with protocol 1 and an encrypted PIN hash of no bytes gives out a token whenever the
  -- stack still holds the hash of the PIN where `paddedNewPin` is: the request is well-formed, the key
  -- agreement succeeds, the master key is encrypted and no PIN change is forced.
  pub get_pin_token_residue :
      (laws : IsFlash crypto.flash) (now : ℕ) (p : Params) (q : TokenRequest) (s : Device)
      → check_token p s.files ≡ ok q
      → crypto.mpi_read_binary q.x ≡ 0
      → crypto.mpi_read_binary q.y ≡ 0
      → (ecdh crypto 1 s.hkey q.x q.y).0 ≡ 0
      → p.pin_uv_auth_protocol ≡ 1
      → q.pin_hash_enc ≡ []
      → (crypto.aes_cbc_decrypt (block 32 (ecdh crypto 1 s.hkey q.x q.y).1) none []).0 ≡ 0
      → memcmp_eq
          (crypto.double_hash_pin (block 16 (block 64 (crypto.stack s.draws))))
          (pin_hash s.files)
          32
        ≡ true
      → (length (s.files ef_mkek) == 48) ≡ false
      → must_change s.files ≡ false
      → is_ok (get_pin_token crypto now p s).0 ≡ true
  unfolding decrypt block
  get_pin_token_residue laws now p q s e hx hy hs one none_sent aes held k f =
      let acc = check_token-TokenAccepted p s.files q e in
      get_pin_token_right crypto laws now p q s e hx hy
        (ap (λ n. (ecdh crypto n s.hkey q.x q.y).0) one ∙ hs)
        (rw (acc.kax, acc.kay, acc.hash, one, none_sent, aes) held) k f
