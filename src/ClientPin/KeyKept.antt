-- ===== src/ClientPin/KeyKept.antt =====
-- The master key when cbor_client_pin.c changes the PIN.
use pico_fido_microkey.Base.{
  ℕ, ◌≡◌, refl, ◌∙◌, arith, Bool, true, false, some, List, length, block, if◌then◌else◌,
}
use pico_fido_microkey.Base.Exec.{ok, is_ok}
use pico_fido_microkey.Sdk.{IsFlash}
use pico_fido_microkey.Files.{ef_mkek, ef_pin, ef_minpinlen, ef_authtoken}
use pico_fido_microkey.Device.{Device, Crypto}
use pico_fido_microkey.Token.{reset_pin_uv_auth_token}
use pico_fido_microkey.Kek.{mkek_key, load_mkek, store_mkek, mkek_encrypt, mkek_decrypt}
use pico_fido_microkey.Kek.Laws.{
  IsAesCfb, AllBytes, OptionalBytes, Loads, store_mkek_mask, load-store_mkek,
}
use pico_fido_microkey.Kek.Data.{load_mkek_same, mkek_decrypt-mkek_encrypt}
use pico_fido_microkey.ClientPin.Steps.{
  check_mkek_encrypted, must_change, new_pin_data, pin_digest, write_file,
}
use pico_fido_microkey.ClientPin.Commands.{clear_must_change, install_pin}

module _ (crypto : Crypto) (laws : IsFlash crypto.flash) where
  -- What a load depends on is the same.
  abbrev SameKey : Device → Device → Type 0
  SameKey s t =
      (s.files ef_mkek ≡ t.files ef_mkek)
      × ((s.session_pin ≡ t.session_pin) × (s.has_mkek_mask ≡ t.has_mkek_mask))

  written_if :
      (b : Bool) (d : List ℕ) (s : Device)
      → SameKey (if b then write_file crypto ef_minpinlen d s else s) s
  written_if true d s = (laws.put_lem s.files ef_minpinlen d ef_mkek, (refl, refl))
  written_if false d s = (refl, (refl, refl))

  clear-SameKey : (s : Device) → SameKey (clear_must_change crypto s) s
  unfolding clear_must_change
  clear-SameKey s = written_if (must_change s.files) _ s

  reset-SameKey : (s : Device) → SameKey (reset_pin_uv_auth_token crypto s) s
  unfolding reset_pin_uv_auth_token
  reset-SameKey s =
      ground (arith, laws.put_lem s.files ef_authtoken (crypto.random_gen s.draws 32) ef_mkek)

  check_mask :
      (d : List ℕ) (s : Device)
      → (check_mkek_encrypted crypto d s).1.has_mkek_mask ≡ s.has_mkek_mask
  unfolding check_mkek_encrypted store_mkek
  check_mask d s = ground arith

  load_mkek_state : (s : Device) → (load_mkek crypto s).1 ≡ s
  unfolding load_mkek
  load_mkek_state s = refl

  -- The device at which the master key is stored under the new PIN.
  abbrev under_new_pin : List ℕ → Device → Device
  under_new_pin padded s =
      let t =
        (check_mkek_encrypted crypto (pin_digest crypto padded)
          (write_file crypto ef_pin (new_pin_data crypto padded) s)).1 in
      record t { session_pin = crypto.hash_multi (block 16 (pin_digest crypto padded)) }

  install_pin-SameKey :
      (padded mkek : List ℕ) (s : Device)
      → (load_mkek crypto s).0 ≡ ok mkek
      → is_ok (install_pin crypto padded s).0 ≡ true
      → SameKey
          (install_pin crypto padded s).1
          (store_mkek crypto (some mkek) (under_new_pin padded s)).1
  unfolding install_pin
  install_pin-SameKey padded mkek s e h =
      let u = (store_mkek crypto (some mkek) (under_new_pin padded s)).1 in
      ground (arith, load_mkek_state s, clear-SameKey u, reset-SameKey (clear_must_change crypto u))

  -- changePIN, when it installs the new PIN, keeps the master key: what load_mkek read before under the
  -- old session PIN, it reads afterwards under the new one, the same initialisation vector and key.
  -- The key is of 52 bytes, the flash and AES-CFB behave, and no other mask is set.
  pub install_pin-Loads :
      (cfb : IsAesCfb crypto) (padded mkek : List ℕ) (s : Device)
      → (load_mkek crypto s).0 ≡ ok mkek
      → length mkek ≡ 52
      → AllBytes (mkek_key mkek)
      → OptionalBytes crypto.otp_key_1
      → crypto.search_file ef_mkek ≡ true
      → s.has_mkek_mask ≡ false
      → is_ok (install_pin crypto padded s).0 ≡ true
      → Loads (load_mkek crypto (install_pin crypto padded s).1).0 mkek
  install_pin-Loads cfb padded mkek s e l b o f n h =
      let v = under_new_pin padded s in
      let u = (store_mkek crypto (some mkek) v).1 in
      let t = (install_pin crypto padded s).1 in
      let same = install_pin-SameKey padded mkek s e h in
      let nv : v.has_mkek_mask ≡ false =
        check_mask (pin_digest crypto padded)
          (write_file crypto ef_pin (new_pin_data crypto padded) s)
        ∙ n in
      let nu = store_mkek_mask crypto cfb mkek v nv in
      rw (load_mkek_same crypto t u same.0 same.1.0 (same.1.1 ∙ nu) nu)
        (load-store_mkek crypto cfb laws mkek v l b o f nv)

  -- What was encrypted under the master key before changePIN installed a new PIN is decrypted
  -- afterwards, under the new session PIN. The master key was readable and of 52 bytes, the flash and
  -- AES-CFB behave, and no mask other than the chip's is set.
  pub data_survives_change :
      (cfb : IsAesCfb crypto) (padded mkek d out : List ℕ) (ret : ℕ) (s : Device)
      → (load_mkek crypto s).0 ≡ ok mkek
      → length mkek ≡ 52
      → AllBytes (mkek_key mkek)
      → OptionalBytes crypto.otp_key_1
      → crypto.search_file ef_mkek ≡ true
      → s.has_mkek_mask ≡ false
      → (mkek_encrypt crypto d s).0 ≡ ok (ret, out)
      → is_ok (install_pin crypto padded s).0 ≡ true
      → (mkek_decrypt crypto out (install_pin crypto padded s).1).0 ≡ ok (0, d)
  data_survives_change cfb padded mkek d out ret s e l b o f n c h =
      mkek_decrypt-mkek_encrypt crypto cfb mkek d out ret s (install_pin crypto padded s).1 e
        (install_pin-Loads cfb padded mkek s e l b o f n h) c
