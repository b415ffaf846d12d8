-- ===== src/Kek/Data.antt =====
-- Data under the master key of kek.c, across a change of the session PIN.
use pico_fido_microkey.Base.{ℕ, ◌≡◌, inl, inr, subst, arith, false, List}
use pico_fido_microkey.Base.Exec.{Result, ok, Result-cases}
use pico_fido_microkey.Files.{ef_mkek}
use pico_fido_microkey.Ctap.{KekError}
use pico_fido_microkey.Device.{Device, Crypto}
use pico_fido_microkey.Kek.{mkek_iv, mkek_key, load_mkek, mkek_encrypt, mkek_decrypt}
use pico_fido_microkey.Kek.Laws.{IsAesCfb, Loads}

module _ (crypto : Crypto) where
  -- A load looks at the file, the session PIN and the mask only.
  pub load_mkek_same :
      (s t : Device)
      → s.files ef_mkek ≡ t.files ef_mkek
      → s.session_pin ≡ t.session_pin
      → s.has_mkek_mask ≡ false
      → t.has_mkek_mask ≡ false
      → (load_mkek crypto s).0 ≡ (load_mkek crypto t).0
  unfolding load_mkek
  load_mkek_same s t f p m n = ground arith

  decrypts_loaded :
      (cfb : IsAesCfb crypto) (m m' d out : List ℕ) (ret : ℕ) (s t : Device)
      → (load_mkek crypto s).0 ≡ ok m
      → (load_mkek crypto t).0 ≡ ok m'
      → Loads (ok m') m
      → (mkek_encrypt crypto d s).0 ≡ ok (ret, out)
      → (mkek_decrypt crypto out t).0 ≡ ok (0, d)
  unfolding mkek_encrypt mkek_decrypt
  decrypts_loaded cfb m m' d out ret s t e e' l h =
      ground (arith, l.0, l.1, cfb.decrypts (mkek_key m) (mkek_iv m) d)

  -- Data that were encrypted under the master key are decrypted on any device that loads the same key.
  pub mkek_decrypt-mkek_encrypt :
      (cfb : IsAesCfb crypto) (m d out : List ℕ) (ret : ℕ) (s t : Device)
      → (load_mkek crypto s).0 ≡ ok m
      → Loads (load_mkek crypto t).0 m
      → (mkek_encrypt crypto d s).0 ≡ ok (ret, out)
      → (mkek_decrypt crypto out t).0 ≡ ok (0, d)
  mkek_decrypt-mkek_encrypt cfb m d out ret s t e l h = elim (Result-cases (load_mkek crypto t).0) [
    | inl (m', e') ↦
        decrypts_loaded cfb m m' d out ret s t e e'
          (subst (λ (r : Result KekError (List ℕ)). Loads r m) e' l) h
    | inr (r, e') ↦ absurd (subst (λ (r : Result KekError (List ℕ)). Loads r m) e' l)
  ]
