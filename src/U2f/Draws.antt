-- ===== src/U2f/Draws.antt =====
-- Proofs about the keys of fido.c and the number of random draws.
use pico_fido_microkey.Base.{
  ℕ, ◌+◌, ◌≡◌, refl, arith, Option-cases, inl, inr, List, block, write_bytes, replicate,
}
use pico_fido_microkey.Base.Exec.{Result-cases}
use pico_fido_microkey.Files.{ef_key_dev}
use pico_fido_microkey.Device.{Device, Crypto}
use pico_fido_microkey.Kek.{mkek_decrypt, load_mkek}
use pico_fido_microkey.Keys.{Fido, KeySdk, open_keydev, load_keydev, derived, derive_old_key}

-- The device after some more random numbers were drawn.
abbrev pub drawn : ℕ → Fido → Fido
drawn n s = record s { device = record s.device { draws = s.device.draws + n } }

module _ (crypto : Crypto) where
  load_mkek-drawn :
      (n : ℕ) (s : Device) → (load_mkek crypto (record s { draws = n })).0 ≡ (load_mkek crypto s).0
  unfolding load_mkek
  load_mkek-drawn n s = refl

  mkek_decrypt-drawn :
      (n : ℕ) (s : Device) (d : List ℕ)
      → (mkek_decrypt crypto d (record s { draws = n })).0 ≡ (mkek_decrypt crypto d s).0
  unfolding mkek_decrypt
  mkek_decrypt-drawn n s d = elim (Result-cases (load_mkek crypto s).0) [
    | inl (m, e) ↦ ground (arith, load_mkek-drawn n s, e)
    | inr (m, e) ↦ ground (arith, load_mkek-drawn n s, e)
  ]

module _ (keys : KeySdk) where
  open_keydev-drawn :
      (n : ℕ) (s : Fido) (key : List ℕ) → open_keydev keys (drawn n s) key ≡ open_keydev keys s key
  unfolding open_keydev
  open_keydev-drawn n s key =
      let same = mkek_decrypt-drawn keys.crypto (s.device.draws + n) s.device (block 32 key) in
      elim (Result-cases (mkek_decrypt keys.crypto (block 32 key) s.device).0) [
        | inl (m, e) ↦ ground (arith, same, e)
        | inr (m, e) ↦ ground (arith, same, e)
      ]

  load_keydev-drawn :
      (n : ℕ) (s : Fido) (key : List ℕ) → load_keydev keys (drawn n s) key ≡ load_keydev keys s key
  unfolding load_keydev
  load_keydev-drawn n s key =
      rw (open_keydev-drawn n s (write_bytes key 0 (s.device.files ef_key_dev))) refl

  derived-drawn :
      (n : ℕ) (s : Fido) (handle : List ℕ) → derived keys (drawn n s) handle ≡ derived keys s handle
  unfolding derived
  derived-drawn n s handle = rw (load_keydev-drawn n s (replicate 67 0)) refl

  pub derive_old_key-drawn :
      (n : ℕ) (s : Fido) (handle : List ℕ)
      → derive_old_key keys handle (drawn n s) ≡ derive_old_key keys handle s
  unfolding derive_old_key
  derive_old_key-drawn n s handle = elim (Option-cases (derived keys s handle)) [
    | inl e ↦ ground (arith, derived-drawn n s handle, e)
    | inr (outk, e) ↦ ground (arith, derived-drawn n s handle, e)
  ]
