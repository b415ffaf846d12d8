-- ===== src/Tests/Credential.antt =====
-- Runs of the credentials, the key handles and the credential management.
use pico_fido_microkey.Base.{ℕ, ◌≡◌, refl, true, List, ◌∷◌, block, replicate, write_bytes}
use pico_fido_microkey.Base.Exec.{ok}
use pico_fido_microkey.Cbor.{get_int}
use pico_fido_microkey.Keys.{verify_key, derive_new_key, derived, derive_path, load_keydev}
use pico_fido_microkey.Keys.Handles.{verify_key-derive_new_key}
use pico_fido_microkey.Keys.Curves.{
  curve25519, fido_curve_to_mbedtls, mbedtls_curve_to_fido, mbedtls_curve_to_fido-back,
}
use pico_fido_microkey.Credential.{encryption_label, derive_chacha_key, verify_silent}
use pico_fido_microkey.Credential.Encode.{credential_create, sealed_text, assemble}
use pico_fido_microkey.Credential.Load.{credential_load}
use pico_fido_microkey.Credential.Extensions.{kept}
use pico_fido_microkey.Credential.Sealed.{hash_of, credential_load-credential_create}
use pico_fido_microkey.Credential.Silent.{verify_silent-credential_create}
use pico_fido_microkey.Tests.Toy.{no_files}
use pico_fido_microkey.Tests.CredToy.{
  toy_keys, toy_cred, toy-IsAead, toy_random, handle, outk, cred, fido,
}

-- The nonce is drawn as [1, 1, …].
abbrev id : List ℕ
id = block 65 (
    assemble toy_cred (replicate 12 1) (0xa1 ∷ replicate 16 0xbb) (block 16 encryption_label)
      (hash_of toy_cred cred))

credential_load-credential_create_example :
    credential_load toy_cred (fido no_files) id (hash_of toy_cred cred) ≡ ok (kept cred)
unfolding block credential_create derive_chacha_key load_keydev sealed_text get_int
credential_load-credential_create_example =
    credential_load-credential_create toy_cred toy-IsAead cred id (fido no_files) (fido no_files)
      (λ rest. refl) refl refl refl refl

verify_silent-credential_create_example : verify_silent toy_cred id (hash_of toy_cred cred) ≡ true
unfolding block credential_create derive_chacha_key load_keydev sealed_text get_int
verify_silent-credential_create_example =
    verify_silent-credential_create toy_cred cred id (fido no_files) refl

verify_key-derive_new_key_example :
    verify_key toy_keys (replicate 32 6) handle (fido no_files) ≡ true
unfolding derived load_keydev derive_path block write_bytes derive_new_key
verify_key-derive_new_key_example =
    verify_key-derive_new_key toy_keys toy_random (replicate 32 6) handle outk (fido no_files) refl
      refl refl refl refl

mbedtls_curve_to_fido-back_example : mbedtls_curve_to_fido 9 true curve25519 ≡ 9
unfolding fido_curve_to_mbedtls
mbedtls_curve_to_fido-back_example = mbedtls_curve_to_fido-back 9 true 4 curve25519 refl
