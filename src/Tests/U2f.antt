-- ===== src/Tests/U2f.antt =====
-- Runs of the U2F commands.
use pico_fido_microkey.Base.{
  ℕ, ◌+◌, ◌*◌, ◌≡◌, ◌%◌, ◌^◌, refl, true, false, none, some, List, [], ◌∷◌, ◌++◌, block, byte_at,
  replicate, ◌==◌, if◌then◌else◌, read_bytes, write_bytes, memcmp_eq,
}
use pico_fido_microkey.Base.Exec.{err}
use pico_fido_microkey.Apdu.{Apdu, conditions_not_satisfied}
use pico_fido_microkey.Sdk.{Contents, ideal_flash-IsFlash}
use pico_fido_microkey.Files.{ef_counter}
use pico_fido_microkey.Keys.{
  Fido, derived, derive_path, load_keydev, derive_new_key, derive_old_key, new_path, handle_tag,
}
use pico_fido_microkey.Credential.{open_credential, derive_chacha_key, overhead, is_new_format}
use pico_fido_microkey.U2f.{
  U2fSdk, is_bogus, made_key, attest, cmd_register, cmd_authenticate, key_for, signed,
  authenticate_base, get_sign_counter, advance_counter,
}
use pico_fido_microkey.U2f.Counter.{Signed, cmd_authenticate-counts}
use pico_fido_microkey.U2f.Registered.{handle_in, check_request, register_then_check}
use pico_fido_microkey.U2f.Draws.{drawn}
use pico_fido_microkey.Tests.CredToy.{toy_cred, toy_random, handle, fido}

-- Nothing is opened, and a signature is two bytes.
abbrev toy_u2f : U2fSdk
toy_u2f = record {
  cred = record toy_cred { unseal = λ key iv aad tag c. (1, c) };
  emulation = false;
  point = λ k. (0, replicate 65 4);
  sign = λ k m. (0, 1 ∷ 2 ∷ []);
  unread = (1, []);
  load_key = λ s id. none;
  get_uint32_t_le =
      λ b. byte_at b 0 + 256 * byte_at b 1 + 65536 * byte_at b 2 + 16777216 * byte_at b 3;
  put_uint32_t_be = λ n. 0 ∷ 0 ∷ 0 ∷ n ∷ [];
}

-- The counter is 5.
abbrev files : Contents
files = λ fid. if fid == ef_counter then 5 ∷ 0 ∷ 0 ∷ 0 ∷ [] else []

abbrev registration : Apdu
registration = record { cla = 0; ins = 1; p1 = 3; p2 = 0; nc = 64; buffer = replicate 64 6 }

abbrev answer : List ℕ
answer = 0x05 ∷ (replicate 65 4 ++ (64 ∷ (handle ++ (1 ∷ 2 ∷ []))))

register_then_check_example :
    cmd_authenticate toy_u2f false
      (check_request (replicate 32 9) (replicate 32 6) (handle_in answer))
      (drawn 8 (fido files))
    ≡ (err conditions_not_satisfied, drawn 8 (fido files))
unfolding cmd_register overhead is_new_format is_bogus memcmp_eq read_bytes made_key derive_new_key
    derived load_keydev derive_path derive_old_key attest block write_bytes new_path handle_tag
    open_credential derive_chacha_key
register_then_check_example =
    register_then_check toy_u2f toy_random (λ k l r. refl) false false registration (fido files)
      (drawn 8 (fido files)) answer (replicate 32 9) refl refl

-- Here the handle is a credential.
abbrev toy_signer : U2fSdk
toy_signer = record toy_u2f { cred = toy_cred; load_key = λ s id. some (replicate 32 7) }

abbrev signature : List ℕ
signature = 1 ∷ 0 ∷ 0 ∷ 0 ∷ 5 ∷ 1 ∷ 2 ∷ []

abbrev counted : Fido
counted = advance_counter toy_signer 5 (fido files)

abbrev signing : Apdu
signing = record {
  cla = 0;
  ins = 2;
  p1 = 3;
  p2 = 0;
  nc = 129;
  buffer = replicate 64 6 ++ (64 ∷ replicate 64 3);
}

cmd_authenticate-counts_example :
    (get_sign_counter toy_signer counted ≡ (get_sign_counter toy_signer (fido files) + 1) % 2 ^ 32)
    × Signed toy_signer signing (get_sign_counter toy_signer (fido files)) (fido files) signature
    × ((3 == 3) ≡ true → false ≡ false)
unfolding cmd_authenticate key_for open_credential overhead is_new_format memcmp_eq
    authenticate_base signed get_sign_counter
cmd_authenticate-counts_example =
    cmd_authenticate-counts toy_signer ideal_flash-IsFlash (λ b. refl) false signing (fido files)
      counted signature refl
