-- ===== src/Tests/CredToy.antt =====
-- A small device with its key, and a credential for it.
use pico_fido_microkey.Base.{
  ℕ, ◌+◌, ◌∙◌, refl, ap, sym, true, none, some, List, [], ◌∷◌, ◌++◌, length, block, block-length,
  replicate, byte_at, ◌<◌, zero, suc, arith, ◌==◌, if◌then◌else◌,
}
use pico_fido_microkey.Sdk.{Contents}
use pico_fido_microkey.Files.{ef_rp}
use pico_fido_microkey.Keys.{Fido, KeySdk, new_path, handle_tag}
use pico_fido_microkey.Credential.{CredSdk}
use pico_fido_microkey.Credential.Encode.{CredData, alg_es256, curve_p256, credential_items}
use pico_fido_microkey.Credential.Sealed.{IsAead}
use pico_fido_microkey.CredMgmt.{Mgmt, MgmtParams}
use pico_fido_microkey.Tests.Toy.{toy, device}

abbrev pub toy_keys : KeySdk
toy_keys = record {
  crypto = toy;
  hkdf_sha512 = λ salt key info. (0, key ++ replicate 35 5);
  hmac_sha512 = λ k m. block 64 m;
  ecp_read_key = λ k. 0;
  ecp_write_key = λ k. (0, k);
  ecp_mul = λ k. 0;
}

-- A credential for "ab", of user [1].
abbrev pub cred : CredData
cred = record {
  rp_id = some (97 ∷ 98 ∷ []);
  user_id = some (1 ∷ []);
  user_name = some (99 ∷ []);
  user_display_name = none;
  creation = 7;
  extensions = none;
  use_sign_count = some true;
  alg = alg_es256;
  curve = curve_p256;
  opts = some (some true);
}

-- The only map that is encoded is that of the credential, as one byte.
abbrev pub toy_cred : CredSdk
toy_cred = record {
  keys = toy_keys;
  serial_id = replicate 8 1;
  seal = λ key iv aad m. (0, (m, block 16 key));
  unseal = λ key iv aad tag c. (0, c);
  beyond = λ i. replicate 16 0xbb;
  encode = λ items. 0xa1 ∷ [];
  parse = λ b.
      if byte_at b 0 == 0xa1 then some (credential_items cred (97 ∷ 98 ∷ replicate 30 0)) else none;
}

pub toy-IsAead : IsAead toy_cred
toy-IsAead = record {
  opens = λ key iv aad m c t h.
      ap (λ (r : ℕ × (List ℕ × List ℕ)). (0, block (length m) r.1.0)) (sym h)
      ∙ ap (λ b. (0, b)) (block-length m (length m) refl);
}

abbrev pub fido : Contents → Fido
fido c = record { device = device c; has_keydev_dec = true; keydev_dec = replicate 32 4 }

-- Two relying parties with credentials, and one without.
abbrev pub rp_files : Contents
rp_files = λ fid.
    if fid == ef_rp
    then 1 ∷ replicate 33 8
    else if fid == ef_rp + 1
    then 0 ∷ replicate 33 7
    else if fid == ef_rp + 5
    then 2 ∷ replicate 35 9
    else []

abbrev pub mgmt : Mgmt
mgmt = record {
  fido = fido rp_files;
  rp_counter = 0;
  rp_total = 0;
  cred_counter = 0;
  cred_total = 0;
  rp_id_hash_x = [];
}

abbrev pub request : ℕ → List ℕ → MgmtParams
request n tag = record {
  subcommand = n;
  raw_subpara = [];
  rp_id_hash = none;
  credential_id = none;
  user_id = none;
  user_name = none;
  user_display_name = none;
  pin_uv_auth_protocol = 1;
  pin_uv_auth_param = some tag;
}

pub toy_random : (i k : ℕ) → byte_at (block 4 (toy_keys.crypto.random_gen i 4)) k < 256
unfolding block
toy_random i zero = omega arith
toy_random i (suc zero) = omega arith
toy_random i (suc (suc zero)) = omega arith
toy_random i (suc (suc (suc zero))) = omega arith
toy_random i (suc (suc (suc (suc k)))) = omega arith

abbrev path : List ℕ
path = new_path toy_keys 8 1

abbrev pub outk : List ℕ
outk = replicate 32 4 ++ replicate 35 5

-- A key handle for the application [6, 6, …], and what is derived for it.
abbrev pub handle : List ℕ
handle = path ++ handle_tag toy_keys outk (replicate 32 6) path
