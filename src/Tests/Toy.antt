-- ===== src/Tests/Toy.antt =====
-- A small concrete instance of what the firmware calls, and devices and requests for it.
use pico_fido_microkey.Base.{
  ℕ, ◌-◌, ◌%◌, ◌<◌, ◌≡◌, refl, Bool, true, false, ◌&&◌, none, some, List, [], ◌∷◌, ◌++◌, length,
  block, replicate, ltb, ◌==◌, if◌then◌else◌, arith,
}
use pico_fido_microkey.Sdk.{Contents, ideal_flash}
use pico_fido_microkey.Files.{ef_pin, ef_minpinlen}
use pico_fido_microkey.Device.{Device, Crypto, PinUvAuthToken}
use pico_fido_microkey.Kek.Laws.{IsAesCfb}
use pico_fido_microkey.Cbor.{uint, nint, CoseKey}
use pico_fido_microkey.ClientPin.Params.{Params, no_params}

-- Ciphers and hashes that give their input back.
abbrev pub toy : Crypto
toy = record {
  flash = ideal_flash;
  search_file = λ fid. true;
  random_gen = λ i n. replicate n (i % 256);
  gen_public = λ i. i ∷ [];
  compute_shared = λ d x y. (0, 7);
  mpi_read_binary = λ b. 0;
  mpi_write_binary = λ z. (0, replicate 32 z);
  sha256 = λ m. (0, block 32 m);
  stack = λ i. replicate 64 0xee;
  hkdf_sha256 = λ m info. (0, block 32 m);
  hmac_sha256 = λ k m. (0, block 32 m);
  aes_cbc_encrypt = λ k iv m. (0, m);
  aes_cbc_decrypt = λ k iv m. (0, m);
  aes_encrypt_cfb_256 = λ k iv m. (0, m);
  aes_decrypt_cfb_256 = λ k iv m. (0, m);
  double_hash_pin = block 32;
  hash_multi = block 32;
  otp_key_1 = none;
}

-- The PIN "1234".
abbrev pub pin : List ℕ
pin = 0x31 ∷ 0x32 ∷ 0x33 ∷ 0x34 ∷ []

abbrev pub new_pin : List ℕ
new_pin = 0x39 ∷ 0x38 ∷ 0x37 ∷ 0x36 ∷ 0x35 ∷ []

abbrev pub padded_to : ℕ → List ℕ → List ℕ
padded_to n p = p ++ replicate (n - length p) 0

abbrev pub no_files : Contents
no_files = λ fid. []

abbrev pub with_pin : ℕ → Contents
with_pin n = λ fid. if fid == ef_pin then n ∷ 4 ∷ padded_to 32 pin else []

abbrev pub must_change_files : Contents
must_change_files = λ fid. if fid == ef_minpinlen then 4 ∷ 1 ∷ [] else with_pin 8 fid

abbrev pub no_token : PinUvAuthToken
no_token = record {
  bytes = replicate 32 0;
  in_use = false;
  permissions = 0;
  rp_id_hash = replicate 32 0;
  has_rp_id = false;
  user_present = false;
  user_verified = false;
}

abbrev pub device : Contents → Device
device c = record {
  files = c;
  paut = no_token;
  hkey = 1 ∷ [];
  hkey_init = true;
  usage_timer = 0;
  initial_usage_time_limit = 0;
  user_present_time_limit = 0;
  needs_power_cycle = false;
  new_pin_mismatches = 0;
  session_pin = replicate 32 0;
  has_mkek_mask = false;
  mkek_mask = [];
  draws = 1;
}

abbrev pub peer_key : CoseKey
peer_key = record {
  kty = uint 2;
  alg = nint 24;
  crv = uint 1;
  kax = some (replicate 32 1);
  kay = some (replicate 32 2);
}

-- getPinToken with the given PIN.
abbrev pub token_request : List ℕ → Params
token_request p = record no_params {
  subcommand = 5;
  pin_uv_auth_protocol = 1;
  key = peer_key;
  pin_hash_enc = some (padded_to 16 p);
}

abbrev pub set_request : List ℕ → Params
set_request p = record no_params {
  subcommand = 3;
  pin_uv_auth_protocol = 1;
  key = peer_key;
  new_pin_enc = some (padded_to 64 p);
  pin_uv_auth_param = some (padded_to 16 p);
}

abbrev pub change_request : List ℕ → List ℕ → Params
change_request old p = record (set_request p) {
  subcommand = 4;
  pin_hash_enc = some (padded_to 16 old);
}

abbrev pub bytes_ok : List ℕ → Bool
bytes_ok [] = true
bytes_ok (x ∷ xs) = ltb x 256 && bytes_ok xs

abbrev pub AllBytes : List ℕ → Type 0
AllBytes [] = Unit
AllBytes (x ∷ xs) = (x < 256) × AllBytes xs

pub bytes_ok_sound : (xs : List ℕ) → bytes_ok xs ≡ true → AllBytes xs
bytes_ok_sound [] h = tt
bytes_ok_sound (x ∷ xs) h = (ground arith, bytes_ok_sound xs (ground arith))

pub toy-IsAesCfb : IsAesCfb toy
toy-IsAesCfb = record { decrypts = λ key iv m. refl; keeps_length = λ key iv m. refl }
