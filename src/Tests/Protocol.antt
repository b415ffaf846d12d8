-- ===== src/Tests/Protocol.antt =====
-- Runs of the two protocols, of the token's timer and of the master key file.
use pico_fido_microkey.Base.{◌≡◌, refl, true, some, replicate, read_bytes}
use pico_fido_microkey.Sdk.{ideal_flash-IsFlash}
use pico_fido_microkey.Device.{Device}
use pico_fido_microkey.Kek.{mkek_key, load_mkek, store_mkek}
use pico_fido_microkey.Kek.Laws.{Loads, load-store_mkek}
use pico_fido_microkey.ClientPin.Protocol.Laws.{IsAesCbc}
use pico_fido_microkey.Tests.Toy.{
  toy, no_files, no_token, device, bytes_ok, bytes_ok_sound, toy-IsAesCfb,
}

toy-IsAesCbc : IsAesCbc toy
toy-IsAesCbc = record {
  encrypts = λ key iv m. refl;
  decrypts = λ key iv m. refl;
  keeps_length = λ key iv m. refl;
}

-- A token in use since time 1.
abbrev in_use : Device
in_use = record (device no_files) {
  paut = record no_token { in_use = true; permissions = 3 };
  usage_timer = 1;
  initial_usage_time_limit = 1;
}

key_bytes : bytes_ok (mkek_key (replicate 52 7)) ≡ true
unfolding read_bytes
key_bytes = refl

load-store_mkek_example :
    Loads
      (load_mkek toy (store_mkek toy (some (replicate 52 7)) (device no_files)).1).0
      (replicate 52 7)
load-store_mkek_example =
    load-store_mkek toy toy-IsAesCfb ideal_flash-IsFlash (replicate 52 7) (device no_files) refl
      (bytes_ok_sound (mkek_key (replicate 52 7)) key_bytes) tt refl refl
