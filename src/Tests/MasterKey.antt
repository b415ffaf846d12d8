-- ===== src/Tests/MasterKey.antt =====
-- A run of the master key through a change of the PIN.
use pico_fido_microkey.Base.{
  ℕ, ◌≡◌, refl, true, ◌++◌, ◌==◌, if◌then◌else◌, List, [], ◌∷◌, length, replicate, block,
  read_bytes, bytes_eq,
}
use pico_fido_microkey.Base.Exec.{ok, is_ok}
use pico_fido_microkey.Sdk.{ideal_flash-IsFlash}
use pico_fido_microkey.Files.{ef_mkek}
use pico_fido_microkey.Device.{Device}
use pico_fido_microkey.Kek.{
  crc32c, le32, mkek_masked, mkek_key, load_mkek, seal_mkek, store_mkek, mkek_encrypt, mkek_decrypt,
}
use pico_fido_microkey.ClientPin.Steps.{check_mkek_encrypted}
use pico_fido_microkey.ClientPin.Commands.{install_pin}
use pico_fido_microkey.ClientPin.KeyKept.{data_survives_change}
use pico_fido_microkey.Tests.Toy.{
  toy, new_pin, padded_to, with_pin, device, bytes_ok, bytes_ok_sound, toy-IsAesCfb,
}

-- A device whose master key is stored under its session PIN.
abbrev sealed : List ℕ
sealed = seal_mkek toy (replicate 32 4) (replicate 52 7)

abbrev key_holder : Device
key_holder = record (device λ fid. if fid == ef_mkek then sealed else with_pin 8 fid) {
  session_pin = replicate 32 4;
}

abbrev master_key : List ℕ
master_key = replicate 48 7 ++ le32 (crc32c (replicate 32 7))

key_loads : (load_mkek toy key_holder).0 ≡ ok master_key
unfolding load_mkek seal_mkek block mkek_masked read_bytes le32 bytes_eq crc32c
key_loads = refl

key_size : length master_key ≡ 52
unfolding le32
key_size = refl

key_bytes : bytes_ok (mkek_key master_key) ≡ true
unfolding read_bytes
key_bytes = refl

data_sealed : (mkek_encrypt toy (1 ∷ 2 ∷ 3 ∷ []) key_holder).0 ≡ ok (0, 1 ∷ 2 ∷ 3 ∷ [])
unfolding mkek_encrypt load_mkek seal_mkek block mkek_masked read_bytes le32 bytes_eq crc32c
data_sealed = refl

pin_installed : is_ok (install_pin toy (padded_to 64 new_pin) key_holder).0 ≡ true
unfolding install_pin load_mkek seal_mkek block mkek_masked read_bytes le32 bytes_eq crc32c
    check_mkek_encrypted store_mkek
pin_installed = refl

data_survives_change_example :
    (mkek_decrypt toy (1 ∷ 2 ∷ 3 ∷ []) (install_pin toy (padded_to 64 new_pin) key_holder).1).0
    ≡ ok (0, 1 ∷ 2 ∷ 3 ∷ [])
data_survives_change_example =
    data_survives_change toy ideal_flash-IsFlash toy-IsAesCfb (padded_to 64 new_pin) master_key
      (1 ∷ 2 ∷ 3 ∷ []) (1 ∷ 2 ∷ 3 ∷ []) 0 key_holder key_loads key_size
      (bytes_ok_sound (mkek_key master_key) key_bytes) tt refl refl data_sealed pin_installed
