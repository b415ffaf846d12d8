-- ===== src/Tests/Management.antt =====
-- Runs of the device configuration.
use pico_fido_microkey.Base.{◌≡◌, refl, true, [], ◌∷◌, ◌==◌, if◌then◌else◌}
use pico_fido_microkey.Base.Exec.{is_ok}
use pico_fido_microkey.Sdk.{Contents}
use pico_fido_microkey.Files.{ef_dev_conf}
use pico_fido_microkey.Apdu.{Apdu}
use pico_fido_microkey.Management.{Management, Walked, cmd_write_config}
use pico_fido_microkey.Tests.OathToy.{toy_man, command}

-- A configuration with 2 bytes of enabled capabilities, of which OTP is none.
abbrev conf_files : Contents
conf_files = λ fid. if fid == ef_dev_conf then 0x08 ∷ 1 ∷ 0 ∷ 0x03 ∷ 2 ∷ 2 ∷ 0x20 ∷ [] else []

abbrev flags : Walked
flags = record { tag = 0x08; tag_len = 1; offset = 2 }

abbrev enabled : Walked
enabled = record { tag = 0x03; tag_len = 2; offset = 5 }

abbrev write_conf : Apdu
write_conf = command 0x1c 0 0 (4 ∷ 0x03 ∷ 2 ∷ 2 ∷ 0x21 ∷ [])

abbrev man : Management
man = record { files = conf_files; res = []; enabled_usb_itf = 3 }

write_runs : is_ok (cmd_write_config toy_man write_conf man).0 ≡ true
unfolding cmd_write_config
write_runs = refl
