-- ===== src/Management.antt =====
-- management.c: the management application, but for the select and the factory reset.
use pico_fido_microkey.Base.{
  ℕ, ◌+◌, ◌-◌, ◌%◌, ◌/◌, bit_and, bit_or, bit_xor, Bool, true, false, not, Option, List, [], ◌∷◌,
  ◌++◌, length, drop, block, byte_at, ◌==◌, if◌then◌else◌,
}
use pico_fido_microkey.Base.Exec.{Exec, guard, gets, modify, ◌>>=◌, ◌>>◌}
use pico_fido_microkey.Sdk.{Contents, Flash, has_data}
use pico_fido_microkey.Files.{ef_dev_conf}
use pico_fido_microkey.Apdu.{Apdu, Sw, wrong_data}
pub mod Config

abbrev pub tag_usb_supported : ℕ
tag_usb_supported = 0x01

abbrev pub tag_usb_enabled : ℕ
tag_usb_enabled = 0x03

abbrev pub cap_otp : ℕ
cap_otp = 0x01

abbrev pub cap_u2f : ℕ
cap_u2f = 0x02

abbrev pub cap_fido2 : ℕ
cap_fido2 = 0x200

abbrev pub cap_oath : ℕ
cap_oath = 0x20

abbrev pub cap_piv : ℕ
cap_piv = 0x10

abbrev pub cap_openpgp : ℕ
cap_openpgp = 0x08

abbrev pub version_major : ℕ
version_major = 6

abbrev pub version_minor : ℕ
version_minor = 6

-- One step of `walk_tlv`: the tag, the length, and where the value starts.
pub record Walked : Type 0 where
  pub tag : ℕ
  pub tag_len : ℕ
  pub offset : ℕ

pub record ManSdk : Type 0 where
  pub flash : Flash
  -- What `walk_tlv` gives, call after call, until it is false.
  pub walk_tlv : List ℕ → List Walked
  pub get_uint16_t_be : List ℕ → ℕ
  pub app_exists : List ℕ → Bool
  pub serial_id : List ℕ
  pub phy_usb_itf_kb : ℕ

-- The files, the response, and `phy_data.enabled_usb_itf`.
pub record Management : Type 0 where
  pub files : Contents
  pub res : List ℕ
  pub enabled_usb_itf : ℕ

abbrev pub openpgp_aid : List ℕ
openpgp_aid = 0xd2 ∷ 0x76 ∷ 0x00 ∷ 0x01 ∷ 0x24 ∷ 0x01 ∷ []

abbrev pub piv_aid : List ℕ
piv_aid = 0xa0 ∷ 0x00 ∷ 0x00 ∷ 0x03 ∷ 0x8 ∷ []

-- `caps |= cap`, under a condition
abbrev pub with_cap : Bool → ℕ → ℕ → ℕ
with_cap b cap caps = if b then bit_or caps cap else caps

module _ (sdk : ManSdk) where
  -- The capabilities in a value with the tag TAG_USB_ENABLED.
  unfoldable pub enabled_caps : List ℕ → Walked → ℕ
  enabled_caps file w =
      if w.tag_len == 2 then sdk.get_uint16_t_be (drop w.offset file) else byte_at file w.offset

  -- The loop of `cap_supported`: the first such value decides.
  unfoldable pub cap_from : List Walked → List ℕ → ℕ → Bool
  cap_from [] file cap = true
  cap_from (w ∷ ws) file cap =
      let rest = cap_from ws file cap in
      if w.tag == tag_usb_enabled then not (bit_and (enabled_caps file w) cap == 0) else rest

  unfoldable pub cap_supported : Contents → ℕ → Bool
  cap_supported c cap =
      if has_data (c ef_dev_conf)
      then cap_from (sdk.walk_tlv (c ef_dev_conf)) (c ef_dev_conf) cap
      else true

  abbrev pub caps_of_apps : ℕ
  caps_of_apps = with_cap (sdk.app_exists piv_aid) cap_piv (
      with_cap (sdk.app_exists openpgp_aid) cap_openpgp
        (bit_or (bit_or (bit_or cap_fido2 cap_otp) cap_u2f) cap_oath))

  abbrev pub caps_supported : Contents → ℕ
  caps_supported c = with_cap (cap_supported c cap_piv) cap_piv (
      with_cap (cap_supported c cap_openpgp) cap_openpgp (
        with_cap (cap_supported c cap_oath) cap_oath (
          with_cap (cap_supported c cap_u2f) cap_u2f (
            with_cap (cap_supported c cap_otp) cap_otp
              (with_cap (cap_supported c cap_fido2) cap_fido2 0)))))

  -- `~0xFC` of the first byte of the serial number
  abbrev pub serial : List ℕ
  serial = let id = block 4 sdk.serial_id in bit_and (byte_at id 0) 0x03 ∷ drop 1 id

  -- What follows the supported capabilities: the configuration in flash, or the default one.
  unfoldable pub config_tail : Contents → List ℕ
  config_tail c =
      if has_data (c ef_dev_conf)
      then c ef_dev_conf
      else 0x03
        ∷ 2
        ∷ caps_supported c / 256
        ∷ caps_supported c % 256
        ∷ 0x08
        ∷ 1
        ∷ 0x80
        ∷ 0x0a
        ∷ 1
        ∷ 0x00
        ∷ []

  -- What stands before it, after the overall length.
  unfoldable pub config_front : List ℕ
  config_front =
      tag_usb_supported
      ∷ 2
      ∷ caps_of_apps / 256
      ∷ caps_of_apps % 256
      ∷ 0x02
      ∷ 4
      ∷ (serial ++ 0x04 ∷ 1 ∷ 0x01 ∷ 0x05 ∷ 3 ∷ version_major ∷ version_minor ∷ 0 ∷ [])

  abbrev pub config_body : Contents → List ℕ
  config_body c = config_front ++ config_tail c

  -- The overall length comes first.
  unfoldable pub man_get_config : Management → Management
  man_get_config s = record s { res = length (config_body s.files) % 256 ∷ config_body s.files }

  unfoldable pub cmd_read_config : Exec Management Sw (Unit {0})
  cmd_read_config = modify man_get_config

  -- The new configuration decides whether the device is a keyboard too.
  unfoldable pub set_keyboard : Management → Management
  set_keyboard s = record s {
    enabled_usb_itf =
        let with_kb = bit_or s.enabled_usb_itf sdk.phy_usb_itf_kb in
        if cap_supported s.files cap_otp then with_kb else bit_xor with_kb sdk.phy_usb_itf_kb;
  }

  -- With no data at all, the length byte differs from `nc - 1` whatever it is.
  unfoldable pub cmd_write_config : Apdu → Exec Management Sw (Unit {0})
  cmd_write_config a = do
    guard (byte_at a.buffer 0 + 1 == a.nc) wrong_data
    modify λ s. record s {
      files = sdk.flash.file_put_data s.files ef_dev_conf (block (a.nc - 1) (drop 1 a.buffer));
    }
    modify set_keyboard
