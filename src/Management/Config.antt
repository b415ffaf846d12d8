-- ===== src/Management/Config.antt =====
-- The device configuration of management.c: what is written is read again and decides.
use pico_fido_microkey.Base.{
  ℕ, zero, suc, ◌-◌, ◌%◌, ◌<◌, ◌≡◌, Bool, ◌≢◌, refl, ap, arith, true, not, ◌&&◌, List, [], ◌∷◌,
  ◌++◌, length, drop, block, length-block, length-append, length-drop, passes_upto, passes_upto-at,
  bit_and, bit_or, bit_xor, ◌==◌, if◌then◌else◌,
}
use pico_fido_microkey.Base.Exec.{is_ok}
use pico_fido_microkey.Sdk.{Contents, has_data, IsFlash}
use pico_fido_microkey.Files.{ef_dev_conf}
use pico_fido_microkey.Apdu.{Apdu}
use pico_fido_microkey.Management.{
  ManSdk, Management, Walked, tag_usb_enabled, cap_otp, enabled_caps, cap_from, cap_supported,
  config_tail, config_front, config_body, man_get_config, cmd_write_config, set_keyboard,
}

-- The data of a configuration command, without the length byte.
abbrev pub config_data : Apdu → List ℕ
config_data a = block (a.nc - 1) (drop 1 a.buffer)

-- No value of the list has the tag of the enabled capabilities.
abbrev pub NoneEnabled : List Walked → Type 0
NoneEnabled [] = Unit
NoneEnabled (w ∷ ws) = (w.tag ≢ tag_usb_enabled) × NoneEnabled ws

abbrev keyboard_test : ℕ → ℕ → Bool
keyboard_test x k = bit_and (bit_or x k) k == k && (bit_and (bit_xor (bit_or x k) k) k == 0)

keyboard_everywhere : passes_upto (λ x. passes_upto (keyboard_test x) 256) 256 ≡ true
unfolding passes_upto
keyboard_everywhere = refl

keyboard_bits :
    (x k : ℕ)
    → x < 256
    → k < 256
    → (bit_and (bit_or x k) k ≡ k) × (bit_and (bit_xor (bit_or x k) k) k ≡ 0)
keyboard_bits x k hx hk =
    let row =
      passes_upto-at (λ y. passes_upto (keyboard_test y) 256) 256 x hx keyboard_everywhere in
    ground (arith, passes_upto-at (keyboard_test x) 256 k hk row)

has_data-block : (n : ℕ) (buf : List ℕ) → 0 < n → has_data (block n buf) ≡ true
unfolding block
has_data-block zero buf h = absurd (omega arith)
has_data-block (suc n) [] h = refl
has_data-block (suc n) (x ∷ buf) h = refl

module _ (sdk : ManSdk) where
  cap_from-append :
      (before after : List Walked) (w : Walked) (file : List ℕ) (cap : ℕ)
      → NoneEnabled before
      → w.tag ≡ tag_usb_enabled
      → cap_from sdk (before ++ w ∷ after) file cap
        ≡ not (bit_and (enabled_caps sdk file w) cap == 0)
  unfolding cap_from
  cap_from-append [] after w file cap n h = ground arith
  cap_from-append (v ∷ before) after w file cap n h =
      ground (arith, n.0, cap_from-append before after w file cap n.1 h)

  -- The first value with the tag of the enabled capabilities decides what is supported, whatever
  -- follows it.
  pub cap_supported_first :
      (c : Contents) (before after : List Walked) (w : Walked) (cap : ℕ)
      → has_data (c ef_dev_conf) ≡ true
      → sdk.walk_tlv (c ef_dev_conf) ≡ before ++ w ∷ after
      → NoneEnabled before
      → w.tag ≡ tag_usb_enabled
      → cap_supported sdk c cap ≡ not (bit_and (enabled_caps sdk (c ef_dev_conf) w) cap == 0)
  unfolding cap_supported
  cap_supported_first c before after w cap d e n h =
      rw (d, e) (cap_from-append before after w (c ef_dev_conf) cap n h)

  length-config_front : length (config_front sdk) ≡ 18
  unfolding config_front
  length-config_front = omega (
    arith,
    length-append (drop 1 (block 4 sdk.serial_id)) (0x04 ∷ 1 ∷ 0x01 ∷ 0x05 ∷ 3 ∷ 6 ∷ 6 ∷ 0 ∷ []),
    length-drop 1 (block 4 sdk.serial_id),
    length-block 4 sdk.serial_id,
  )

  module _ (laws : IsFlash sdk.flash) where
    written_tail :
        (a : Apdu) (s : Management)
        → 1 < a.nc
        → is_ok (cmd_write_config sdk a s).0 ≡ true
        → config_tail sdk (cmd_write_config sdk a s).1.files ≡ config_data a
    unfolding cmd_write_config config_tail set_keyboard
    written_tail a s l h = ground (
      arith,
      laws.put_lem s.files ef_dev_conf (config_data a) ef_dev_conf,
      has_data-block (a.nc - 1) (drop 1 a.buffer) (omega arith),
    )

    -- A configuration that was written is what a read gives, after a front of 19 bytes.
    pub write_then_read :
        (a : Apdu) (s : Management)
        → 1 < a.nc
        → is_ok (cmd_write_config sdk a s).0 ≡ true
        → (front : List ℕ) × ((length front ≡ 19)
            × ((man_get_config sdk (cmd_write_config sdk a s).1).res ≡ front ++ config_data a))
    unfolding man_get_config
    write_then_read a s l h =
        let t = (cmd_write_config sdk a s).1 in
        (
          length (config_body sdk t.files) % 256 ∷ config_front sdk,
          (ap suc length-config_front, rw (written_tail a s l h) refl),
        )

  -- A configuration that was written decides whether the device is a keyboard: the bit of that
  -- interface is set if the one-time passwords are supported now, and cleared if they are not.
  pub write_sets_keyboard :
      (a : Apdu) (s : Management)
      → s.enabled_usb_itf < 256
      → sdk.phy_usb_itf_kb < 256
      → is_ok (cmd_write_config sdk a s).0 ≡ true
      → bit_and (cmd_write_config sdk a s).1.enabled_usb_itf sdk.phy_usb_itf_kb ≡ (
          if cap_supported sdk (cmd_write_config sdk a s).1.files cap_otp
          then sdk.phy_usb_itf_kb
          else 0)
  unfolding cmd_write_config set_keyboard
  write_sets_keyboard a s hx hk h =
      ground (arith, keyboard_bits s.enabled_usb_itf sdk.phy_usb_itf_kb hx hk)
