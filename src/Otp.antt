-- ===== src/Otp.antt =====
-- otp.c: the OTP slots, the button and the frames of the keyboard interface; here the selection and
-- the commands, lines 131 to 147, 388 to 393, 477 to 484 and 549 to 569.
use pico_fido_microkey.Base.{
  ℕ, Bool, true, false, ◌||◌, List, [], length, write_bytes, ◌==◌, if◌then◌else◌,
}
use pico_fido_microkey.Base.Exec.{gets, modify, guard, fail, pure, ◌>>=◌, ◌>>◌}
use pico_fido_microkey.Sdk.{has_data}
use pico_fido_microkey.Files.{ef_otp_slot1, ef_otp_slot2}
use pico_fido_microkey.Apdu.{incorrect_p1p2, cla_not_supported, ins_not_supported}
use pico_fido_microkey.Management.{
  ManSdk, Management, cap_supported, cap_otp, serial, man_get_config,
}
use pico_fido_microkey.Otp.State.{OtpSdk, Otp, OtpCmd, otp_status}
use pico_fido_microkey.Otp.Slots.{configure_slot, update_slot, swap_slots}
use pico_fido_microkey.Otp.Challenge.{respond_with, calculate_otp}
pub mod State
pub mod Crc
pub mod Slots
pub mod Challenge
pub mod Modhex
pub mod Button
pub mod Frames
pub mod Residue
pub mod Protection
pub mod Swap
pub mod Received
pub mod Sent
pub mod Answers
pub mod Stored
pub mod Updated
pub mod Password
pub mod Hotp
pub mod Counters
pub mod Sizes

-- `apdu.header`
pub record Header : Type 0 where
  pub cla : ℕ
  pub ins : ℕ
  pub p1 : ℕ
  pub p2 : ℕ

module _ (sdk : OtpSdk) where
  -- Whether the application is selected. The sequence number tells whether a slot is configured.
  unfoldable pub otp_select : Otp → Bool × Otp
  otp_select s =
      let configured = has_data (s.files ef_otp_slot1) || has_data (s.files ef_otp_slot2) in
      if cap_supported sdk.oath.man s.files cap_otp
      then (true, otp_status false (record s { config_seq = if configured then 1 else 0 }))
      else (false, s)

  unfoldable pub read_serial : Otp → Otp
  read_serial s = respond_with (serial sdk.oath.man) 4 s

  -- The configuration of management.c as the response.
  unfoldable pub read_config : Otp → Otp
  read_config s =
      let man =
        man_get_config sdk.oath.man (record { files = s.files; res = []; enabled_usb_itf = 0 }) in
      respond_with man.res (length man.res) s

  -- `timed_out` is what `wait_button` returns, if it is called.
  unfoldable pub cmd_otp : Bool → Header → OtpCmd (Unit {0})
  cmd_otp timed_out h = do
    guard (h.p2 == 0x00) incorrect_p1p2
    if h.p1 == 0x01
        then configure_slot sdk ef_otp_slot1
        else if h.p1 == 0x03
        then configure_slot sdk ef_otp_slot2
        else if h.p1 == 0x04
        then update_slot sdk ef_otp_slot1
        else if h.p1 == 0x05
        then update_slot sdk ef_otp_slot2
        else if h.p1 == 0x06
        then swap_slots sdk
        else if h.p1 == 0x10
        then modify read_serial
        else if h.p1 == 0x13
        then modify read_config
        else if h.p1 == 0x30 || h.p1 == 0x20
        then calculate_otp sdk timed_out h.p1 ef_otp_slot1
        else if h.p1 == 0x38 || h.p1 == 0x28
        then calculate_otp sdk timed_out h.p1 ef_otp_slot2
        else pure tt

  unfoldable pub otp_process_apdu : Bool → Header → OtpCmd (Unit {0})
  otp_process_apdu timed_out h = do
    guard (h.cla == 0x00) cla_not_supported
    supported ← gets (λ s. cap_supported sdk.oath.man s.files cap_otp)
    guard supported ins_not_supported
    if h.ins == 0x01 then cmd_otp timed_out h else fail ins_not_supported
