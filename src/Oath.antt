-- ===== src/Oath.antt =====
-- oath.c: the YKOATH application, its selection and its dispatch of commands.
use pico_fido_microkey.Base.{
  ℕ, List, [], ◌∷◌, ◌++◌, Bool, true, false, Option, none, some, block, byte_at, ◌==◌,
  if◌then◌else◌,
}
use pico_fido_microkey.Base.Exec.{Exec, guard, gets, modify, fail, pure, ◌>>=◌, ◌>>◌}
use pico_fido_microkey.Sdk.{Contents, has_data}
use pico_fido_microkey.Files.{ef_oath_code, ef_otp_pin}
use pico_fido_microkey.Apdu.{Apdu, Sw, cla_not_supported, ins_not_supported}
use pico_fido_microkey.Management.{cap_supported, cap_oath, version_major, version_minor}
use pico_fido_microkey.Oath.State.{
  OathSdk, Oath, Cmd, tag_t_version, tag_name, tag_challenge, tag_pin_counter, tag_algo,
  challenge_len,
}
use pico_fido_microkey.Oath.Creds.{cmd_put, cmd_delete, cmd_reset, cmd_list, cmd_rename}
use pico_fido_microkey.Oath.Code.{cmd_set_code, cmd_validate, new_challenge}
use pico_fido_microkey.Oath.Calculate.{cmd_calculate, cmd_calculate_all, cmd_verify_hotp}
use pico_fido_microkey.Oath.Pin.{cmd_set_otp_pin, cmd_change_otp_pin, cmd_verify_otp_pin}
pub mod State
pub mod Creds
pub mod Code
pub mod Calculate
pub mod Pin
pub mod Access
pub mod Store
pub mod Reset
pub mod Counter
pub mod Tries

module _ (sdk : OathSdk) where
  abbrev challenge_part : Oath → List ℕ
  challenge_part s =
      if has_data (s.files ef_oath_code) then tag_challenge ∷ challenge_len ∷ s.challenge else []

  abbrev counter_part : Oath → List ℕ
  counter_part s =
      if has_data (s.files ef_otp_pin)
      then tag_pin_counter ∷ 1 ∷ byte_at (s.files ef_otp_pin) 0 ∷ []
      else []

  -- Whether the application is selected. A new challenge is drawn where an access code is set.
  unfoldable pub oath_select : Oath → Bool × Oath
  unfolding new_challenge
  oath_select s =
      let t = (if has_data (s.files ef_oath_code) then new_challenge sdk s else s) in
      if cap_supported sdk.man s.files cap_oath
      then (
        true,
        record t {
          res =
              tag_t_version
              ∷ 3
              ∷ version_major
              ∷ version_minor
              ∷ 0
              ∷ tag_name
              ∷ 8
              ∷ (block 8 sdk.serial_str
                  ++ (challenge_part t ++ (counter_part t ++ tag_algo ∷ 1 ∷ 0x01 ∷ [])));
        },
      )
      else (false, s)

  -- The table `cmds`.
  unfoldable pub oath_command : ℕ → Apdu → Option (Cmd (Unit {0}))
  oath_command ins a =
      if ins == 0x01
      then some (cmd_put sdk a)
      else if ins == 0x02
      then some (cmd_delete sdk a)
      else if ins == 0x03
      then some (cmd_set_code sdk a)
      else if ins == 0x04
      then some (cmd_reset sdk a)
      else if ins == 0x05
      then some (cmd_rename sdk a)
      else if ins == 0xa1
      then some (cmd_list sdk)
      else if ins == 0xa3
      then some (cmd_validate sdk a)
      else if ins == 0xa2
      then some (cmd_calculate sdk a)
      else if ins == 0xa4
      then some (cmd_calculate_all sdk a)
      else if ins == 0xa5
      then some (pure tt)
      else if ins == 0xb4
      then some (cmd_set_otp_pin sdk a)
      else if ins == 0xb3
      then some (cmd_change_otp_pin sdk a)
      else if ins == 0xb2
      then some (cmd_verify_otp_pin sdk a)
      else if ins == 0xb1
      then some (cmd_verify_hotp sdk a)
      else none

  unfoldable pub oath_process_apdu : Apdu → Cmd (Unit {0})
  oath_process_apdu a = do
    guard (a.cla == 0x00) cla_not_supported
    supported ← gets (λ s. cap_supported sdk.man s.files cap_oath)
    guard supported ins_not_supported
    elim (oath_command a.ins a) [ none ↦ fail ins_not_supported | some command ↦ command ]
