-- ===== src/Tests/Otp.antt =====
-- Runs of the OTP slots: the commands that change and use them.
use pico_fido_microkey.Base.{
  ◌≡◌, refl, arith, true, false, [], ◌∷◌, ◌++◌, List, ℕ, inr, replicate, block, bytes_eq, memcmp_eq,
  read_bytes,
}
use pico_fido_microkey.Base.Exec.{is_ok}
use pico_fido_microkey.Sdk.{Contents, ideal_flash-IsFlash}
use pico_fido_microkey.Files.{ef_otp_slot1}
use pico_fido_microkey.Otp.{otp_process_apdu}
use pico_fido_microkey.Otp.Crc.{calculate_crc}
use pico_fido_microkey.Otp.Residue.{crc_bytes, check_crc-residue}
use pico_fido_microkey.Otp.Slots.{
  is_authorised, is_deletion, is_valid_config, configure_slot, replace_config, update_slot,
  swap_slots,
}
use pico_fido_microkey.Otp.Challenge.{hmac_response, calculate_otp}
use pico_fido_microkey.Otp.Protection.{otp_process_apdu-protected}
use pico_fido_microkey.Otp.Sizes.{has_slots, is_slot, otp_process_apdu-Slots}
use pico_fido_microkey.Otp.Stored.{given, configure_then_challenge}
use pico_fido_microkey.Otp.Updated.{update_then_challenge}
use pico_fido_microkey.Otp.Answers.{
  Answered, yubico_answers_hmac, unpadded_len-message, padded_message,
}
use pico_fido_microkey.Otp.Challenge.{unpadded_len}
use pico_fido_microkey.Tests.OtpToy.{toy_otp, slot_front, slot, slot_files, otp, header}

-- A slot for HMAC challenges, and a static one.
abbrev two_slots : Contents
two_slots = slot_files (slot 0x40 0x26) (slot 0 0x20)

wrong_code : is_authorised (slot 0x40 0x26) (replicate 58 0) ≡ false
unfolding is_authorised memcmp_eq read_bytes block bytes_eq
wrong_code = refl

otp_process_apdu-protected_example :
    (otp_process_apdu toy_otp false (header 0x01) (otp two_slots (replicate 58 0))).1.files
      ef_otp_slot1
    ≡ slot 0x40 0x26
otp_process_apdu-protected_example =
    otp_process_apdu-protected toy_otp ideal_flash-IsFlash false (header 0x01) ef_otp_slot1
      (otp two_slots (replicate 58 0)) wrong_code refl

two_sizes : has_slots (otp two_slots []) ≡ true
unfolding is_slot
two_sizes = refl

otp_process_apdu-Slots_example :
    (has_slots (otp_process_apdu toy_otp false (header 0x06) (otp two_slots [])).1 ≡ true)
    × (is_ok (swap_slots toy_otp (otp two_slots [])).0 ≡ true)
otp_process_apdu-Slots_example =
    otp_process_apdu-Slots toy_otp ideal_flash-IsFlash false (header 0x06) (otp two_slots [])
      two_sizes

abbrev front : List ℕ
front = slot_front 0x40 0x26 ++ 0 ∷ 0 ∷ []

-- A configuration for HMAC challenges, with the access code of the slots above.
abbrev config : List ℕ
config = front ++ (crc_bytes (calculate_crc front) ++ replicate 6 6)

config_valid : is_valid_config config ≡ true
unfolding is_valid_config
config_valid = check_crc-residue front (replicate 6 6) refl

config_authorised : is_authorised (slot 0x40 0x26) config ≡ true
unfolding is_authorised memcmp_eq read_bytes block bytes_eq
config_authorised = refl

not_deleted : is_deletion config ≡ false
unfolding is_deletion block bytes_eq
not_deleted = refl

configure_runs : is_ok (configure_slot toy_otp ef_otp_slot1 (otp two_slots config)).0 ≡ true
unfolding configure_slot replace_config
configure_runs = ground (arith, config_valid, config_authorised, not_deleted)

update_runs : is_ok (update_slot toy_otp ef_otp_slot1 (otp two_slots config)).0 ≡ true
unfolding update_slot
update_runs = ground (arith, config_valid, config_authorised)

abbrev chal : List ℕ
chal = 1 ∷ 2 ∷ 3 ∷ replicate 61 0

configure_then_challenge_example :
    (is_ok
        (calculate_otp toy_otp false 0x30 ef_otp_slot1
          (given chal (configure_slot toy_otp ef_otp_slot1 (otp two_slots config)).1)).0
      ≡ true)
    × (block 20
          (calculate_otp toy_otp false 0x30 ef_otp_slot1
            (given chal (configure_slot toy_otp ef_otp_slot1 (otp two_slots config)).1)).1.rdata
        ≡ block 20 (hmac_response toy_otp config chal))
configure_then_challenge_example =
    configure_then_challenge toy_otp ideal_flash-IsFlash false ef_otp_slot1 (otp two_slots config)
      chal not_deleted configure_runs refl refl refl

update_then_challenge_example :
    (is_ok
        (calculate_otp toy_otp false 0x30 ef_otp_slot1
          (given chal (update_slot toy_otp ef_otp_slot1 (otp two_slots config)).1)).0
      ≡ true)
    × (block 20
          (calculate_otp toy_otp false 0x30 ef_otp_slot1
            (given chal (update_slot toy_otp ef_otp_slot1 (otp two_slots config)).1)).1.rdata
        ≡ block 20
            (calculate_otp toy_otp false 0x30 ef_otp_slot1
              (given chal (otp two_slots config))).1.rdata)
update_then_challenge_example =
    update_then_challenge toy_otp ideal_flash-IsFlash false ef_otp_slot1 (otp two_slots config) chal
      update_runs refl (omega arith) (omega arith) refl refl refl

yubico_answers_hmac_example :
    Answered toy_otp
      (slot 0x40 0x20)
      chal
      (is_ok
        (calculate_otp toy_otp false 0x30 ef_otp_slot1
          (otp (slot_files (slot 0x40 0x20) []) chal)).0)
      (calculate_otp toy_otp false 0x30 ef_otp_slot1 (otp (slot_files (slot 0x40 0x20) []) chal)).1
yubico_answers_hmac_example =
    yubico_answers_hmac toy_otp false ef_otp_slot1 (otp (slot_files (slot 0x40 0x20) []) chal) refl
      (omega arith) refl refl refl

unpadded_len-message_example :
    block
      (unpadded_len (padded_message (1 ∷ 2 ∷ 3 ∷ []) 0 []) 64)
      (padded_message (1 ∷ 2 ∷ 3 ∷ []) 0 [])
    ≡ 1 ∷ 2 ∷ 3 ∷ []
unpadded_len-message_example =
    unpadded_len-message (1 ∷ 2 ∷ 3 ∷ []) [] 0 (omega arith) (inr (2, (refl, ground arith)))
