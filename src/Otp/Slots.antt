-- ===== src/Otp/Slots.antt =====
-- otp.c, lines 394 to 476: a slot is configured or updated, and the two are swapped.
use pico_fido_microkey.Base.{
  ℕ, ◌-◌, ◌+◌, bit_and, bit_or, Bool, not, ◌&&◌, ◌||◌, List, [], ◌∷◌, ◌++◌, length, drop, block,
  replicate, read_bytes, write_bytes, byte_at, memcmp_eq, bytes_eq, leb, ◌==◌, if◌then◌else◌,
}
use pico_fido_microkey.Base.Exec.{gets, modify, guard, ◌>>=◌, ◌>>◌}
use pico_fido_microkey.Sdk.{has_data}
use pico_fido_microkey.Files.{ef_otp_slot1, ef_otp_slot2}
use pico_fido_microkey.Apdu.{security_status_not_satisfied, wrong_data, memory_fault}
use pico_fido_microkey.Otp.State.{
  OtpSdk, Otp, OtpCmd, acc_code, fixed_size, ext_flags, tkt_flags, cfg_flags, otp_config_size,
  chal_resp, extflag_update_mask, tktflag_update_mask, cfgflag_update_mask, has_flag, put_slot,
  delete_slot, new_slot, otp_status, changed,
}
use pico_fido_microkey.Otp.Crc.{check_crc}

-- What a new configuration must satisfy.
unfoldable pub is_valid_config : List ℕ → Bool
is_valid_config d = byte_at d 48 == 0 && (byte_at d 49 == 0 && check_crc d)

-- A slot with data is changed only with its access code, after the configuration in the command.
unfoldable pub is_authorised : List ℕ → List ℕ → Bool
is_authorised file d = not (has_data file) || memcmp_eq (acc_code file) (drop otp_config_size d) 6

-- Whether every byte of the new configuration is 0: the slot is deleted.
unfoldable pub is_deletion : List ℕ → Bool
is_deletion d = bytes_eq (block otp_config_size d) (replicate otp_config_size 0)

-- `(old & ~mask) | (new & mask)`
unfoldable pub merge_flags : ℕ → ℕ → ℕ → ℕ
merge_flags old new mask = bit_or (bit_and old (255 - mask)) (bit_and new mask)

-- The fixed size and the flags of an update.
unfoldable pub updated_flags : List ℕ → List ℕ → List ℕ
updated_flags file d =
    fixed_size file
    ∷ merge_flags (ext_flags file) (ext_flags d) extflag_update_mask
    ∷ merge_flags (tkt_flags file) (tkt_flags d) tktflag_update_mask
    ∷ (if has_flag (tkt_flags file) chal_resp
        then cfg_flags file
        else merge_flags (cfg_flags file) (cfg_flags d) cfgflag_update_mask)
    ∷ []

-- The configuration of an update, with what the stored one keeps: the fixed data, the identity and
-- the key, the fixed size and most flags.
unfoldable pub updated_config : List ℕ → List ℕ → List ℕ
updated_config file d =
    block 38 file ++ (read_bytes d 38 6 ++ (updated_flags file d ++ read_bytes d 48 4))

-- The command's data with 8 bytes of counter after the configuration, which are 0.
unfoldable pub with_room : List ℕ → List ℕ
with_room d = write_bytes d otp_config_size (replicate 8 0)

module _ (sdk : OtpSdk) where
  -- The configuration is stored with its counter.
  unfoldable pub store_config : ℕ → Otp → Otp
  store_config fid s =
      let d = with_room s.data_in in
      record (put_slot sdk fid (block (otp_config_size + 8) d) s) { data_in = d }

  -- The loop over the bytes of the configuration, and what follows it.
  unfoldable pub replace_config : ℕ → OtpCmd (Unit {0})
  replace_config fid = do
    d ← gets (λ s. s.data_in)
    if is_deletion d
        then modify (delete_slot sdk fid)
        else (do guard (is_valid_config d) wrong_data; modify (store_config fid))

  unfoldable pub configure_slot : ℕ → OtpCmd (Unit {0})
  configure_slot fid = do
    modify (new_slot sdk fid)
    s ← gets (λ s. s)
    guard (is_authorised (s.files fid) s.data_in) security_status_not_satisfied
    replace_config fid
    modify changed

  -- The new configuration is built in the command's data, and its 52 bytes are stored.
  unfoldable pub store_update : ℕ → Otp → Otp
  store_update fid s =
      let d = updated_config (s.files fid) s.data_in in
      changed (record (put_slot sdk fid d s) { data_in = d ++ drop otp_config_size s.data_in })

  unfoldable pub update_slot : ℕ → OtpCmd (Unit {0})
  update_slot fid = do
    s ← gets (λ s. s)
    guard (is_valid_config s.data_in) wrong_data
    guard (is_authorised (s.files fid) s.data_in) security_status_not_satisfied
    modify (if has_data (s.files fid) then store_update fid else otp_status s.is_otp)

  -- The array `tmp` after the first slot was copied into it; the copy may leave its end as it was.
  abbrev pub swap_buffer : List ℕ → List ℕ
  swap_buffer file = block (otp_config_size + 8) (write_bytes sdk.stack 0 file)

  -- The first slot becomes the second one, or is deleted if that is empty.
  unfoldable pub move_second : Otp → Otp
  move_second s =
      if has_data (s.files ef_otp_slot2)
      then put_slot sdk ef_otp_slot1 (s.files ef_otp_slot2) s
      else new_slot sdk ef_otp_slot2 (delete_slot sdk ef_otp_slot1 s)

  -- The second slot becomes what was in `tmp`, or is deleted if the first one was empty.
  unfoldable pub move_first : List ℕ → Otp → Otp
  move_first file s =
      if has_data file
      then put_slot sdk ef_otp_slot2 (swap_buffer file) s
      else delete_slot sdk ef_otp_slot2 s

  unfoldable pub swap_slots : OtpCmd (Unit {0})
  swap_slots = do
    modify (λ s. new_slot sdk ef_otp_slot2 (new_slot sdk ef_otp_slot1 s))
    file ← gets (λ s. s.files ef_otp_slot1)
    guard (leb (length file) (otp_config_size + 8)) memory_fault
    modify move_second
    modify (move_first file)
    modify changed
