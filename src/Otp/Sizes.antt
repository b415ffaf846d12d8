-- ===== src/Otp/Sizes.antt =====
-- The sizes of the slot files of otp.c.
use pico_fido_microkey.Base.{
  ℕ, ◌≡◌, ◌≤◌, inl, inr, refl, arith, Bool, Bool-cases, ==_iff, true, ◌&&◌, ◌||◌, List, [], ◌++◌,
  length, drop, subst, block, length-block, read_bytes, length-read_bytes, write_bytes,
  length-append, if◌then◌else◌, ◌==◌,
}
use pico_fido_microkey.Base.Exec.{is_ok}
use pico_fido_microkey.Sdk.{has_data, IsFlash}
use pico_fido_microkey.Files.{ef_otp_slot1, ef_otp_slot2}
use pico_fido_microkey.Otp.State.{OtpSdk, Otp, otp_config_size, new_slot}
use pico_fido_microkey.Otp.Slots.{
  updated_flags, updated_config, with_room, store_config, replace_config, configure_slot,
  store_update, update_slot, swap_buffer, swap_slots,
}
use pico_fido_microkey.Otp.{Header, cmd_otp, otp_process_apdu}
use pico_fido_microkey.Otp.Protection.{
  changed-files, otp_status-files, read_serial-files, read_config-files, configure_slot-else,
  update_slot-else, calculate_otp-files,
}
use pico_fido_microkey.Otp.Swap.{swap_slots_files}

-- The sizes that a slot has: none, that of an update, or that of a configuration.
abbrev pub is_slot_size : ℕ → Bool
is_slot_size n = n == 0 || (n == 52 || n == 60)

unfoldable pub is_slot : List ℕ → Bool
is_slot f = is_slot_size (length f)

length-updated_flags : (f d : List ℕ) → length (updated_flags f d) ≡ 4
unfolding updated_flags
length-updated_flags f d = refl

pub length-updated_config : (f d : List ℕ) → length (updated_config f d) ≡ 52
unfolding updated_config
length-updated_config f d = omega (
  arith,
  length-append (block 38 f) (read_bytes d 38 6 ++ (updated_flags f d ++ read_bytes d 48 4)),
  length-append (read_bytes d 38 6) (updated_flags f d ++ read_bytes d 48 4),
  length-append (updated_flags f d) (read_bytes d 48 4),
  length-updated_flags f d,
  length-block 38 f,
  length-read_bytes d 38 6,
  length-read_bytes d 48 4,
)

-- Both slots.
abbrev pub has_slots : Otp → Bool
has_slots s = is_slot (s.files ef_otp_slot1) && is_slot (s.files ef_otp_slot2)

is_slot-le : (f : List ℕ) → is_slot f ≡ true → length f ≤ 60
unfolding is_slot
is_slot-le f h = ground arith

module _ (sdk : OtpSdk) where
  module _ (laws : IsFlash sdk.oath.flash) where
    replace_config_size :
        (fid : ℕ) (s : Otp)
        → is_slot (s.files fid) ≡ true
        → is_slot ((replace_config sdk fid s).1.files fid) ≡ true
    unfolding replace_config store_config is_slot
    replace_config_size fid s h =
        let d = block 60 (with_room s.data_in) in
        ground (
          arith,
          laws.put_lem s.files fid d fid,
          laws.delete_lem s.files fid fid,
          length-block 60 (with_room s.data_in),
        )

    configure_slot_size :
        (fid : ℕ) (s : Otp)
        → is_slot (s.files fid) ≡ true
        → is_slot ((configure_slot sdk fid s).1.files fid) ≡ true
    unfolding configure_slot
    configure_slot_size fid s h =
        let t = new_slot sdk fid s in
        ground (
          arith,
          laws.new_lem s.files fid fid,
          replace_config_size fid t,
          changed-files (replace_config sdk fid t).1,
        )

    update_slot_size :
        (fid : ℕ) (s : Otp)
        → is_slot (s.files fid) ≡ true
        → is_slot ((update_slot sdk fid s).1.files fid) ≡ true
    unfolding update_slot store_update is_slot
    update_slot_size fid s h =
        let d = updated_config (s.files fid) s.data_in in
        let t = record s {
          files = sdk.oath.flash.file_put_data s.files fid d;
          data_in = d ++ drop otp_config_size s.data_in;
        } in
        ground (
          arith,
          laws.put_lem s.files fid d fid,
          length-updated_config (s.files fid) s.data_in,
          otp_status-files s.is_otp s,
          changed-files t,
        )

    swapped_size :
        (f : List ℕ)
        → is_slot f ≡ true
        → is_slot (if has_data f then swap_buffer sdk f else []) ≡ true
    unfolding is_slot
    swapped_size f h = ground (arith, length-block 60 (write_bytes sdk.stack 0 f))

    configure_slot_all :
        (fid g : ℕ) (s : Otp)
        → is_slot (s.files g) ≡ true
        → is_slot ((configure_slot sdk fid s).1.files g) ≡ true
    configure_slot_all fid g s h = elim (Bool-cases (fid == g)) [
      | inr n ↦ rw (configure_slot-else sdk laws fid g s n) h
      | inl e ↦
          subst (λ k. is_slot ((configure_slot sdk fid s).1.files k) ≡ true) ((==_iff fid g).0 e)
            (configure_slot_size fid s (rw ((==_iff fid g).0 e) h))
    ]

    update_slot_all :
        (fid g : ℕ) (s : Otp)
        → is_slot (s.files g) ≡ true
        → is_slot ((update_slot sdk fid s).1.files g) ≡ true
    update_slot_all fid g s h = elim (Bool-cases (fid == g)) [
      | inr n ↦ rw (update_slot-else sdk laws fid g s n) h
      | inl e ↦
          subst (λ k. is_slot ((update_slot sdk fid s).1.files k) ≡ true) ((==_iff fid g).0 e)
            (update_slot_size fid s (rw ((==_iff fid g).0 e) h))
    ]

    swap_slots_all : (s : Otp) → has_slots s ≡ true → has_slots (swap_slots sdk s).1 ≡ true
    swap_slots_all s h =
        let r = swap_slots_files sdk laws s (is_slot-le (s.files ef_otp_slot1) (ground arith)) in
        rw (r.1.0, r.1.1) (ground (arith, swapped_size (s.files ef_otp_slot1)))

    cmd_otp-Slots :
        (timed_out : Bool) (h : Header) (s : Otp)
        → has_slots s ≡ true
        → has_slots (cmd_otp sdk timed_out h s).1 ≡ true
    unfolding cmd_otp
    cmd_otp-Slots timed_out h s w = ground (
      arith,
      configure_slot_all ef_otp_slot1 ef_otp_slot1 s,
      configure_slot_all ef_otp_slot1 ef_otp_slot2 s,
      configure_slot_all ef_otp_slot2 ef_otp_slot1 s,
      configure_slot_all ef_otp_slot2 ef_otp_slot2 s,
      update_slot_all ef_otp_slot1 ef_otp_slot1 s,
      update_slot_all ef_otp_slot1 ef_otp_slot2 s,
      update_slot_all ef_otp_slot2 ef_otp_slot1 s,
      update_slot_all ef_otp_slot2 ef_otp_slot2 s,
      swap_slots_all s,
      calculate_otp-files sdk timed_out h.p1 ef_otp_slot1 s,
      calculate_otp-files sdk timed_out h.p1 ef_otp_slot2 s,
      read_serial-files sdk s,
      read_config-files sdk s,
    )

    -- Every command leaves each of the two slots empty or of the size of an update or of a whole
    -- configuration, if they were so before, and a swap of such slots never copies past its array.
    pub otp_process_apdu-Slots :
        (timed_out : Bool) (h : Header) (s : Otp)
        → has_slots s ≡ true
        → (has_slots (otp_process_apdu sdk timed_out h s).1 ≡ true)
          × (is_ok (swap_slots sdk s).0 ≡ true)
    unfolding otp_process_apdu
    otp_process_apdu-Slots timed_out h s w = (
      ground (arith, cmd_otp-Slots timed_out h s w),
      (swap_slots_files sdk laws s (is_slot-le (s.files ef_otp_slot1) (ground arith))).0,
    )
