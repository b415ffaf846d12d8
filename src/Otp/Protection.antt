-- ===== src/Otp/Protection.antt =====
-- The access codes of otp.c: who can change a slot.
use pico_fido_microkey.Base.{
  ℕ, ◌≡◌, inl, inr, ap, Bool, Bool-cases, ==_iff, refl, arith, false, List, block, ◌==◌,
}
use pico_fido_microkey.Sdk.{IsFlash}
use pico_fido_microkey.Files.{ef_otp_slot1, ef_otp_slot2}
use pico_fido_microkey.Otp.State.{OtpSdk, Otp, otp_status, changed, new_slot}
use pico_fido_microkey.Otp.Slots.{
  is_authorised, store_config, replace_config, configure_slot, store_update, updated_config,
  with_room, update_slot,
}
use pico_fido_microkey.Otp.Challenge.{
  respond_with, show_status, wait_touch, touch_slot, respond_hmac, respond_yubico, answer_challenge,
  calculate_otp,
}
use pico_fido_microkey.Otp.{Header, read_serial, read_config, cmd_otp, otp_process_apdu}

pub otp_status-files : (is_otp : Bool) (s : Otp) → (otp_status is_otp s).files ≡ s.files
unfolding otp_status
otp_status-files is_otp s = refl

pub changed-files : (s : Otp) → (changed s).files ≡ s.files
unfolding changed otp_status
changed-files s = refl

wait_touch-files : (timed_out : Bool) (s : Otp) → (wait_touch timed_out s).1.files ≡ s.files
unfolding wait_touch show_status otp_status
wait_touch-files timed_out s = ground arith

touch_slot-files :
    (timed_out : Bool) (f : List ℕ) (s : Otp) → (touch_slot timed_out f s).1.files ≡ s.files
unfolding touch_slot
touch_slot-files timed_out f s = ground (arith, wait_touch-files timed_out s)

module _ (sdk : OtpSdk) where
  respond_hmac-files : (f : List ℕ) (s : Otp) → (respond_hmac sdk f s).1.files ≡ s.files
  unfolding respond_hmac respond_with
  respond_hmac-files f s = ground arith

  respond_yubico-files : (f : List ℕ) (s : Otp) → (respond_yubico sdk f s).1.files ≡ s.files
  unfolding respond_yubico respond_with
  respond_yubico-files f s = ground arith

  answer_challenge-files :
      (timed_out : Bool) (p1 : ℕ) (f : List ℕ) (s : Otp)
      → (answer_challenge sdk timed_out p1 f s).1.files ≡ s.files
  unfolding answer_challenge
  answer_challenge-files timed_out p1 f s =
      let t = (touch_slot timed_out f s).1 in
      ground
        (arith, touch_slot-files timed_out f s, respond_hmac-files f t, respond_yubico-files f t)

  pub calculate_otp-files :
      (timed_out : Bool) (p1 fid : ℕ) (s : Otp)
      → (calculate_otp sdk timed_out p1 fid s).1.files ≡ s.files
  unfolding calculate_otp
  calculate_otp-files timed_out p1 fid s =
      ground (arith, answer_challenge-files timed_out p1 (s.files fid) s)

  pub read_serial-files : (s : Otp) → (read_serial sdk s).files ≡ s.files
  unfolding read_serial respond_with
  read_serial-files s = refl

  pub read_config-files : (s : Otp) → (read_config sdk s).files ≡ s.files
  unfolding read_config respond_with
  read_config-files s = refl

  module _ (laws : IsFlash sdk.oath.flash) where
    pub store_config-else :
        (fid g : ℕ) (s : Otp) → (fid == g) ≡ false → (store_config sdk fid s).files g ≡ s.files g
    unfolding store_config
    store_config-else fid g s n =
        ground (arith, laws.put_lem s.files fid (block 60 (with_room s.data_in)) g)

    pub store_update-else :
        (fid g : ℕ) (s : Otp) → (fid == g) ≡ false → (store_update sdk fid s).files g ≡ s.files g
    unfolding store_update changed otp_status
    store_update-else fid g s n =
        ground (arith, laws.put_lem s.files fid (updated_config (s.files fid) s.data_in) g)

    pub replace_config-else :
        (fid g : ℕ) (s : Otp)
        → (fid == g) ≡ false
        → (replace_config sdk fid s).1.files g ≡ s.files g
    unfolding replace_config
    replace_config-else fid g s n =
        ground (arith, store_config-else fid g s n, laws.delete_lem s.files fid g)

    pub configure_slot-else :
        (fid g : ℕ) (s : Otp)
        → (fid == g) ≡ false
        → (configure_slot sdk fid s).1.files g ≡ s.files g
    unfolding configure_slot
    configure_slot-else fid g s n =
        let t = new_slot sdk fid s in
        ground (
          arith,
          replace_config-else fid g t n,
          laws.new_lem s.files fid g,
          changed-files (replace_config sdk fid t).1,
        )

    configure_slot-refused :
        (fid g : ℕ) (s : Otp)
        → is_authorised (s.files fid) s.data_in ≡ false
        → (configure_slot sdk fid s).1.files g ≡ s.files g
    unfolding configure_slot
    configure_slot-refused fid g s n =
        ground (arith, laws.new_lem s.files fid g, laws.new_lem s.files fid fid)

    pub update_slot-else :
        (fid g : ℕ) (s : Otp) → (fid == g) ≡ false → (update_slot sdk fid s).1.files g ≡ s.files g
    unfolding update_slot
    update_slot-else fid g s n =
        ground (arith, store_update-else fid g s n, otp_status-files s.is_otp s)

    update_slot-refused :
        (fid : ℕ) (s : Otp)
        → is_authorised (s.files fid) s.data_in ≡ false
        → (update_slot sdk fid s).1 ≡ s
    unfolding update_slot
    update_slot-refused fid s n = ground arith

    configure_slot-kept :
        (fid g : ℕ) (s : Otp)
        → is_authorised (s.files g) s.data_in ≡ false
        → (configure_slot sdk fid s).1.files g ≡ s.files g
    configure_slot-kept fid g s a = elim (Bool-cases (fid == g)) [
      | inr n ↦ configure_slot-else fid g s n
      | inl e ↦ configure_slot-refused fid g s (rw ((==_iff fid g).0 e) a)
    ]

    update_slot-kept :
        (fid g : ℕ) (s : Otp)
        → is_authorised (s.files g) s.data_in ≡ false
        → (update_slot sdk fid s).1.files g ≡ s.files g
    update_slot-kept fid g s a = elim (Bool-cases (fid == g)) [
      | inr n ↦ update_slot-else fid g s n
      | inl e ↦ ap (λ t. t.files g) (update_slot-refused fid s (rw ((==_iff fid g).0 e) a))
    ]

    cmd_otp-protected :
        (timed_out : Bool) (h : Header) (fid : ℕ) (s : Otp)
        → is_authorised (s.files fid) s.data_in ≡ false
        → (h.p1 == 0x06) ≡ false
        → (cmd_otp sdk timed_out h s).1.files fid ≡ s.files fid
    unfolding cmd_otp
    cmd_otp-protected timed_out h fid s a p = ground (
      arith,
      configure_slot-kept ef_otp_slot1 fid s a,
      configure_slot-kept ef_otp_slot2 fid s a,
      update_slot-kept ef_otp_slot1 fid s a,
      update_slot-kept ef_otp_slot2 fid s a,
      calculate_otp-files timed_out h.p1 ef_otp_slot1 s,
      calculate_otp-files timed_out h.p1 ef_otp_slot2 s,
      read_serial-files s,
      read_config-files s,
    )

    -- Unless the two slots are swapped, a slot is changed only by a command that carries its access
    -- code after the configuration: without it, every command leaves the file of a slot that is
    -- configured as it was.
    pub otp_process_apdu-protected :
        (timed_out : Bool) (h : Header) (fid : ℕ) (s : Otp)
        → is_authorised (s.files fid) s.data_in ≡ false
        → (h.p1 == 0x06) ≡ false
        → (otp_process_apdu sdk timed_out h s).1.files fid ≡ s.files fid
    unfolding otp_process_apdu
    otp_process_apdu-protected timed_out h fid s a p =
        ground (arith, cmd_otp-protected timed_out h fid s a p)
