-- ===== src/Otp/Updated.antt =====
-- A slot of otp.c before and after an update.
use pico_fido_microkey.Base.{
  get_or-drop, ℕ, ◌+◌, ◌<◌, ◌≡◌, ◌∙◌, ap, refl, sym, arith, bit_and, Bool, true, false, not, List,
  [], ◌∷◌, ◌++◌, drop, passes_upto, passes_upto-at, ==_iff, block, length-block, drop-append,
  read_bytes, length-read_bytes, byte_at, ◌==◌, if◌then◌else◌,
}
use pico_fido_microkey.Base.Exec.{is_ok}
use pico_fido_microkey.Sdk.{has_data, IsFlash}
use pico_fido_microkey.Otp.State.{
  OtpSdk, Otp, uid, aes_key, tkt_flags, cfg_flags, chal_resp, chal_btn_trig, chal_hmac, hmac_lt64,
  has_flag, slot_memory, otp_config_size,
}
use pico_fido_microkey.Otp.Slots.{
  merge_flags, updated_flags, updated_config, store_update, update_slot,
}
use pico_fido_microkey.Otp.Challenge.{unpadded_len, challenge_length, hmac_response, calculate_otp}
use pico_fido_microkey.Otp.Protection.{changed-files}
use pico_fido_microkey.Otp.Answers.{calculate_hmac}
use pico_fido_microkey.Otp.Sizes.{length-updated_config}
use pico_fido_microkey.Otp.Stored.{given, read-prefix}

abbrev mode_test : ℕ → ℕ → Bool
mode_test old new = bit_and (merge_flags old new 0x3f) 0x40 == bit_and old 0x40

mode_everywhere : passes_upto (λ old. passes_upto (mode_test old) 256) 256 ≡ true
unfolding passes_upto merge_flags
mode_everywhere = refl

-- The flag of the mode is none of those that an update changes.
merge_flags-mode :
    (old new : ℕ)
    → old < 256
    → new < 256
    → has_flag (merge_flags old new 0x3f) chal_resp ≡ has_flag old chal_resp
merge_flags-mode old new h l =
    let row = passes_upto-at (λ x. passes_upto (mode_test x) 256) 256 old h mode_everywhere in
    ap (λ n. not (n == 0)) ((==_iff _ _).0 (passes_upto-at (mode_test old) 256 new l row))

flags_at :
    (f d : List ℕ) (k : ℕ)
    → byte_at (updated_config f d) (38 + (6 + k))
      ≡ byte_at (updated_flags f d ++ read_bytes d 48 4) k
unfolding updated_config
flags_at f d k =
    let rest = updated_flags f d ++ read_bytes d 48 4 in
    let acc = read_bytes d 38 6 in
    sym (get_or-drop 38 (6 + k) (block 38 f ++ (acc ++ rest)) 0)
    ∙ ap (λ b. byte_at b (6 + k)) (drop-append (block 38 f) (acc ++ rest) 38 (length-block 38 f))
    ∙ sym (get_or-drop 6 k (acc ++ rest) 0)
    ∙ ap (λ b. byte_at b k) (drop-append acc rest 6 (length-read_bytes d 38 6))

tkt_flags-updated :
    (f d : List ℕ) → tkt_flags (updated_config f d) ≡ merge_flags (tkt_flags f) (tkt_flags d) 0x3f
unfolding updated_flags
tkt_flags-updated f d = flags_at f d 2

cfg_flags-updated :
    (f d : List ℕ)
    → has_flag (tkt_flags f) chal_resp ≡ true
    → cfg_flags (updated_config f d) ≡ cfg_flags f
unfolding updated_flags
cfg_flags-updated f d h = flags_at f d 3 ∙ rw h refl

has_data-updated : (f d : List ℕ) → has_data (updated_config f d) ≡ true
unfolding updated_config block
has_data-updated [] d = refl
has_data-updated (x ∷ f) d = refl

hmac_response-updated :
    (sdk : OtpSdk) (f d chal : List ℕ)
    → has_flag (tkt_flags f) chal_resp ≡ true
    → hmac_response sdk (updated_config f d) chal ≡ hmac_response sdk f chal
unfolding hmac_response challenge_length updated_config
hmac_response-updated sdk f d chal h =
    let g = updated_config f d in
    ap (λ k. sdk.hmac_sha1 (k ++ uid g) (block (challenge_length g chal) chal))
      (read-prefix 38 f _ 22 16 (omega arith))
    ∙ ap (λ u. sdk.hmac_sha1 (aes_key f ++ u) (block (challenge_length g chal) chal))
        (read-prefix 38 f _ 16 6 (omega arith))
    ∙ ap
        (λ c.
          sdk.hmac_sha1 (aes_key f ++ uid f)
            (block (if has_flag c hmac_lt64 then unpadded_len chal 64 else 64) chal))
        (cfg_flags-updated f d h)

module _ (sdk : OtpSdk) (laws : IsFlash sdk.oath.flash) where
  update_slot-file :
      (fid : ℕ) (s : Otp)
      → is_ok (update_slot sdk fid s).0 ≡ true
      → has_data (s.files fid) ≡ true
      → (update_slot sdk fid s).1.files fid ≡ updated_config (s.files fid) s.data_in
  unfolding update_slot store_update
  update_slot-file fid s h d =
      let new = updated_config (s.files fid) s.data_in in
      let t = record s {
        files = sdk.oath.flash.file_put_data s.files fid new;
        data_in = new ++ drop otp_config_size s.data_in;
      } in
      ground (arith, laws.put_lem s.files fid new fid, changed-files t)

  -- An update keeps the secret of a slot and its mode: an HMAC slot that needs no button answers a
  -- challenge after an accepted update as it would have before it.
  pub update_then_challenge :
      (timed_out : Bool) (fid : ℕ) (s : Otp) (chal : List ℕ)
      → is_ok (update_slot sdk fid s).0 ≡ true
      → has_data (s.files fid) ≡ true
      → tkt_flags (s.files fid) < 256
      → tkt_flags s.data_in < 256
      → has_flag (tkt_flags (s.files fid)) chal_resp ≡ true
      → has_flag (cfg_flags (s.files fid)) chal_hmac ≡ true
      → has_flag (cfg_flags (s.files fid)) chal_btn_trig ≡ false
      → (is_ok (calculate_otp sdk timed_out 0x30 fid (given chal (update_slot sdk fid s).1)).0
          ≡ true)
        × (block 20
              (calculate_otp sdk timed_out 0x30 fid (given chal (update_slot sdk fid s).1)).1.rdata
            ≡ block 20 (calculate_otp sdk timed_out 0x30 fid (given chal s)).1.rdata)
  update_then_challenge timed_out fid s chal h d l m t y b =
      let f = s.files fid in
      let u = given chal (update_slot sdk fid s).1 in
      let e = update_slot-file fid s h d in
      let mode =
        ap (λ x. has_flag x chal_resp) (tkt_flags-updated f s.data_in)
        ∙ merge_flags-mode (tkt_flags f) (tkt_flags s.data_in) l m in
      let cfg = ap cfg_flags e ∙ cfg_flags-updated f s.data_in t in
      let before = calculate_hmac sdk timed_out fid (given chal s) d t y b in
      let after =
        calculate_hmac sdk timed_out fid u (ap has_data e ∙ has_data-updated f s.data_in)
          (ap (λ x. has_flag (tkt_flags x) chal_resp) e ∙ mode ∙ t)
          (ap (λ x. has_flag x chal_hmac) cfg ∙ y) (ap (λ x. has_flag x chal_btn_trig) cfg ∙ b) in
      (
        after.accepted,
        after.response
            ∙ ap (λ x. block 20 (hmac_response sdk x chal)) e
            ∙ ap (block 20) (hmac_response-updated sdk f s.data_in chal t)
            ∙ sym before.response,
      )

  -- An update stores 52 bytes only, and the counter of the slot is lost: what the slot reads for it
  -- afterwards is what the flash holds past the end of the file.
  pub update_loses_counter :
      (fid : ℕ) (s : Otp)
      → is_ok (update_slot sdk fid s).0 ≡ true
      → has_data (s.files fid) ≡ true
      → drop 52 (slot_memory sdk (update_slot sdk fid s).1.files fid)
        ≡ sdk.beyond (update_slot sdk fid s).1.files fid
  update_loses_counter fid s h d =
      let c = (update_slot sdk fid s).1.files in
      ap (λ f. drop 52 (f ++ sdk.beyond c fid)) (update_slot-file fid s h d)
      ∙ drop-append (updated_config (s.files fid) s.data_in) (sdk.beyond c fid) 52
          (length-updated_config (s.files fid) s.data_in)
