-- ===== src/Otp/Stored.antt =====
-- The configurations that otp.c stores, and what a slot answers with them.
use pico_fido_microkey.Base.{
  ℕ, zero, suc, ◌+◌, ◌-◌, ◌<◌, ◌≤◌, ◌≡◌, ◌∙◌, ap, refl, arith, Bool, true, false, List, [], ◌∷◌,
  ◌++◌, drop, replicate, block, block-write_bytes, read_bytes, byte_at, if◌then◌else◌,
}
use pico_fido_microkey.Base.Exec.{is_ok}
use pico_fido_microkey.Sdk.{has_data, IsFlash}
use pico_fido_microkey.Otp.State.{
  OtpSdk, Otp, uid, aes_key, tkt_flags, cfg_flags, chal_resp, chal_btn_trig, chal_hmac, hmac_lt64,
  has_flag, new_slot,
}
use pico_fido_microkey.Otp.Slots.{
  is_deletion, with_room, store_config, replace_config, configure_slot,
}
use pico_fido_microkey.Otp.Challenge.{unpadded_len, challenge_length, hmac_response, calculate_otp}
use pico_fido_microkey.Otp.Protection.{changed-files}
use pico_fido_microkey.Otp.Sent.{drop-nil}
use pico_fido_microkey.Otp.Answers.{calculate_hmac}

-- A configuration as it is stored: its 52 bytes, and 8 bytes of counter.
abbrev pub stored : List ℕ → List ℕ
stored d = block 52 d ++ replicate 8 0

with_room-stored : (d : List ℕ) → block 60 (with_room d) ≡ stored d
unfolding with_room
with_room-stored d = block-write_bytes d 52 (replicate 8 0)

byte_at-block : (k i : ℕ) (d z : List ℕ) → i < k → byte_at (block k d ++ z) i ≡ byte_at d i
unfolding block
byte_at-block zero i d z h = absurd (omega arith)
byte_at-block (suc k) zero [] z h = refl
byte_at-block (suc k) zero (x ∷ d) z h = refl
byte_at-block (suc k) (suc i) [] z h = byte_at-block k i [] z (omega arith)
byte_at-block (suc k) (suc i) (x ∷ d) z h = byte_at-block k i d z (omega arith)

block-prefix : (n k : ℕ) (d z : List ℕ) → n ≤ k → block n (block k d ++ z) ≡ block n d
unfolding block
block-prefix zero k d z h = refl
block-prefix (suc n) zero d z h = absurd (omega arith)
block-prefix (suc n) (suc k) [] z h = ap (◌∷◌ 0) (block-prefix n k [] z (omega arith))
block-prefix (suc n) (suc k) (x ∷ d) z h = ap (◌∷◌ x) (block-prefix n k d z (omega arith))

drop-prefix :
    (o k : ℕ) (d z : List ℕ) → o ≤ k → drop o (block k d ++ z) ≡ block (k - o) (drop o d) ++ z
unfolding block
drop-prefix zero k d z h = ap (λ n. block n d ++ z) (omega arith)
drop-prefix (suc o) zero d z h = absurd (omega arith)
drop-prefix (suc o) (suc k) [] z h =
    let e : k - o ≡ suc k - suc o = omega arith in
    drop-prefix o k [] z (omega arith)
    ∙ ap (λ b. block (k - o) b ++ z) (drop-nil o)
    ∙ ap (λ n. block n [] ++ z) e
drop-prefix (suc o) (suc k) (x ∷ d) z h =
    let e : k - o ≡ suc k - suc o = omega arith in
    drop-prefix o k d z (omega arith) ∙ ap (λ n. block n (drop o d) ++ z) e

pub read-prefix :
    (k : ℕ) (d z : List ℕ) (o n : ℕ)
    → o + n ≤ k
    → read_bytes (block k d ++ z) o n ≡ read_bytes d o n
unfolding read_bytes
read-prefix k d z o n h =
    ap (block n) (drop-prefix o k d z (omega arith))
    ∙ block-prefix n (k - o) (drop o d) z (omega arith)

byte_at-stored : (d : List ℕ) (i : ℕ) → i < 52 → byte_at (stored d) i ≡ byte_at d i
byte_at-stored d i h = byte_at-block 52 i d (replicate 8 0) h

has_data-stored : (d : List ℕ) → has_data (stored d) ≡ true
unfolding block
has_data-stored [] = refl
has_data-stored (x ∷ d) = refl

hmac_response-stored :
    (sdk : OtpSdk) (d chal : List ℕ) → hmac_response sdk (stored d) chal ≡ hmac_response sdk d chal
unfolding hmac_response challenge_length
hmac_response-stored sdk d chal =
    ap (λ k. sdk.hmac_sha1 (k ++ uid (stored d)) (block (challenge_length (stored d) chal) chal))
      (read-prefix 52 d (replicate 8 0) 22 16 (omega arith))
    ∙ ap (λ u. sdk.hmac_sha1 (aes_key d ++ u) (block (challenge_length (stored d) chal) chal))
        (read-prefix 52 d (replicate 8 0) 16 6 (omega arith))
    ∙ ap
        (λ c.
          sdk.hmac_sha1 (aes_key d ++ uid d)
            (block (if has_flag c hmac_lt64 then unpadded_len chal 64 else 64) chal))
        (byte_at-stored d 47 (omega arith))

-- The state when the next command has these data.
abbrev pub given : List ℕ → Otp → Otp
given chal s = record s { data_in = chal }

module _ (sdk : OtpSdk) (laws : IsFlash sdk.oath.flash) where
  replaced :
      (fid : ℕ) (s : Otp)
      → is_deletion s.data_in ≡ false
      → is_ok (replace_config sdk fid s).0 ≡ true
      → (replace_config sdk fid s).1.files fid ≡ stored s.data_in
  unfolding replace_config store_config
  replaced fid s d h =
      let whole = block 60 (with_room s.data_in) in
      let put : sdk.oath.flash.file_put_data s.files fid whole fid ≡ whole =
        ground (arith, laws.put_lem s.files fid whole fid) in
      ground (arith, put ∙ with_room-stored s.data_in)

  -- A configuration that is accepted is stored.
  configure_slot-stored :
      (fid : ℕ) (s : Otp)
      → is_deletion s.data_in ≡ false
      → is_ok (configure_slot sdk fid s).0 ≡ true
      → (configure_slot sdk fid s).1.files fid ≡ stored s.data_in
  unfolding configure_slot
  configure_slot-stored fid s d h =
      let t = new_slot sdk fid s in
      ground (arith, replaced fid t d, changed-files (replace_config sdk fid t).1)

  -- A slot that is configured for HMAC challenges answers them at once: after an accepted
  -- configuration whose flags ask for it, and for no button, the response to a challenge is the HMAC
  -- under the key of the configuration.
  pub configure_then_challenge :
      (timed_out : Bool) (fid : ℕ) (s : Otp) (chal : List ℕ)
      → is_deletion s.data_in ≡ false
      → is_ok (configure_slot sdk fid s).0 ≡ true
      → has_flag (tkt_flags s.data_in) chal_resp ≡ true
      → has_flag (cfg_flags s.data_in) chal_hmac ≡ true
      → has_flag (cfg_flags s.data_in) chal_btn_trig ≡ false
      → (is_ok (calculate_otp sdk timed_out 0x30 fid (given chal (configure_slot sdk fid s).1)).0
          ≡ true)
        × (block 20
              (calculate_otp sdk timed_out 0x30 fid
                (given chal (configure_slot sdk fid s).1)).1.rdata
            ≡ block 20 (hmac_response sdk s.data_in chal))
  configure_then_challenge timed_out fid s chal d h t y b =
      let u = given chal (configure_slot sdk fid s).1 in
      let e = configure_slot-stored fid s d h in
      let tkt = byte_at-stored s.data_in 46 (omega arith) in
      let cfg = byte_at-stored s.data_in 47 (omega arith) in
      let r =
        calculate_hmac sdk timed_out fid u (ap has_data e ∙ has_data-stored s.data_in)
          (ap (λ f. has_flag (tkt_flags f) chal_resp) e ∙ ap (λ x. has_flag x chal_resp) tkt ∙ t)
          (ap (λ f. has_flag (cfg_flags f) chal_hmac) e ∙ ap (λ x. has_flag x chal_hmac) cfg ∙ y)
          (ap (λ f. has_flag (cfg_flags f) chal_btn_trig) e
            ∙ ap (λ x. has_flag x chal_btn_trig) cfg
            ∙ b) in
      (
        r.accepted,
        r.response
            ∙ ap (λ f. block 20 (hmac_response sdk f chal)) e
            ∙ ap (block 20) (hmac_response-stored sdk s.data_in chal),
      )
