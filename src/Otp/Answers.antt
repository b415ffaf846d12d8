-- ===== src/Otp/Answers.antt =====
-- The challenges of otp.c and their responses.
use pico_fido_microkey.Base.{
  get_or-drop, ℕ, zero, suc, ◌+◌, ◌-◌, ◌<◌, ◌≤◌, ◌≡◌, ◌≢◌, ◌⊎◌, inl, inr, ◌∙◌, ap, refl, subst, sym,
  arith, Bool, true, false, not, ◌||◌, List, [], ◌∷◌, ◌++◌, length, replicate, block, length-block,
  block-append, drop-append, block-write_bytes, write_bytes, byte_at, passes_upto, passes_upto-at,
}
use pico_fido_microkey.Base.Exec.{is_ok}
use pico_fido_microkey.Sdk.{has_data}
use pico_fido_microkey.Files.{ef_otp_slot1}
use pico_fido_microkey.Management.{cap_supported, cap_otp}
use pico_fido_microkey.Otp.State.{
  OtpSdk, Otp, tkt_flags, cfg_flags, chal_resp, chal_btn_trig, chal_yubico, chal_hmac, has_flag,
}
use pico_fido_microkey.Otp.Challenge.{
  unpadded_len, respond_with, touch_slot, hmac_response, respond_hmac, answer_challenge,
  calculate_otp,
}
use pico_fido_microkey.Otp.{otp_process_apdu, cmd_otp}
use pico_fido_microkey.Otp.Frames.{Frames, run_frame, otp_send_frame}

-- A byte after the first list.
byte_at-append : (m t : List ℕ) (k : ℕ) → byte_at (m ++ t) (length m + k) ≡ byte_at t k
byte_at-append m t k =
    sym (get_or-drop (length m) k (m ++ t) 0)
    ∙ ap (λ b. byte_at b k) (drop-append m t (length m) refl)

byte_at-replicate : (n k x : ℕ) (t : List ℕ) → k < n → byte_at (replicate n x ++ t) k ≡ x
byte_at-replicate zero k x t h = absurd (omega arith)
byte_at-replicate (suc n) zero x t h = refl
byte_at-replicate (suc n) (suc k) x t h = byte_at-replicate n k x t (omega arith)

-- The message and its padding.
abbrev pub padded_message : List ℕ → ℕ → List ℕ → List ℕ
padded_message m x rest = m ++ (replicate (64 - length m) x ++ rest)

-- The last byte of a message, which is no padding.
abbrev pub EndsBefore : List ℕ → ℕ → Type 0
EndsBefore m x = (m ≡ []) ⊎ ((k : ℕ) × ((length m ≡ suc k) × (byte_at m k ≢ x)))

padding_at :
    (m rest : List ℕ) (x j : ℕ) → length m ≤ j → j < 64 → byte_at (padded_message m x rest) j ≡ x
padding_at m rest x j l h =
    let e : j ≡ length m + (j - length m) = omega arith in
    ap (byte_at (padded_message m x rest)) e
    ∙ byte_at-append m (replicate (64 - length m) x ++ rest) (j - length m)
    ∙ byte_at-replicate (64 - length m) (j - length m) x rest (omega arith)

-- The loop passes over the padding.
unpadded_from :
    (d : List ℕ) (n k : ℕ)
    → ((j : ℕ) → n ≤ j → j < n + k → byte_at d j ≡ byte_at d 63)
    → unpadded_len d (n + k) ≡ unpadded_len d n
unfolding unpadded_len
unpadded_from d n zero h = ap (unpadded_len d) (omega arith)
unpadded_from d n (suc k) h =
    let e : n + suc k ≡ suc (n + k) = omega arith in
    let last = h (n + k) (omega arith) (omega arith) in
    let rest = unpadded_from d n k (λ j l u. h j l (omega arith)) in
    ap (unpadded_len d) e ∙ ground (arith, last, rest)

message_at : (m t : List ℕ) (k : ℕ) → k < length m → byte_at (m ++ t) k ≡ byte_at m k
message_at [] t k h = absurd (omega arith)
message_at (x ∷ m) t zero h = refl
message_at (x ∷ m) t (suc k) h = message_at m t k (omega arith)

unpadded_message :
    (m rest : List ℕ) (x : ℕ)
    → length m < 64
    → EndsBefore m x
    → unpadded_len (padded_message m x rest) (length m) ≡ length m
unfolding unpadded_len
unpadded_message m rest x l (inl e) = rw e refl
unpadded_message m rest x l (inr (k, (e, w))) =
    let d = padded_message m x rest in
    let top = padding_at m rest x 63 (omega arith) (omega arith) in
    let own = message_at m (replicate (64 - length m) x ++ rest) k (omega arith) in
    subst (λ n. unpadded_len d n ≡ n) (sym e) (ground (arith, top, own, w))

-- The padding of a short message is taken off again: a message of less than 64 bytes that is filled up
-- with a byte other than its last one is what is left of it.
pub unpadded_len-message :
    (m rest : List ℕ) (x : ℕ)
    → length m < 64
    → EndsBefore m x
    → block (unpadded_len (padded_message m x rest) 64) (padded_message m x rest) ≡ m
unpadded_len-message m rest x l w =
    let d = padded_message m x rest in
    let e : length m + (64 - length m) ≡ 64 = omega arith in
    let top = padding_at m rest x 63 (omega arith) (omega arith) in
    let n =
      ap (unpadded_len d) (sym e)
      ∙ unpadded_from d (length m) (64 - length m)
          (λ j a b. padding_at m rest x j a (omega arith) ∙ sym top)
      ∙ unpadded_message m rest x l w in
    ap (λ k. block k d) n ∙ block-append m (replicate (64 - length m) x ++ rest) (length m) refl

abbrev mode_test : ℕ → Bool
mode_test cfg = not (has_flag cfg 0x20) || has_flag cfg 0x22

mode_everywhere : passes_upto mode_test 256 ≡ true
unfolding passes_upto
mode_everywhere = refl

mode_flags : (cfg : ℕ) → cfg < 256 → has_flag cfg chal_yubico ≡ true → has_flag cfg chal_hmac ≡ true
mode_flags cfg l h = ground (arith, passes_upto-at mode_test 256 cfg l mode_everywhere)

-- The first bytes of a response.
respond_with-first : (d : List ℕ) (n : ℕ) (s : Otp) → block n (respond_with d n s).rdata ≡ block n d
unfolding respond_with block
respond_with-first d n s =
    let whole : n ≡ 0 + length (block n d) = omega (arith, length-block n d) in
    ap (λ k. block k (write_bytes s.rdata 0 (block n d))) whole
    ∙ block-write_bytes s.rdata 0 (block n d)

respond_with_size : (d : List ℕ) (n : ℕ) (s : Otp) → (respond_with d n s).res_size ≡ n
unfolding respond_with
respond_with_size d n s = refl

module _ (sdk : OtpSdk) where
  -- The state after an HMAC was given for the challenge.
  pub record Answered (file d : List ℕ) (r : Bool) (t : Otp) : Type 0 where
    pub accepted : r ≡ true
    pub size : t.res_size ≡ 20
    pub response : block 20 t.rdata ≡ block 20 (hmac_response sdk file d)
    pub ready : t.status_byte ≡ 0

  pub calculate_hmac :
      (timed_out : Bool) (fid : ℕ) (s : Otp)
      → has_data (s.files fid) ≡ true
      → has_flag (tkt_flags (s.files fid)) chal_resp ≡ true
      → has_flag (cfg_flags (s.files fid)) chal_hmac ≡ true
      → has_flag (cfg_flags (s.files fid)) chal_btn_trig ≡ false
      → Answered
          (s.files fid)
          s.data_in
          (is_ok (calculate_otp sdk timed_out 0x30 fid s).0)
          (calculate_otp sdk timed_out 0x30 fid s).1
  unfolding calculate_otp answer_challenge touch_slot respond_hmac
  calculate_hmac timed_out fid s d t y b =
      let r = hmac_response sdk (s.files fid) s.data_in in
      let first = respond_with-first r 20 s in
      let size = respond_with_size r 20 s in
      record {
        accepted = ground arith;
        size = ground (arith, size);
        response = ground (arith, first);
        ready = ground arith;
      }

  -- The test of the mode does not tell the two modes apart: a slot for the challenges of Yubico OTP
  -- that needs no button answers an HMAC challenge with an HMAC under its key.
  pub yubico_answers_hmac :
      (timed_out : Bool) (fid : ℕ) (s : Otp)
      → has_data (s.files fid) ≡ true
      → cfg_flags (s.files fid) < 256
      → has_flag (tkt_flags (s.files fid)) chal_resp ≡ true
      → has_flag (cfg_flags (s.files fid)) chal_yubico ≡ true
      → has_flag (cfg_flags (s.files fid)) chal_btn_trig ≡ false
      → Answered
          (s.files fid)
          s.data_in
          (is_ok (calculate_otp sdk timed_out 0x30 fid s).0)
          (calculate_otp sdk timed_out 0x30 fid s).1
  yubico_answers_hmac timed_out fid s d l t y b =
      calculate_hmac timed_out fid s d t (mode_flags (cfg_flags (s.files fid)) l y) b

  -- A challenge to a slot that is not configured sends the last answer once more: what is left of it
  -- is not cleared, so that the frame of its bytes goes out again.
  pub run_frame_stale :
      (timed_out : Bool) (s : Frames)
      → byte_at s.rx 64 ≡ 0x30
      → cap_supported sdk.oath.man s.otp.files cap_otp ≡ true
      → has_data (s.otp.files ef_otp_slot1) ≡ false
      → 0 < s.otp.res_size
      → run_frame sdk timed_out s
        ≡ otp_send_frame sdk
            (record s { otp = record s.otp { data_in = s.rx; rdata = s.tx; is_otp = false } })
  unfolding run_frame otp_process_apdu cmd_otp calculate_otp
  run_frame_stale timed_out s r c d l = rw r (ground arith)
