-- ===== src/Otp/Hotp.antt =====
-- The counter-based codes that otp.c types.
use pico_fido_microkey.Base.{
  ℕ, ◌+◌, ◌%◌, ◌^◌, ◌<◌, ◌≡◌, ◌∙◌, ap, arith, List, ◌++◌, drop, block, length-block, drop-append,
}
use mathlib.Core.List.{append_assoc}
use pico_fido_microkey.Base.Exec.{ok}
use pico_fido_microkey.Sdk.{Contents, IsFlash}
use pico_fido_microkey.Oath.State.{sha1}
use pico_fido_microkey.Oath.Calculate.{calculate_oath}
use pico_fido_microkey.Oath.Counter.{IsUint64Be}
use pico_fido_microkey.Otp.State.{OtpSdk, Otp, aes_key, slot_memory}
use pico_fido_microkey.Otp.Button.{hotp_counter, hotp_key, next_counter, type_hotp}

module _ (sdk : OtpSdk) where
  counter_read :
      (memory : List ℕ) (n : ℕ)
      → sdk.oath.get_uint64_t_be (drop 52 memory) ≡ n + 1
      → hotp_counter sdk memory ≡ n + 1
  unfolding hotp_counter
  counter_read memory n h = ground arith

  -- The HMAC-SHA1 of a counter under the key of a slot.
  abbrev pub hotp_hmac : List ℕ → List ℕ → List ℕ
  hotp_hmac memory chal = (sdk.oath.hmac sha1 (aes_key memory) chal).1

  module _ (laws : IsFlash sdk.oath.flash) (be : IsUint64Be sdk.oath) where
    read_next :
        (memory rest : List ℕ)
        → sdk.oath.get_uint64_t_be (drop 52 (next_counter sdk memory ++ rest))
          ≡ (hotp_counter sdk memory + 1) % 2 ^ 64
    unfolding next_counter
    read_next memory rest =
        let v = (hotp_counter sdk memory + 1) % 2 ^ 64 in
        let p = block 8 (sdk.oath.put_uint64_t_be v) in
        ap (λ b. sdk.oath.get_uint64_t_be (drop 52 b)) (append_assoc (block 52 memory) p rest)
        ∙ ap sdk.oath.get_uint64_t_be
            (drop-append (block 52 memory) (p ++ rest) 52 (length-block 52 memory))
        ∙ be v rest (omega arith)

    next_counter_counts :
        (memory rest : List ℕ)
        → hotp_counter sdk memory + 1 < 2 ^ 64
        → hotp_counter sdk (next_counter sdk memory ++ rest) ≡ hotp_counter sdk memory + 1
    next_counter_counts memory rest h =
        let e : (hotp_counter sdk memory + 1) % 2 ^ 64 ≡ hotp_counter sdk memory + 1 =
          omega arith in
        counter_read (next_counter sdk memory ++ rest) (hotp_counter sdk memory)
          (read_next memory rest ∙ e)

    type_hotp-files :
        (fid : ℕ) (s : Otp) (d : List ℕ)
        → calculate_oath sdk.oath 1
            (hotp_key sdk (slot_memory sdk s.files fid))
            (block 8 (sdk.oath.put_uint64_t_be (hotp_counter sdk (slot_memory sdk s.files fid))))
          ≡ ok d
        → (type_hotp sdk fid s).files
          ≡ sdk.oath.flash.file_put_data s.files fid
              (next_counter sdk (slot_memory sdk s.files fid))
    unfolding type_hotp
    type_hotp-files fid s d h = ground arith

    counter_file :
        (c : Contents) (fid : ℕ) (memory : List ℕ)
        → hotp_counter sdk memory + 1 < 2 ^ 64
        → hotp_counter sdk
            (slot_memory sdk (sdk.oath.flash.file_put_data c fid (next_counter sdk memory)) fid)
          ≡ hotp_counter sdk memory + 1
    counter_file c fid memory h =
        let d = next_counter sdk memory in
        let after = sdk.oath.flash.file_put_data c fid d in
        let e : after fid ≡ d = ground (arith, laws.put_lem c fid d fid) in
        ap (λ b. hotp_counter sdk (b ++ sdk.beyond after fid)) e
        ∙ next_counter_counts memory (sdk.beyond after fid) h

    -- The counter of a slot is one more after a code was typed, so that no two codes are for the same
    -- counter, up to the largest number of 64 bits.
    pub type_hotp-counts :
        (fid : ℕ) (s : Otp) (d : List ℕ)
        → calculate_oath sdk.oath 1
            (hotp_key sdk (slot_memory sdk s.files fid))
            (block 8 (sdk.oath.put_uint64_t_be (hotp_counter sdk (slot_memory sdk s.files fid))))
          ≡ ok d
        → hotp_counter sdk (slot_memory sdk s.files fid) + 1 < 2 ^ 64
        → hotp_counter sdk (slot_memory sdk (type_hotp sdk fid s).files fid)
          ≡ hotp_counter sdk (slot_memory sdk s.files fid) + 1
    type_hotp-counts fid s d h l =
        rw (type_hotp-files fid s d h) (counter_file s.files fid (slot_memory sdk s.files fid) l)
