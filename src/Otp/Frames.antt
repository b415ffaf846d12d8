-- ===== src/Otp/Frames.antt =====
-- otp.c, lines 573 to 673: the frames of the keyboard interface. A frame of 70 bytes comes in ten
-- reports of 7 bytes, and an answer goes out in as many as it takes.
use pico_fido_microkey.Base.{
  ℕ, ◌+◌, ◌-◌, ◌*◌, ◌/◌, ◌%◌, ◌^◌, bit_and, bit_or, Bool, true, false, not, ◌&&◌, List, [], ◌∷◌,
  ◌++◌, drop, block, replicate, write_bytes, byte_at, min, ltb, ◌==◌, if◌then◌else◌,
}
use pico_fido_microkey.Base.Exec.{is_ok}
use pico_fido_microkey.Otp.{Header, otp_process_apdu}
use pico_fido_microkey.Otp.State.{OtpSdk, Otp, otp_status}
use pico_fido_microkey.Otp.Crc.{calculate_crc}

-- `otp_frame_rx`, `otp_frame_tx` and what is left to send: `*get_send_buffer_size(ITF_KEYBOARD)`.
pub record Frames : Type 0 where
  pub otp : Otp
  pub rx : List ℕ
  pub tx : List ℕ
  pub send_size : ℕ
  pub exp_seq : ℕ
  pub curr_seq : ℕ

-- How many reports of 7 bytes a frame takes.
abbrev pub report_count : ℕ → ℕ
report_count n = if n % 7 == 0 then n / 7 else n / 7 + 1

-- The answer to a state poll: the status after the first byte, which stays.
unfoldable pub poll_status : List ℕ → Frames → List ℕ × Frames
poll_status buffer s =
    let t = otp_status true (record s.otp { rdata = buffer }) in (t.rdata, record s { otp = t })

-- The next report of an answer.
unfoldable pub send_report : Frames → List ℕ × Frames
send_report s =
    let size = min 7 s.send_size in
    (
      block 7 (block size (drop (7 * s.curr_seq) s.tx)) ++ bit_or 0x40 s.curr_seq ∷ [],
      record s { send_size = s.send_size - size; curr_seq = (s.curr_seq + 1) % 256 },
    )

-- A report that the host reads into `buffer`, of 8 bytes.
unfoldable pub otp_hid_get_report_cb : List ℕ → Frames → List ℕ × Frames
otp_hid_get_report_cb buffer s =
    if ltb 0 s.send_size
    then send_report s
    else if s.curr_seq == s.exp_seq && ltb 0 s.exp_seq
    then (replicate 7 0 ++ 0x40 ∷ [], record s { exp_seq = 0; curr_seq = 0 })
    else poll_status buffer s

unfoldable pub reset_frames : Frames → Frames
reset_frames s = record s { send_size = 0; exp_seq = 0; curr_seq = 0; tx = replicate 70 0 }

-- Seven bytes of a frame; the first ones clear it.
unfoldable pub place_report : ℕ → List ℕ → Frames → Frames
place_report rseq buffer s = record s {
  rx = write_bytes (if rseq == 0 then replicate 70 0 else s.rx) (rseq * 7) (block 7 buffer);
}

module _ (sdk : OtpSdk) where
  -- The answer of `res_size` bytes is followed by the complement of its CRC.
  unfoldable pub otp_send_frame : Frames → Frames
  otp_send_frame s =
      let n = s.otp.res_size in
      let crc = sdk.put_uint16_t_le (2 ^ 16 - 1 - calculate_crc (block n s.tx)) in
      record s {
        tx = write_bytes s.tx n (block 2 crc);
        send_size = n + 2;
        exp_seq = report_count (n + 2) % 256;
        curr_seq = 0;
      }

  abbrev pub frame_header : List ℕ → Header
  frame_header rx = record { cla = 0; ins = 0x01; p1 = byte_at rx 64; p2 = 0 }

  -- The command of a frame works in the memory of the frames.
  unfoldable pub run_frame : Bool → Frames → Frames
  run_frame timed_out s =
      let (r, t) =
        otp_process_apdu sdk timed_out (frame_header s.rx)
          (record s.otp { data_in = s.rx; rdata = s.tx; is_otp = true }) in
      let u = record s { otp = record t { is_otp = false }; rx = t.data_in; tx = t.rdata } in
      if is_ok r && ltb 0 t.res_size then otp_send_frame u else u

  -- The frame is complete: it counts if its CRC is right.
  unfoldable pub end_frame : Bool → Frames → Frames
  end_frame timed_out s =
      if calculate_crc (block 64 s.rx) == sdk.get_uint16_t_le (drop 65 s.rx)
      then run_frame timed_out s
      else s

  unfoldable pub receive_report : Bool → List ℕ → Frames → Frames
  receive_report timed_out buffer s =
      let rseq = bit_and (byte_at buffer 7) 0x1f in
      let t = place_report rseq buffer s in
      if ltb rseq 10 then (if rseq == 9 then end_frame timed_out t else t) else s

  -- A report that the host writes, and whether it was one of ours.
  unfoldable pub otp_hid_set_report_cb : Bool → ℕ → List ℕ → Frames → Bool × Frames
  otp_hid_set_report_cb timed_out report_type buffer s =
      if report_type == 3
      then (
        true,
        (if byte_at buffer 7 == 0xff
            then reset_frames s
            else if not (bit_and (byte_at buffer 7) 0x80 == 0)
            then receive_report timed_out buffer s
            else s),
      )
      else (false, s)
