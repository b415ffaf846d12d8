-- ===== src/Tests/OtpFrames.antt =====
-- Runs of the keyboard interface: frames in, answers out.
use pico_fido_microkey.Base.{ℕ, ◌≡◌, refl, arith, true, false, List, [], ◌∷◌, ◌++◌, replicate}
use pico_fido_microkey.Otp.Frames.{Frames, end_frame, otp_send_frame, otp_hid_get_report_cb}
use pico_fido_microkey.Management.{cap_supported}
use pico_fido_microkey.Otp.Received.{receive_all, joined, frame_received}
use pico_fido_microkey.Otp.Sent.{read_all, frame_reports, answer_of, answer_sent}
use pico_fido_microkey.Tests.OtpToy.{toy_otp, toy-IsUint16, slot_files, otp, frames}

-- The reports of a frame: its first bytes count up.
abbrev parts : List (List ℕ)
parts =
    replicate 7 1
    ∷ replicate 7 2
    ∷ replicate 7 3
    ∷ replicate 7 4
    ∷ replicate 7 5
    ∷ replicate 7 6
    ∷ replicate 7 7
    ∷ replicate 7 8
    ∷ replicate 7 9
    ∷ []

abbrev idle : Frames
idle = frames (otp (slot_files [] []) []) (replicate 70 0xee)

frame_received_example :
    receive_all toy_otp false 0 (replicate 7 0 ∷ parts) idle
    ≡ end_frame toy_otp false (record idle { rx = joined (replicate 7 0 ∷ parts) })
frame_received_example =
    frame_received toy_otp false (replicate 7 0) parts idle refl
      (refl, (refl, (refl, (refl, (refl, (refl, (refl, (refl, (refl, (refl, tt))))))))))

-- An answer of 20 bytes that was given before.
abbrev answered : Frames
answered =
    frames (record (otp (slot_files [] []) []) { res_size = 20 })
      (replicate 64 0 ++ 0x30 ∷ replicate 5 0)

answer_sent_example :
    ((read_all 4 [] (otp_send_frame toy_otp answered)).0
      ≡ frame_reports 0 4 (answer_of toy_otp answered))
    × ((otp_hid_get_report_cb [] (read_all 4 [] (otp_send_frame toy_otp answered)).1) ≡ (
      replicate 7 0 ++ 0x40 ∷ [],
      record (otp_send_frame toy_otp answered) { send_size = 0; exp_seq = 0; curr_seq = 0 },
    ))
answer_sent_example = answer_sent toy_otp toy-IsUint16 [] answered (omega arith)

otp_supported : cap_supported toy_otp.oath.man answered.otp.files 1 ≡ true
unfolding cap_supported
otp_supported = refl
