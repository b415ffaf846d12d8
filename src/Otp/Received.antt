-- ===== src/Otp/Received.antt =====
-- The reception of a frame by otp.c, report by report.
use pico_fido_microkey.Base.{
  get_or-drop, ℕ, zero, suc, ◌+◌, ◌*◌, ◌<◌, ◌≡◌, ◌∙◌, ap, refl, subst, sym, arith, bit_and, Bool,
  true, false, not, ◌&&◌, List, [], ◌∷◌, ◌++◌, length, length-append, length-drop, drop, replicate,
  block, block-append, drop-append, write_bytes, byte_at, passes_upto, passes_upto-at, ◌==◌,
  if◌then◌else◌,
}
use mathlib.Core.List.{append_assoc}
use pico_fido_microkey.Otp.State.{OtpSdk}
use pico_fido_microkey.Otp.Frames.{
  Frames, place_report, receive_report, end_frame, otp_hid_set_report_cb,
}

drop_past :
    (done more : List ℕ) (n k : ℕ) → length done ≡ n → drop (n + k) (done ++ more) ≡ drop k more
drop_past [] more zero k e = ap (λ m. drop m more) (omega arith)
drop_past [] more (suc n) k e = absurd (omega arith)
drop_past (x ∷ done) more zero k e = absurd (omega arith)
drop_past (x ∷ done) more (suc n) k e =
    let f : suc n + k ≡ suc (n + k) = omega arith in
    ap (λ m. drop m (x ∷ done ++ more)) f ∙ drop_past done more n k (omega arith)

write_past :
    (done more p : List ℕ) (n : ℕ)
    → length done ≡ n
    → write_bytes (done ++ more) n p ≡ (done ++ p) ++ drop (length p) more
unfolding write_bytes
write_past done more p n e =
    ap (λ b. b ++ (p ++ drop (n + length p) (done ++ more))) (block-append done more n e)
    ∙ ap (λ b. done ++ (p ++ b)) (drop_past done more n (length p) e)
    ∙ sym (append_assoc done p (drop (length p) more))

no_bytes : (b : List ℕ) → length b ≡ 0 → b ≡ []
no_bytes [] h = refl
no_bytes (x ∷ b) h = absurd (omega arith)

-- The bytes of a frame, and the last byte of its report with the number `i`.
abbrev pub report : ℕ → List ℕ → List ℕ
report i p = p ++ (0x80 + i) ∷ []

byte_at-report : (i : ℕ) (p : List ℕ) → length p ≡ 7 → byte_at (report i p) 7 ≡ 0x80 + i
byte_at-report i p e =
    sym (get_or-drop 7 0 (report i p) 0)
    ∙ ap (λ b. byte_at b 0) (drop-append p ((0x80 + i) ∷ []) 7 e)

abbrev number_test : ℕ → Bool
number_test i =
    not (0x80 + i == 0xff) && (not (bit_and (0x80 + i) 0x80 == 0) && (bit_and (0x80 + i) 0x1f == i))

number_everywhere : passes_upto number_test 10 ≡ true
unfolding passes_upto
number_everywhere = refl

report_marks :
    (i : ℕ) → i < 10 → ((bit_and (0x80 + i) 0x80 == 0) ≡ false) × (bit_and (0x80 + i) 0x1f ≡ i)
report_marks i l = ground (arith, passes_upto-at number_test 10 i l number_everywhere)

place_report-at :
    (i : ℕ) (p done more : List ℕ) (s : Frames)
    → 0 < i
    → length p ≡ 7
    → length done ≡ i * 7
    → place_report i (report i p) (record s { rx = done ++ more })
      ≡ record s { rx = (done ++ p) ++ drop 7 more }
unfolding place_report
place_report-at i p done more s l e f =
    let c : (if i == 0 then replicate 70 0 else done ++ more) ≡ done ++ more = ground arith in
    ap (λ r. record s { rx = r })
      (ap (λ z. write_bytes z (i * 7) (block 7 (report i p))) c
        ∙ ap (write_bytes (done ++ more) (i * 7)) (block-append p ((0x80 + i) ∷ []) 7 e)
        ∙ write_past done more p (i * 7) f
        ∙ ap (λ k. (done ++ p) ++ drop k more) e)

first_report :
    (p : List ℕ) (s : Frames)
    → length p ≡ 7
    → place_report 0 (report 0 p) s ≡ record s { rx = p ++ replicate 63 0 }
unfolding place_report write_bytes block
first_report p s e =
    ap (λ r. record s { rx = r })
      (ap (λ b. b ++ drop (0 + length b) (replicate 70 0)) (block-append p (0x80 ∷ []) 7 e)
        ∙ ap (λ k. p ++ drop (0 + k) (replicate 70 0)) e)

-- The parts of a frame, of 7 bytes each.
abbrev pub joined : List (List ℕ) → List ℕ
joined [] = []
joined (p ∷ ps) = p ++ joined ps

abbrev pub AllSeven : List (List ℕ) → Type 0
AllSeven [] = Unit
AllSeven (p ∷ ps) = (length p ≡ 7) × AllSeven ps

module _ (sdk : OtpSdk) where
  -- A report of a frame puts its bytes where its number says; the last one ends the frame.
  set_report_frame :
      (timed_out : Bool) (i : ℕ) (p : List ℕ) (s : Frames)
      → i < 10
      → length p ≡ 7
      → (otp_hid_set_report_cb sdk timed_out 3 (report i p) s).1 ≡ (
          if i == 9
          then end_frame sdk timed_out (place_report i (report i p) s)
          else place_report i (report i p) s)
  unfolding otp_hid_set_report_cb receive_report
  set_report_frame timed_out i p s l e =
      let marks = report_marks i l in rw (byte_at-report i p e, marks.1) (ground arith)

  middle_report :
      (timed_out : Bool) (i : ℕ) (p done more : List ℕ) (s : Frames)
      → 0 < i
      → i < 9
      → length p ≡ 7
      → length done ≡ i * 7
      → (otp_hid_set_report_cb sdk timed_out 3 (report i p) (record s { rx = done ++ more })).1
        ≡ record s { rx = (done ++ p) ++ drop 7 more }
  middle_report timed_out i p done more s l n e d =
      let t = record s { rx = done ++ more } in
      let placed = place_report i (report i p) t in
      let c : (if i == 9 then end_frame sdk timed_out placed else placed) ≡ placed = ground arith in
      set_report_frame timed_out i p t (omega arith) e ∙ c ∙ place_report-at i p done more s l e d

  last_report :
      (timed_out : Bool) (p done more : List ℕ) (s : Frames)
      → length p ≡ 7
      → length done ≡ 63
      → length more ≡ 7
      → (otp_hid_set_report_cb sdk timed_out 3 (report 9 p) (record s { rx = done ++ more })).1
        ≡ end_frame sdk timed_out (record s { rx = done ++ (p ++ []) })
  last_report timed_out p done more s e d m =
      let t = record s { rx = done ++ more } in
      let rest = no_bytes (drop 7 more) (omega (arith, length-drop 7 more)) in
      let same = ap (λ b. (done ++ p) ++ b) rest ∙ append_assoc done p [] in
      set_report_frame timed_out 9 p t (omega arith) e
      ∙ ap (end_frame sdk timed_out)
          (place_report-at 9 p done more s (omega arith) e d ∙ ap (λ r. record s { rx = r }) same)

  -- Reports that are numbered from `i` on.
  abbrev pub receive_all : Bool → ℕ → List (List ℕ) → Frames → Frames
  receive_all timed_out i [] s = s
  receive_all timed_out i (p ∷ ps) s =
      receive_all timed_out (i + 1) ps (otp_hid_set_report_cb sdk timed_out 3 (report i p) s).1

  received_from :
      (timed_out : Bool) (i : ℕ) (p : List ℕ) (ps : List (List ℕ)) (done more : List ℕ) (s : Frames)
      → 0 < i
      → i + length (p ∷ ps) ≡ 10
      → AllSeven (p ∷ ps)
      → length done ≡ i * 7
      → length more ≡ 7 * length (p ∷ ps)
      → receive_all timed_out i (p ∷ ps) (record s { rx = done ++ more })
        ≡ end_frame sdk timed_out (record s { rx = done ++ joined (p ∷ ps) })
  received_from timed_out i p [] done more s l n a d m =
      let nine : 9 ≡ i = omega arith in
      subst
        (λ k.
          (otp_hid_set_report_cb sdk timed_out 3 (report k p) (record s { rx = done ++ more })).1
          ≡ end_frame sdk timed_out (record s { rx = done ++ (p ++ []) }))
        nine (last_report timed_out p done more s a.0 (omega arith) (omega arith))
  received_from timed_out i p (q ∷ ps) done more s l n a d m =
      let now = done ++ p in
      ap (receive_all timed_out (i + 1) (q ∷ ps))
        (middle_report timed_out i p done more s l (omega arith) a.0 d)
      ∙ received_from timed_out (i + 1) q ps now (drop 7 more) s (omega arith) (omega arith) a.1
          (omega (arith, length-append done p, a.0)) (omega (arith, length-drop 7 more))
      ∙ ap (λ r. end_frame sdk timed_out (record s { rx = r }))
          (append_assoc done p (joined (q ∷ ps)))

  -- A frame is put together from its ten reports, whatever the memory of the frames held before: when
  -- the last one has come, what is checked and run is the frame of 70 bytes that the host sent.
  pub frame_received :
      (timed_out : Bool) (p : List ℕ) (ps : List (List ℕ)) (s : Frames)
      → length ps ≡ 9
      → AllSeven (p ∷ ps)
      → receive_all timed_out 0 (p ∷ ps) s
        ≡ end_frame sdk timed_out (record s { rx = joined (p ∷ ps) })
  frame_received timed_out p [] s n a = absurd (omega arith)
  frame_received timed_out p (q ∷ ps) s n a =
      ap (receive_all timed_out 1 (q ∷ ps))
        (set_report_frame timed_out 0 p s (omega arith) a.0 ∙ first_report p s a.0)
      ∙ received_from timed_out 1 q ps p (replicate 63 0) s (omega arith) (omega arith) a.1
          (omega (arith, a.0)) (omega arith)
