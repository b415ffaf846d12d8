-- ===== src/Otp/Sent.antt =====
-- The answer of otp.c to the host, report by report.
use pico_fido_microkey.Base.{
  ℕ, zero, suc, ◌+◌, ◌-◌, ◌*◌, ◌%◌, ◌^◌, ◌<◌, ◌≤◌, ◌≡◌, ◌∙◌, ap, refl, sym, arith, bit_or, inl, inr,
  leb, lt→ltb, Bool-cases, List, [], ◌∷◌, ◌++◌, drop, replicate, block, length-block, block-length,
  write_bytes, block-write_bytes, min,
}
use pico_fido_microkey.Otp.State.{OtpSdk}
use pico_fido_microkey.Otp.Crc.{calculate_crc}
use pico_fido_microkey.Otp.Residue.{crc_bytes}
use pico_fido_microkey.Otp.Counters.{IsUint16}
use pico_fido_microkey.Otp.Frames.{
  Frames, report_count, send_report, otp_hid_get_report_cb, otp_send_frame,
}

-- A frame as reports, numbered from `q` on.
abbrev pub frame_reports : ℕ → ℕ → List ℕ → List (List ℕ)
frame_reports q zero d = []
frame_reports q (suc c) d = (block 7 d ++ bit_or 0x40 q ∷ []) ∷ frame_reports (q + 1) c (drop 7 d)

-- So many reports that the host reads, and the state after them.
abbrev pub read_all : ℕ → List ℕ → Frames → List (List ℕ) × Frames
read_all zero buffer s = ([], s)
read_all (suc c) buffer s =
    let (r, t) = otp_hid_get_report_cb buffer s in let (rs, u) = read_all c buffer t in (r ∷ rs, u)

pub drop-nil : (k : ℕ) → drop {A = ℕ} k [] ≡ []
drop-nil zero = refl
drop-nil (suc k) = refl

pub drop-block : (k m : ℕ) (d : List ℕ) → drop k (block m d) ≡ block (m - k) (drop k d)
unfolding block
drop-block zero m d = ap (λ n. block n d) (omega arith)
drop-block (suc k) zero d =
    let e : 0 ≡ 0 - suc k = omega arith in ap (λ n. block n (drop (suc k) d)) e
drop-block (suc k) (suc m) [] =
    let e : m - k ≡ suc m - suc k = omega arith in
    drop-block k m [] ∙ ap (block (m - k)) (drop-nil k) ∙ ap (λ n. block n []) e
drop-block (suc k) (suc m) (x ∷ d) =
    let e : m - k ≡ suc m - suc k = omega arith in drop-block k m d ∙ ap (λ n. block n (drop k d)) e

pub block_of_block : (n m : ℕ) (d : List ℕ) → n ≤ m → block n (block m d) ≡ block n d
unfolding block
block_of_block zero m d h = refl
block_of_block (suc n) zero d h = absurd (omega arith)
block_of_block (suc n) (suc m) [] h = ap (◌∷◌ 0) (block_of_block n m [] (omega arith))
block_of_block (suc n) (suc m) (x ∷ d) h = ap (◌∷◌ x) (block_of_block n m d (omega arith))

drop-drop : (a b : ℕ) (d : List ℕ) → drop a (drop b d) ≡ drop (b + a) d
drop-drop a zero d = ap (λ n. drop n d) (omega arith)
drop-drop a (suc b) [] =
    let e : suc (b + a) ≡ suc b + a = omega arith in drop-nil a ∙ ap (λ n. drop {A = ℕ} n []) e
drop-drop a (suc b) (x ∷ d) =
    let e : suc (b + a) ≡ suc b + a = omega arith in drop-drop a b d ∙ ap (λ n. drop n (x ∷ d)) e

-- The bytes that a report takes from what is left.
seven_left : (m : ℕ) (d : List ℕ) → block 7 (block (min 7 m) d) ≡ block 7 (block m d)
seven_left m d = elim (Bool-cases (leb 7 m)) [
  | inl e ↦
      let seven : min 7 m ≡ 7 = ground arith in
      ap (λ n. block 7 (block n d)) seven
      ∙ block_of_block 7 7 d (omega arith)
      ∙ sym (block_of_block 7 m d (ground arith))
  | inr e ↦ let less : min 7 m ≡ m = ground arith in ap (λ n. block 7 (block n d)) less
]

read_one :
    (q m : ℕ) (buffer : List ℕ) (s : Frames)
    → 0 < m
    → q < 255
    → otp_hid_get_report_cb buffer (record s { curr_seq = q; send_size = m }) ≡ (
      block 7 (block m (drop (7 * q) s.tx)) ++ bit_or 0x40 q ∷ [],
      record s { curr_seq = q + 1; send_size = m - 7 },
    )
unfolding otp_hid_get_report_cb send_report
read_one q m buffer s l w =
    let next : (q + 1) % 256 ≡ q + 1 = omega arith in
    let left : m - min 7 m ≡ m - 7 = omega arith in
    rw (lt→ltb 0 m l, seven_left m (drop (7 * q) s.tx), next, left) refl

-- The reports that are read are those of what is left, and then nothing is left.
read_from :
    (c q m : ℕ) (buffer : List ℕ) (s : Frames)
    → m ≤ 7 * c
    → 7 * c < m + 7
    → q + c < 256
    → read_all c buffer (record s { curr_seq = q; send_size = m }) ≡ (
      frame_reports q c (block m (drop (7 * q) s.tx)),
      record s { curr_seq = q + c; send_size = 0 },
    )
read_from zero q m buffer s l h w =
    let none_left : m ≡ 0 = omega arith in
    let same : q ≡ q + 0 = omega arith in
    ap (λ n. ([], record s { curr_seq = q; send_size = n })) none_left
    ∙ ap (λ n. ([], record s { curr_seq = n; send_size = 0 })) same
read_from (suc c) q m buffer s l h w =
    let d = block m (drop (7 * q) s.tx) in
    let r = block 7 d ++ bit_or 0x40 q ∷ [] in
    let sum : q + 1 + c ≡ q + suc c = omega arith in
    let rest : block (m - 7) (drop (7 * (q + 1)) s.tx) ≡ drop 7 d =
      (let e : 7 * (q + 1) ≡ 7 * q + 7 = omega arith in
        ap (λ n. block (m - 7) (drop n s.tx)) e
        ∙ ap (block (m - 7)) (sym (drop-drop 7 (7 * q) s.tx))
        ∙ sym (drop-block 7 m (drop (7 * q) s.tx))) in
    let after = read_from c (q + 1) (m - 7) buffer s (omega arith) (omega arith) (omega arith) in
    ap (λ x. (x.0 ∷ (read_all c buffer x.1).0, (read_all c buffer x.1).1))
      (read_one q m buffer s (omega arith) (omega arith))
    ∙ ap (λ x. (r ∷ x.0, x.1)) after
    ∙ ap (λ b. (r ∷ frame_reports (q + 1) c b, record s { curr_seq = q + 1 + c; send_size = 0 }))
        rest
    ∙ ap (λ n. (r ∷ frame_reports (q + 1) c (drop 7 d), record s { curr_seq = n; send_size = 0 }))
        sum

report_count_bounds :
    (n : ℕ)
    → 0 < n
    → n ≤ 70
    → (n ≤ 7 * report_count n)
      × ((7 * report_count n < n + 7) × ((0 < report_count n) × (report_count n < 256)))
report_count_bounds n l h = ground arith

-- The report after the last one of an answer.
end_report :
    (c : ℕ) (buffer : List ℕ) (t : Frames)
    → 0 < c
    → c < 256
    → t.exp_seq ≡ c
    → otp_hid_get_report_cb buffer (record t { curr_seq = 0 + c; send_size = 0 })
      ≡ (replicate 7 0 ++ 0x40 ∷ [], record t { send_size = 0; exp_seq = 0; curr_seq = 0 })
unfolding otp_hid_get_report_cb
end_report c buffer t l h e = ground arith

module _ (sdk : OtpSdk) where
  -- The answer, and the complement of its check sum.
  abbrev pub answer_of : Frames → List ℕ
  answer_of s = let d = block s.otp.res_size s.tx in d ++ crc_bytes (calculate_crc d)

  -- How many reports the answer takes.
  abbrev pub answer_reports : Frames → ℕ
  answer_reports s = report_count (s.otp.res_size + 2)

  module _ (uint16 : IsUint16 sdk) where
    frame_sent : (s : Frames) → block (s.otp.res_size + 2) (otp_send_frame sdk s).tx ≡ answer_of s
    unfolding otp_send_frame
    frame_sent s =
        let n = s.otp.res_size in
        let crc = calculate_crc (block n s.tx) in
        let put = sdk.put_uint16_t_le (2 ^ 16 - 1 - crc) in
        let two = length-block 2 put in
        ap (λ k. block (n + k) (write_bytes s.tx n (block 2 put))) (sym two)
        ∙ block-write_bytes s.tx n (block 2 put)
        ∙ ap (λ b. block n s.tx ++ b)
            (ap (block 2) (uint16.put_le_lem (2 ^ 16 - 1 - crc) (omega arith))
              ∙ block-length (crc_bytes crc) 2 refl)

    -- An answer of at most 68 bytes reaches the host: the reports that it reads are those of the
    -- answer and its check sum, numbered from 0; the next one ends the frame, and nothing is left to
    -- send.
    pub answer_sent :
        (buffer : List ℕ) (s : Frames)
        → s.otp.res_size ≤ 68
        → ((read_all (answer_reports s) buffer (otp_send_frame sdk s)).0
            ≡ frame_reports 0 (answer_reports s) (answer_of s))
          × ((otp_hid_get_report_cb buffer
                (read_all (answer_reports s) buffer (otp_send_frame sdk s)).1)
              ≡ (
                replicate 7 0 ++ 0x40 ∷ [],
                record (otp_send_frame sdk s) { send_size = 0; exp_seq = 0; curr_seq = 0 },
              ))
    unfolding otp_send_frame
    answer_sent buffer s h =
        let c = answer_reports s in
        let n = s.otp.res_size in
        let b = report_count_bounds (n + 2) (omega arith) (omega arith) in
        let t = otp_send_frame sdk s in
        let e = read_from c 0 (n + 2) buffer t b.0 b.1.0 (omega arith) in
        let end = end_report c buffer t b.1.1.0 b.1.1.1 (omega arith) in
        (
          ap (λ x. x.0) e ∙ ap (frame_reports 0 c) (frame_sent s),
          ap (λ x. otp_hid_get_report_cb buffer x.1) e ∙ end,
        )
