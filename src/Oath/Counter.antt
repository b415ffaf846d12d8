-- ===== src/Oath/Counter.antt =====
-- The one-time codes of oath.c: the truncation of RFC 4226 and the moving factor.
use pico_fido_microkey.Base.{
  ℕ, zero, suc, ◌+◌, ◌-◌, ◌*◌, ◌%◌, ◌^◌, ◌≡◌, Bool, inl, inr, subst, ◌≤◌, ◌<◌, refl, ap, ◌∙◌, arith,
  bit_and, passes_upto, passes_upto-at, true, false, some, List, [], ◌∷◌, ◌++◌, ◌&&◌, length, drop,
  block, write_bytes, length-write_bytes, drop-write_bytes, byte_at, length-block, ◌==◌,
}
use mathlib.Core.List.{append_assoc}
use pico_fido_microkey.Base.Exec.{Result, ok, err, is_ok, Result-cases}
use pico_fido_microkey.Sdk.{IsFlash}
use pico_fido_microkey.Apdu.{Apdu, Sw, wrong_data}
use pico_fido_microkey.Oath.State.{OathSdk, Oath, Tlv, tlv_data, tag_imf, is_hotp, answer}
use pico_fido_microkey.Oath.Calculate.{
  truncated, calculate_oath, append_code, next_hotp, respond, calculate_with, verify_code,
}

-- Four bytes as a number, the most significant first.
abbrev pub uint32_be : List ℕ → ℕ
uint32_be b = byte_at b 0 * 2 ^ 24 + byte_at b 1 * 2 ^ 16 + byte_at b 2 * 2 ^ 8 + byte_at b 3

abbrev pub AllBytes : List ℕ → Type 0
AllBytes [] = Unit
AllBytes (x ∷ xs) = (x < 256) × AllBytes xs

pub byte_at-lt : (b : List ℕ) (i : ℕ) → AllBytes b → byte_at b i < 256
byte_at-lt [] i h = omega arith
byte_at-lt (x ∷ b) zero h = h.0
byte_at-lt (x ∷ b) (suc i) h = byte_at-lt b i h.1

abbrev low_bits_test : ℕ → Bool
low_bits_test x = bit_and x 0x7f == x % 128 && (bit_and x 0x0f == x % 16)

low_bits_everywhere : passes_upto low_bits_test 256 ≡ true
unfolding passes_upto
low_bits_everywhere = refl

low_bits : (x : ℕ) → x < 256 → (bit_and x 0x7f ≡ x % 128) × (bit_and x 0x0f ≡ x % 16)
low_bits x h = ground (arith, passes_upto-at low_bits_test 256 x h low_bits_everywhere)

-- The offset that the last byte of the HMAC gives.
abbrev pub offset_of : List ℕ → ℕ → ℕ
offset_of hmac size = byte_at hmac (size - 1) % 16

-- The truncation is that of RFC 4226: the four bytes at the offset that the low half of the last byte
-- names, modulo 2^31. For a hash of at least 20 bytes, they lie in the HMAC.
pub truncated-rfc4226 :
    (hmac : List ℕ) (size : ℕ)
    → AllBytes hmac
    → 20 ≤ size
    → (uint32_be (truncated hmac size)
        ≡ (byte_at hmac (offset_of hmac size) * 2 ^ 24
            + byte_at hmac (offset_of hmac size + 1) * 2 ^ 16
            + byte_at hmac (offset_of hmac size + 2) * 2 ^ 8
            + byte_at hmac (offset_of hmac size + 3))
          % 2 ^ 31)
      × (offset_of hmac size + 3 < size)
unfolding truncated
truncated-rfc4226 hmac size h s =
    let k = offset_of hmac size in
    rw (low_bits (byte_at hmac (size - 1)) (byte_at-lt hmac (size - 1) h)).1 (
      omega (
        arith,
        low_bits (byte_at hmac k) (byte_at-lt hmac k h),
        byte_at-lt hmac k h,
        byte_at-lt hmac (k + 1) h,
        byte_at-lt hmac (k + 2) h,
        byte_at-lt hmac (k + 3) h,
      ),
      omega arith,
    )

module _ (sdk : OathSdk) where
  -- `get_uint64_t_be` reads what `put_uint64_t_be` wrote.
  abbrev pub IsUint64Be : Type 0
  IsUint64Be =
      (v : ℕ) (rest : List ℕ)
      → v < 2 ^ 64
      → sdk.get_uint64_t_be (block 8 (sdk.put_uint64_t_be v) ++ rest) ≡ v

  abbrev pub counter : Tlv → List ℕ → ℕ
  counter imf file = sdk.get_uint64_t_be (drop imf.offset file)

  -- The device after a counter-based code was given for the file.
  pub record Moved (a : Apdu) (fid : ℕ) (key imf : Tlv) (s t : Oath) : Type 0 where
    pub counts : counter imf (t.files fid) ≡ (counter imf (s.files fid) + 1) % 2 ^ 64
    pub same_length : length (t.files fid) ≡ length (s.files fid)
    pub same_others : (g : ℕ) → (fid == g) ≡ false → t.files g ≡ s.files g
    pub code : List ℕ
    pub code_of_old :
        calculate_oath sdk a.p2 (tlv_data (s.files fid) key) (tlv_data (s.files fid) imf) ≡ ok code
    pub answered : t.res ≡ s.res ++ (0x75 + a.p2) % 256 ∷ code

  moved_file :
      (be : IsUint64Be) (imf : Tlv) (v : ℕ) (file : List ℕ)
      → v < 2 ^ 64
      → counter imf (write_bytes file imf.offset (block 8 (sdk.put_uint64_t_be v))) ≡ v
  moved_file be imf v file h =
      ap sdk.get_uint64_t_be (drop-write_bytes file imf.offset (block 8 (sdk.put_uint64_t_be v)))
      ∙ be v _ h

  module _ (laws : IsFlash sdk.flash) (be : IsUint64Be) where
    next_hotp_counts :
        (fid : ℕ) (imf : Tlv) (s : Oath)
        → is_ok (next_hotp sdk fid imf s).0 ≡ true
        → (counter imf ((next_hotp sdk fid imf s).1.files fid)
            ≡ (counter imf (s.files fid) + 1) % 2 ^ 64)
          × (length ((next_hotp sdk fid imf s).1.files fid) ≡ length (s.files fid))
    unfolding next_hotp
    next_hotp_counts fid imf s h =
        let v = (counter imf (s.files fid) + 1) % 2 ^ 64 in
        let d = block 8 (sdk.put_uint64_t_be v) in
        ground (
          arith,
          laws.put_lem s.files fid (write_bytes (s.files fid) imf.offset d) fid,
          moved_file be imf v (s.files fid) (omega arith),
          length-write_bytes (s.files fid) imf.offset d,
          length-block 8 (sdk.put_uint64_t_be v),
        )

    next_hotp_else :
        (fid : ℕ) (imf : Tlv) (s : Oath) (g : ℕ)
        → (fid == g) ≡ false
        → (next_hotp sdk fid imf s).1.files g ≡ s.files g
    unfolding next_hotp
    next_hotp_else fid imf s g h =
        let v = (counter imf (s.files fid) + 1) % 2 ^ 64 in
        let d = block 8 (sdk.put_uint64_t_be v) in
        ground (arith, laws.put_lem s.files fid (write_bytes (s.files fid) imf.offset d) g)

    next_hotp_res : (fid : ℕ) (imf : Tlv) (s : Oath) → (next_hotp sdk fid imf s).1.res ≡ s.res
    unfolding next_hotp
    next_hotp_res fid imf s = ground arith

    next_hotp_ok :
        (fid : ℕ) (imf : Tlv) (s t : Oath) (d : List ℕ) (a : Apdu) (key : Tlv)
        → s.files ≡ t.files
        → t.res ≡ s.res ++ (0x75 + a.p2) % 256 ∷ d
        → calculate_oath sdk a.p2 (tlv_data (s.files fid) key) (tlv_data (s.files fid) imf) ≡ ok d
        → is_ok (next_hotp sdk fid imf t).0 ≡ true
        → Moved a fid key imf s (next_hotp sdk fid imf t).1
    next_hotp_ok fid imf s t d a key e r c h = record {
      counts = rw e (next_hotp_counts fid imf t h).0;
      same_length = rw e (next_hotp_counts fid imf t h).1;
      same_others = λ g n. rw e (next_hotp_else fid imf t g n);
      code = d;
      code_of_old = c;
      answered = next_hotp_res fid imf t ∙ r;
    }

    abbrev responded : Apdu → List ℕ → Oath → Oath
    responded a d s = answer d (answer ((0x75 + a.p2) % 256 ∷ []) s)

    calculate_with-next_hotp :
        (a : Apdu) (fid : ℕ) (key chal imf : Tlv) (s : Oath) (d : List ℕ)
        → is_hotp (byte_at (s.files fid) key.offset) ≡ true
        → sdk.find_tag (s.files fid) tag_imf ≡ some imf
        → calculate_oath sdk a.p2 (tlv_data (s.files fid) key) (tlv_data (s.files fid) imf) ≡ ok d
        → calculate_with sdk a fid key chal s ≡ next_hotp sdk fid imf (responded a d s)
    unfolding calculate_with respond append_code
    calculate_with-next_hotp a fid key chal imf s d k i c = ground arith

    calculate_with_failed :
        (a : Apdu) (fid : ℕ) (key chal imf : Tlv) (s : Oath) (e : Sw)
        → is_hotp (byte_at (s.files fid) key.offset) ≡ true
        → sdk.find_tag (s.files fid) tag_imf ≡ some imf
        → calculate_oath sdk a.p2 (tlv_data (s.files fid) key) (tlv_data (s.files fid) imf) ≡ err e
        → is_ok (calculate_with sdk a fid key chal s).0 ≡ false
    unfolding calculate_with respond append_code
    calculate_with_failed a fid key chal imf s e k i c = ground arith

    -- A counter-based code that is given is the code for the counter in the file, whose counter is one
    -- more afterwards, modulo 2^64; the file keeps its length, and no other file changes.
    pub calculate_with-Moved :
        (a : Apdu) (fid : ℕ) (key chal imf : Tlv) (s : Oath)
        → is_hotp (byte_at (s.files fid) key.offset) ≡ true
        → sdk.find_tag (s.files fid) tag_imf ≡ some imf
        → is_ok (calculate_with sdk a fid key chal s).0 ≡ true
        → Moved a fid key imf s (calculate_with sdk a fid key chal s).1
    calculate_with-Moved a fid key chal imf s k i h =
        elim (Result-cases
          (calculate_oath sdk a.p2 (tlv_data (s.files fid) key) (tlv_data (s.files fid) imf))) [
            | inl (d, c) ↦
                let e = calculate_with-next_hotp a fid key chal imf s d k i c in
                rw e (
                  next_hotp_ok fid imf s (responded a d s) d a key refl
                    (append_assoc s.res ((0x75 + a.p2) % 256 ∷ []) d) c
                    (subst (λ (r : Result Sw (Unit {0}) × Oath). is_ok r.0 ≡ true) e h))
            | inr (r, c) ↦ ground (arith, calculate_with_failed a fid key chal imf s r k i c)
          ]

  -- A wrong code is answered by SW_WRONG_DATA, but the right one is in the response by then.
  pub verify_code_leaks :
      (a : Apdu) (file : List ℕ) (key imf : Tlv) (s : Oath)
      → sdk.find_tag file tag_imf ≡ some imf
      → (verify_code sdk a file key s).0 ≡ err wrong_data
      → (d : List ℕ) × ((calculate_oath sdk 0x01 (tlv_data file key) (tlv_data file imf) ≡ ok d)
          × ((verify_code sdk a file key s).1.res ≡ s.res ++ d))
  unfolding verify_code append_code
  verify_code_leaks a file key imf s i h =
      elim (Result-cases (calculate_oath sdk 0x01 (tlv_data file key) (tlv_data file imf))) [
        | inl (d, c) ↦ (d, (c, ground arith))
        | inr (r, c) ↦ ground arith
      ]
