-- ===== src/Otp/Counters.antt =====
-- The counters of a slot of otp.c, and what a press of the button makes of them.
use pico_fido_microkey.Base.{
  ℕ, ◌+◌, ◌*◌, ◌/◌, ◌%◌, ◌^◌, ◌<◌, ◌≡◌, ◌∙◌, ap, arith, Bool-cases, inl, inr, true, List, [], ◌∷◌,
  ◌++◌, length, drop, block, length-block, drop-append, write_bytes, byte_at, ◌==◌,
}
use mathlib.Core.List.{append_assoc}
use pico_fido_microkey.Sdk.{Contents, IsFlash}
use pico_fido_microkey.Otp.State.{
  OtpSdk, Otp, slot_memory, add_keyboard_buffer, append_keyboard_buffer,
}
use pico_fido_microkey.Otp.Modhex.{encode_modhex}
use pico_fido_microkey.Otp.Button.{
  otp_password, session_of, with_counter, use_counter, count_use, type_yubico,
}

-- Numbers of 16 bits in two bytes, in both orders.
pub record IsUint16 (sdk : OtpSdk) : Type 0 where
  pub get_be_lem : (b : List ℕ) → sdk.get_uint16_t_be b ≡ byte_at b 0 * 256 + byte_at b 1
  pub put_be_lem : (v : ℕ) → v < 2 ^ 16 → sdk.put_uint16_t_be v ≡ v / 256 ∷ v % 256 ∷ []
  pub get_le_lem : (b : List ℕ) → sdk.get_uint16_t_le b ≡ byte_at b 0 + byte_at b 1 * 256
  pub put_le_lem : (v : ℕ) → v < 2 ^ 16 → sdk.put_uint16_t_le v ≡ v % 256 ∷ v / 256 ∷ []

module _ (sdk : OtpSdk) where
  -- The use counter and the session counter of a slot as one number.
  unfoldable pub uses : ℕ → ℕ → Otp → ℕ
  uses slot fid s = use_counter sdk (slot_memory sdk s.files fid) * 256 + session_of slot s

  use_counter-pos : (memory : List ℕ) → 0 < use_counter sdk memory
  unfolding use_counter
  use_counter-pos memory = ground arith

  module _ (uint16 : IsUint16 sdk) where
    get_put_uint16_t_be :
        (v : ℕ) (rest : List ℕ)
        → v < 2 ^ 16
        → sdk.get_uint16_t_be (block 2 (sdk.put_uint16_t_be v) ++ rest) ≡ v
    unfolding block
    get_put_uint16_t_be v rest h =
        uint16.get_be_lem (block 2 (sdk.put_uint16_t_be v) ++ rest)
        ∙ (rw (uint16.put_be_lem v h) (omega arith))

    read_counter :
        (memory rest : List ℕ) (v : ℕ)
        → v < 2 ^ 16
        → sdk.get_uint16_t_be (drop 52 (with_counter sdk memory v ++ rest)) ≡ v
    unfolding with_counter write_bytes
    read_counter memory rest v h =
        let w = block 60 memory in
        let p = block 2 (sdk.put_uint16_t_be v) in
        let after = drop (52 + length p) w in
        ap (λ b. sdk.get_uint16_t_be (drop 52 b)) (append_assoc (block 52 w) (p ++ after) rest)
        ∙ ap sdk.get_uint16_t_be
            (drop-append (block 52 w) ((p ++ after) ++ rest) 52 (length-block 52 w))
        ∙ ap sdk.get_uint16_t_be (append_assoc p after rest)
        ∙ get_put_uint16_t_be v (after ++ rest) h

    module _ (laws : IsFlash sdk.oath.flash) where
      -- The use counter after a slot was written with it.
      counted :
          (fid v : ℕ) (memory : List ℕ) (c : Contents)
          → v < 2 ^ 16
          → sdk.get_uint16_t_be (
              drop 52 (
                slot_memory sdk
                  (sdk.oath.flash.file_put_data c fid (with_counter sdk memory v))
                  fid))
            ≡ v
      counted fid v memory c h =
          let d = with_counter sdk memory v in
          let after = sdk.oath.flash.file_put_data c fid d in
          let e : after fid ≡ d = ground (arith, laws.put_lem c fid d fid) in
          ap (λ b. sdk.get_uint16_t_be (drop 52 (b ++ sdk.beyond after fid))) e
          ∙ read_counter memory (sdk.beyond after fid) v h

      use_counter_put :
          (fid v : ℕ) (memory : List ℕ) (c : Contents)
          → v < 2 ^ 16
          → 0 < v
          → use_counter sdk
              (slot_memory sdk (sdk.oath.flash.file_put_data c fid (with_counter sdk memory v)) fid)
            ≡ v
      unfolding use_counter
      use_counter_put fid v memory c h p = ground (arith, counted fid v memory c h)

      -- The three ways to count: the session counter wraps around, the slot is new, or neither.
      count_use-uses :
          (slot fid : ℕ) (s : Otp)
          → use_counter sdk (slot_memory sdk s.files fid) < 0x7fff
          → session_of slot s < 256
          → uses slot fid (count_use sdk slot fid s) ≡ uses slot fid s + 1
      unfolding uses count_use
      count_use-uses slot fid s l h =
          let memory = slot_memory sdk s.files fid in
          let n = use_counter sdk memory in
          let same = use_counter_put fid n memory s.files in
          let next = use_counter_put fid (n + 1) memory s.files in
          elim (Bool-cases (slot == 1)) [
            | inl e ↦ rw e (ground (arith, same, next, use_counter-pos memory))
            | inr e ↦ rw e (ground (arith, same, next, use_counter-pos memory))
          ]

      -- Each press for a Yubico password counts: the number that is made of the use counter and the
      -- session counter, which the password carries, is one more afterwards, as long as the use
      -- counter is less than 0x7fff.
      pub type_yubico-uses :
          (slot millis fid : ℕ) (s : Otp)
          → use_counter sdk (slot_memory sdk s.files fid) < 0x7fff
          → session_of slot s < 256
          → uses slot fid (type_yubico sdk slot millis fid s) ≡ uses slot fid s + 1
      unfolding type_yubico uses
      type_yubico-uses slot millis fid s l h =
          let memory = slot_memory sdk s.files fid in
          let t = record s {
            draws = s.draws + 1;
            keyboard =
                s.keyboard
                ++ add_keyboard_buffer (encode_modhex (otp_password sdk slot millis memory s)) true
                  ∷ [];
          } in
          let u = record t { keyboard = t.keyboard ++ append_keyboard_buffer (0x0d ∷ []) ∷ [] } in
          ground (arith, count_use-uses slot fid t, count_use-uses slot fid u)
