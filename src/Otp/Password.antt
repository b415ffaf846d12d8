-- ===== src/Otp/Password.antt =====
-- The passwords that otp.c types, as the server sees them.
use pico_fido_microkey.Base.{
  get_or-drop, ℕ, ◌+◌, ◌-◌, ◌/◌, ◌%◌, ◌^◌, ◌<◌, ◌≡◌, ◌∙◌, ap, refl, subst, sym, arith, Bool, true,
  false, List, [], ◌∷◌, ◌++◌, length, drop, block, length-block, block-append, drop-append,
  length-read_bytes, length-append, byte_at, if◌then◌else◌,
}
use mathlib.Core.List.{append_assoc, append-nil}
use pico_fido_microkey.Oath.Counter.{AllBytes}
use pico_fido_microkey.Otp.State.{
  OtpSdk, Otp, uid, aes_key, tkt_flags, append_cr, has_flag, slot_memory, add_keyboard_buffer,
  append_keyboard_buffer, KeyCall,
}
use pico_fido_microkey.Otp.Crc.{calculate_crc}
use pico_fido_microkey.Otp.Residue.{crc_bytes, calculate_crc_residue}
use pico_fido_microkey.Otp.Modhex.{encode_modhex, decode_modhex, decode-encode_modhex}
use pico_fido_microkey.Otp.Button.{
  type_keys, end_line, count_use, session_of, use_counter, otp_fields, otp_plain, otp_password,
  type_yubico,
}
use pico_fido_microkey.Otp.Counters.{IsUint16}

-- The calls of the keyboard that end a line, if the slot wants it.
abbrev pub line_end : List ℕ → List KeyCall
line_end memory =
    if has_flag (tkt_flags memory) append_cr then append_keyboard_buffer (0x0d ∷ []) ∷ [] else []

ended_if :
    (b : Bool) (k : KeyCall) (t : Otp)
    → (if b then type_keys k t else t).keyboard ≡ t.keyboard ++ (if b then k ∷ [] else [])
ended_if true k t = refl
ended_if false k t = sym (append-nil t.keyboard)

module _ (sdk : OtpSdk) where
  -- A cipher that undoes the encryption of one block.
  abbrev pub IsEcbInverse : (List ℕ → List ℕ → List ℕ) → Type 0
  IsEcbInverse decrypt =
      (key m : List ℕ) → length m ≡ 16 → decrypt key (block 16 (sdk.aes_encrypt_ecb key m).1) ≡ m

  length-otp_fields :
      (slot millis : ℕ) (memory : List ℕ) (s : Otp)
      → length (otp_fields sdk slot millis memory s) ≡ 14
  unfolding otp_fields
  length-otp_fields slot millis memory s =
      let ts = millis / 1000 / 2 in
      let random = block 2 (sdk.oath.random_gen s.draws 2) in
      let n = block 2 (sdk.put_uint16_t_le (use_counter sdk memory)) in
      let tail = ts % 256 ∷ ts / 2 ^ 8 % 256 ∷ ts / 2 ^ 16 % 256 ∷ session_of slot s ∷ random in
      omega (
        arith,
        length-append (uid memory) (n ++ tail),
        length-append n tail,
        length-read_bytes memory 16 6,
        length-block 2 (sdk.put_uint16_t_le (use_counter sdk memory)),
        length-block 2 (sdk.oath.random_gen s.draws 2),
      )

  count_use-keyboard : (slot fid : ℕ) (s : Otp) → (count_use sdk slot fid s).keyboard ≡ s.keyboard
  unfolding count_use
  count_use-keyboard slot fid s = ground arith

  type_yubico-keyboard :
      (slot millis fid : ℕ) (s : Otp)
      → (type_yubico sdk slot millis fid s).keyboard
        ≡ s.keyboard
          ++ add_keyboard_buffer
              (encode_modhex (otp_password sdk slot millis (slot_memory sdk s.files fid) s))
              true
            ∷ line_end (slot_memory sdk s.files fid)
  unfolding type_yubico
  type_yubico-keyboard slot millis fid s =
      let memory = slot_memory sdk s.files fid in
      let k = add_keyboard_buffer (encode_modhex (otp_password sdk slot millis memory s)) true in
      let t = record s { draws = s.draws + 1; keyboard = s.keyboard ++ k ∷ [] } in
      count_use-keyboard slot fid (end_line memory 0x0d t)
      ∙ ended_if (has_flag (tkt_flags memory) append_cr) (append_keyboard_buffer (0x0d ∷ [])) t
      ∙ append_assoc s.keyboard (k ∷ []) (line_end memory)

  -- What a server makes of a password: the public identity, and the decrypted block.
  pub record Verifies (decrypt : List ℕ → List ℕ → List ℕ) (slot millis : ℕ)
      (memory password : List ℕ) (s : Otp) : Type 0 where
    pub identity : block 6 password ≡ block 6 memory
    pub decrypted : decrypt (aes_key memory) (drop 6 password) ≡ otp_plain sdk slot millis memory s
    pub residue : calculate_crc (decrypt (aes_key memory) (drop 6 password)) ≡ 0xf0b8
    pub secret_id : block 6 (decrypt (aes_key memory) (drop 6 password)) ≡ uid memory
    pub counter :
        sdk.get_uint16_t_le (drop 6 (decrypt (aes_key memory) (drop 6 password)))
        ≡ use_counter sdk memory
    pub session : byte_at (decrypt (aes_key memory) (drop 6 password)) 11 ≡ session_of slot s

  module _ (uint16 : IsUint16 sdk) where
    otp_plain-crc_bytes :
        (slot millis : ℕ) (memory : List ℕ) (s : Otp)
        → otp_plain sdk slot millis memory s
          ≡ otp_fields sdk slot millis memory s
            ++ crc_bytes (calculate_crc (otp_fields sdk slot millis memory s))
    unfolding otp_plain block
    otp_plain-crc_bytes slot millis memory s =
        let fields = otp_fields sdk slot millis memory s in
        ap (λ b. fields ++ block 2 b)
          (uint16.put_le_lem (2 ^ 16 - 1 - calculate_crc fields) (omega arith))

    length-otp_plain :
        (slot millis : ℕ) (memory : List ℕ) (s : Otp)
        → length (otp_plain sdk slot millis memory s) ≡ 16
    length-otp_plain slot millis memory s =
        let fields = otp_fields sdk slot millis memory s in
        ap length (otp_plain-crc_bytes slot millis memory s)
        ∙ length-append fields (crc_bytes (calculate_crc fields))
        ∙ ap (λ n. n + 2) (length-otp_fields slot millis memory s)

    -- The plain text from the counter on, up to the random bytes.
    abbrev counters_of : ℕ → ℕ → List ℕ → List ℕ → Otp → List ℕ
    counters_of slot millis memory after s =
        use_counter sdk memory % 256
        ∷ use_counter sdk memory / 256
        ∷ millis / 1000 / 2 % 256
        ∷ millis / 1000 / 2 / 2 ^ 8 % 256
        ∷ millis / 1000 / 2 / 2 ^ 16 % 256
        ∷ session_of slot s
        ∷ after

    plain_from_counter :
        (slot millis : ℕ) (memory : List ℕ) (s : Otp)
        → use_counter sdk memory < 2 ^ 16
        → (after : List ℕ) × (otp_plain sdk slot millis memory s
            ≡ uid memory ++ counters_of slot millis memory after s)
    unfolding otp_plain otp_fields block
    plain_from_counter slot millis memory s h =
        let ts = millis / 1000 / 2 in
        let random = block 2 (sdk.oath.random_gen s.draws 2) in
        let crc = block 2 (
          sdk.put_uint16_t_le (2 ^ 16 - 1 - calculate_crc (otp_fields sdk slot millis memory s))) in
        (
          random ++ crc,
          append_assoc (uid memory) _ crc
              ∙ ap
                  (λ b.
                    uid memory
                    ++ (block 2 b
                        ++ ts % 256
                          ∷ ts / 2 ^ 8 % 256
                          ∷ ts / 2 ^ 16 % 256
                          ∷ session_of slot s
                          ∷ random
                        ++ crc))
                  (uint16.put_le_lem (use_counter sdk memory) h),
        )

    module _ (decrypt : List ℕ → List ℕ → List ℕ) (inverse : IsEcbInverse decrypt) where
      decrypted_block :
          (slot millis : ℕ) (memory : List ℕ) (s : Otp)
          → decrypt (aes_key memory) (drop 6 (otp_password sdk slot millis memory s))
            ≡ otp_plain sdk slot millis memory s
      unfolding otp_password
      decrypted_block slot millis memory s =
          let p = otp_plain sdk slot millis memory s in
          let c = block 16 (sdk.aes_encrypt_ecb (aes_key memory) p).1 in
          ap (decrypt (aes_key memory)) (drop-append (block 6 memory) c 6 (length-block 6 memory))
          ∙ inverse (aes_key memory) p (length-otp_plain slot millis memory s)

      otp_password-Verifies :
          (slot millis : ℕ) (memory : List ℕ) (s : Otp)
          → use_counter sdk memory < 2 ^ 16
          → Verifies decrypt slot millis memory (otp_password sdk slot millis memory s) s
      unfolding otp_password
      otp_password-Verifies slot millis memory s h =
          let fields = otp_fields sdk slot millis memory s in
          let e = decrypted_block slot millis memory s in
          let (after, f) = plain_from_counter slot millis memory s h in
          let counters = counters_of slot millis memory after s in
          let six = length-read_bytes memory 16 6 in
          record {
            identity = block-append (block 6 memory) _ 6 (length-block 6 memory);
            decrypted = e;
            residue =
                ap calculate_crc (e ∙ otp_plain-crc_bytes slot millis memory s)
                ∙ calculate_crc_residue fields;
            secret_id = ap (block 6) (e ∙ f) ∙ block-append (uid memory) _ 6 six;
            counter =
                ap (λ b. sdk.get_uint16_t_le (drop 6 b)) (e ∙ f)
                ∙ ap sdk.get_uint16_t_le (drop-append (uid memory) _ 6 six)
                ∙ uint16.get_le_lem _
                ∙ omega arith;
            session =
                ap (λ b. byte_at b 11) (e ∙ f)
                ∙ sym (get_or-drop 6 5 (uid memory ++ counters) 0)
                ∙ ap (λ b. byte_at b 5) (drop-append (uid memory) counters 6 six);
          }

      -- The password that a press types can be verified: read in the alphabet of the keyboard, it is
      -- the public identity and a block that decrypts to the secret identity, the use counter, the
      -- session counter and the rest of the plain text, whose check sum is right.
      pub type_yubico-Verifies :
          (slot millis fid : ℕ) (s : Otp)
          → use_counter sdk (slot_memory sdk s.files fid) < 2 ^ 16
          → AllBytes (otp_password sdk slot millis (slot_memory sdk s.files fid) s)
          → (keys : List ℕ) × (((type_yubico sdk slot millis fid s).keyboard
                ≡ s.keyboard
                  ++ add_keyboard_buffer keys true ∷ line_end (slot_memory sdk s.files fid))
              × Verifies decrypt slot millis (slot_memory sdk s.files fid) (decode_modhex keys) s)
      type_yubico-Verifies slot millis fid s h b =
          let memory = slot_memory sdk s.files fid in
          let password = otp_password sdk slot millis memory s in
          (
            encode_modhex password,
            (
              type_yubico-keyboard slot millis fid s,
              subst (λ p. Verifies decrypt slot millis memory p s)
                  (sym (decode-encode_modhex password b))
                  (otp_password-Verifies slot millis memory s h),
            ),
          )
