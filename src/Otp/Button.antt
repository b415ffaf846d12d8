-- ===== src/Otp/Button.antt =====
-- otp.c, lines 159 to 181 and 203 to 324: what the button types, and the counters of a slot.
use pico_fido_microkey.Base.{
  ℕ, zero, suc, ◌+◌, ◌-◌, ◌/◌, ◌%◌, ◌^◌, Bool, true, false, not, ◌&&◌, ◌||◌, List, [], ◌∷◌, ◌++◌,
  drop, block, write_bytes, length, byte_at, leb, ◌==◌, if◌then◌else◌,
}
use pico_fido_microkey.Base.Exec.{ok, err}
use pico_fido_microkey.Sdk.{has_data}
use pico_fido_microkey.Files.{ef_otp_slot1, ef_otp_slot2}
use pico_fido_microkey.Management.{cap_supported, cap_otp}
use pico_fido_microkey.Oath.Calculate.{calculate_oath}
use pico_fido_microkey.Otp.State.{
  OtpSdk, Otp, add_keyboard_buffer, append_keyboard_buffer, KeyCall, uid, aes_key, tkt_flags,
  cfg_flags, otp_config_size, chal_resp, append_cr, short_ticket, static_ticket, chal_yubico,
  oath_hotp8, has_flag, slot_memory, put_slot,
}
use pico_fido_microkey.Otp.Crc.{calculate_crc}
use pico_fido_microkey.Otp.Modhex.{encode_modhex}

abbrev pub type_keys : KeyCall → Otp → Otp
type_keys k s = record s { keyboard = s.keyboard ++ k ∷ [] }

-- Return, if the slot wants it.
abbrev pub end_line : List ℕ → ℕ → Otp → Otp
end_line file key s =
    if has_flag (tkt_flags file) append_cr
    then type_keys (append_keyboard_buffer (key ∷ [])) s
    else s

-- Whether a slot holds a static password.
abbrev pub is_static : List ℕ → Bool
is_static f = has_flag (cfg_flags f) short_ticket || has_flag (cfg_flags f) static_ticket

-- `sprintf` with `%0<width>lu`, for a number of at most so many digits.
unfoldable pub decimal : ℕ → ℕ → List ℕ
decimal zero n = []
decimal (suc width) n = decimal width (n / 10) ++ (0x30 + n % 10) ∷ []

abbrev pub hotp_digits : List ℕ → ℕ
hotp_digits file = if has_flag (cfg_flags file) oath_hotp8 then 8 else 6

-- `session_counter[slot - 1]`, for the slots 1 and 2
abbrev pub session_of : ℕ → Otp → ℕ
session_of slot s = if slot == 1 then s.session1 else s.session2

abbrev pub set_session : ℕ → ℕ → Otp → Otp
set_session slot n s = if slot == 1 then record s { session1 = n } else record s { session2 = n }

module _ (sdk : OtpSdk) where
  -- A slot of 60 bytes with a new counter; the copy reads so many bytes whatever the slot's size.
  unfoldable pub with_counter : List ℕ → ℕ → List ℕ
  with_counter memory counter =
      write_bytes (block (otp_config_size + 8) memory) otp_config_size
        (block 2 (sdk.put_uint16_t_be counter))

  -- The use counter of a slot is one more at start-up, up to 0x7fff.
  unfoldable pub count_start : ℕ → Otp → Otp
  count_start fid s =
      let memory = slot_memory sdk s.files fid in
      let counter = (sdk.get_uint16_t_be (drop otp_config_size memory) + 1) % 2 ^ 16 in
      if has_data (s.files fid)
        && (not (has_flag (tkt_flags memory) chal_resp)
            && (not (is_static memory) && leb counter 0x7fff))
      then put_slot sdk fid (with_counter memory counter) s
      else s

  unfoldable pub init_otp : Otp → Otp
  init_otp s =
      let t = count_start ef_otp_slot2 (count_start ef_otp_slot1 s) in
      if s.scanned then s else record t { scanned = true }

  -- The counter of a HOTP slot: its own one, or the start value of the configuration.
  unfoldable pub hotp_counter : List ℕ → ℕ
  hotp_counter memory =
      let imf = sdk.oath.get_uint64_t_be (drop otp_config_size memory) in
      if imf == 0 then sdk.get_uint16_t_be (drop 4 (uid memory)) else imf

  -- The type and the digits of a credential, of which the second is not set, and the key.
  unfoldable pub hotp_key : List ℕ → List ℕ
  hotp_key memory = 0x01 ∷ byte_at sdk.stack 1 ∷ aes_key memory

  -- The number that is typed, from the response of `calculate_oath`.
  unfoldable pub hotp_number : List ℕ → List ℕ → ℕ
  hotp_number memory response = sdk.get_uint16_t_be (drop 2 response) % 10 ^ hotp_digits memory

  unfoldable pub next_counter : List ℕ → List ℕ
  next_counter memory =
      block otp_config_size memory
      ++ block 8 (sdk.oath.put_uint64_t_be ((hotp_counter memory + 1) % 2 ^ 64))

  unfoldable pub type_hotp : ℕ → Otp → Otp
  type_hotp fid s =
      let memory = slot_memory sdk s.files fid in
      let chal = block 8 (sdk.oath.put_uint64_t_be (hotp_counter memory)) in
      elim (calculate_oath sdk.oath 1 (hotp_key memory) chal) [
        | err e ↦ end_line memory 0x0d (record s { res_size = 0 })
        | ok d ↦
            let t = record s { rdata = write_bytes s.rdata 0 d; res_size = length d } in
            let code = decimal (hotp_digits memory) (hotp_number memory t.rdata) in
            end_line memory 0x0d
              (put_slot sdk fid (next_counter memory) (type_keys (add_keyboard_buffer code true) t))
      ]

  unfoldable pub type_static : ℕ → Otp → Otp
  type_static fid s =
      let memory = slot_memory sdk s.files fid in
      end_line memory 0x28 (type_keys (add_keyboard_buffer (block 38 memory) false) s)

  -- The use counter that a password carries: a slot that was never used starts with 1.
  unfoldable pub use_counter : List ℕ → ℕ
  use_counter memory =
      let counter = sdk.get_uint16_t_be (drop otp_config_size memory) in
      if counter == 0 then 1 else counter

  -- What is encrypted: identity, counter, time in half seconds, session counter and two random bytes.
  unfoldable pub otp_fields : ℕ → ℕ → List ℕ → Otp → List ℕ
  otp_fields slot millis memory s =
      let ts = millis / 1000 / 2 in
      uid memory
      ++ (block 2 (sdk.put_uint16_t_le (use_counter memory))
          ++ (ts % 256
              ∷ ts / 2 ^ 8 % 256
              ∷ ts / 2 ^ 16 % 256
              ∷ session_of slot s
              ∷ block 2 (sdk.oath.random_gen s.draws 2)))

  -- The fields are followed by the complement of their CRC.
  unfoldable pub otp_plain : ℕ → ℕ → List ℕ → Otp → List ℕ
  otp_plain slot millis memory s =
      let fields = otp_fields slot millis memory s in
      fields ++ block 2 (sdk.put_uint16_t_le (2 ^ 16 - 1 - calculate_crc fields))

  -- A password: the public identity, and the encrypted block.
  unfoldable pub otp_password : ℕ → ℕ → List ℕ → Otp → List ℕ
  otp_password slot millis memory s =
      block 6 memory
      ++ block 16 (sdk.aes_encrypt_ecb (aes_key memory) (otp_plain slot millis memory s)).1

  -- The session counter is one more; when it wraps around, so is the use counter, up to 0x7fff.
  unfoldable pub count_use : ℕ → ℕ → Otp → Otp
  count_use slot fid s =
      let memory = slot_memory sdk s.files fid in
      let session = (session_of slot s + 1) % 256 in
      let counter = use_counter memory in
      let next = (counter + 1) % 2 ^ 16 in
      let t = set_session slot session s in
      if session == 0 && leb next 0x7fff
      then put_slot sdk fid (with_counter memory next) t
      else if sdk.get_uint16_t_be (drop otp_config_size memory) == 0
      then put_slot sdk fid (with_counter memory counter) t
      else t

  unfoldable pub type_yubico : ℕ → ℕ → ℕ → Otp → Otp
  type_yubico slot millis fid s =
      let memory = slot_memory sdk s.files fid in
      let keys = encode_modhex (otp_password slot millis memory s) in
      let t = type_keys (add_keyboard_buffer keys true) (record s { draws = s.draws + 1 }) in
      count_use slot fid (end_line memory 0x0d t)

  -- The button for a slot with data.
  unfoldable pub press_slot : ℕ → ℕ → ℕ → Otp → ℕ × Otp
  press_slot slot millis fid s =
      let memory = slot_memory sdk s.files fid in
      if has_flag (cfg_flags memory) chal_yubico && has_flag (tkt_flags memory) chal_resp
      then (2, s)
      else if has_flag (tkt_flags memory) chal_resp
      then (0, type_hotp fid s)
      else if is_static memory
      then (0, type_static fid s)
      else (0, type_yubico slot millis fid s)

  -- What the button gives at a time in milliseconds.
  unfoldable pub otp_button_pressed : ℕ → ℕ → Otp → ℕ × Otp
  otp_button_pressed slot millis s =
      let t = init_otp s in
      let fid = (if slot == 1 then ef_otp_slot1 else ef_otp_slot2) in
      if not (cap_supported sdk.oath.man t.files cap_otp)
      then (3, t)
      else if has_data (t.files fid)
      then press_slot slot millis fid t
      else (1, t)
