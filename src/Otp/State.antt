-- ===== src/Otp/State.antt =====
-- otp.c, lines 34 to 117 and 338 to 381: the slots, the state, the status, and what the slots need
-- of the SDK and of mbedtls.
use pico_fido_microkey.Base.{
  ℕ, ◌+◌, ◌%◌, bit_and, bit_or, Bool, true, not, ◌||◌, List, [], ◌∷◌, ◌++◌, read_bytes, write_bytes,
  byte_at, ◌==◌, if◌then◌else◌,
}
use pico_fido_microkey.Base.Exec.{Exec}
use pico_fido_microkey.Sdk.{Contents, has_data}
use pico_fido_microkey.Files.{ef_otp_slot1, ef_otp_slot2}
use pico_fido_microkey.Apdu.{Sw}
use pico_fido_microkey.Management.{version_major, version_minor}
use pico_fido_microkey.Oath.State.{OathSdk}

-- `otp_config_t`, byte by byte.
abbrev pub fixed_data : List ℕ → List ℕ
fixed_data f = read_bytes f 0 16

abbrev pub uid : List ℕ → List ℕ
uid f = read_bytes f 16 6

abbrev pub aes_key : List ℕ → List ℕ
aes_key f = read_bytes f 22 16

abbrev pub acc_code : List ℕ → List ℕ
acc_code f = read_bytes f 38 6

abbrev pub fixed_size : List ℕ → ℕ
fixed_size f = byte_at f 44

abbrev pub ext_flags : List ℕ → ℕ
ext_flags f = byte_at f 45

abbrev pub tkt_flags : List ℕ → ℕ
tkt_flags f = byte_at f 46

abbrev pub cfg_flags : List ℕ → ℕ
cfg_flags f = byte_at f 47

abbrev pub otp_config_size : ℕ
otp_config_size = 52

-- CHAL_RESP and OATH_HOTP are the same bit.
abbrev pub chal_resp : ℕ
chal_resp = 0x40

abbrev pub append_cr : ℕ
append_cr = 0x20

abbrev pub short_ticket : ℕ
short_ticket = 0x02

abbrev pub static_ticket : ℕ
static_ticket = 0x20

abbrev pub hmac_lt64 : ℕ
hmac_lt64 = 0x04

abbrev pub chal_btn_trig : ℕ
chal_btn_trig = 0x08

abbrev pub chal_yubico : ℕ
chal_yubico = 0x20

abbrev pub chal_hmac : ℕ
chal_hmac = 0x22

abbrev pub oath_hotp8 : ℕ
oath_hotp8 = 0x02

abbrev pub extflag_update_mask : ℕ
extflag_update_mask = 0xff

abbrev pub tktflag_update_mask : ℕ
tktflag_update_mask = 0x3f

abbrev pub cfgflag_update_mask : ℕ
cfgflag_update_mask = 0x0c

-- `flags & mask`, as a condition
abbrev pub has_flag : ℕ → ℕ → Bool
has_flag flags mask = not (bit_and flags mask == 0)

-- A call of the keyboard.
pub data KeyCall : Type 0 where
  add_keyboard_buffer : List ℕ → Bool → KeyCall
  append_keyboard_buffer : List ℕ → KeyCall

-- The state of otp.c. `rdata` and `data` are the memory at `apdu.rdata` and `apdu.data`, and
-- `res_size` is `res_APDU_size`.
pub record Otp : Type 0 where
  pub files : Contents
  pub data_in : List ℕ
  pub rdata : List ℕ
  pub res_size : ℕ
  pub config_seq : ℕ
  pub status_byte : ℕ
  pub scanned : Bool
  pub is_otp : Bool
  -- `session_counter[0]` and `session_counter[1]`
  pub session1 : ℕ
  pub session2 : ℕ
  -- What was typed, call after call.
  pub keyboard : List KeyCall
  -- How many calls of the random generator were made.
  pub draws : ℕ

pub record OtpSdk : Type 0 where
  pub oath : OathSdk
  -- What the flash holds after the last byte of a file.
  pub beyond : Contents → ℕ → List ℕ
  -- What an array on the stack holds before it is written.
  pub stack : List ℕ
  pub hmac_sha1 : List ℕ → List ℕ → List ℕ
  -- `mbedtls_aes_crypt_ecb`, encrypting: the return code and the block
  pub aes_encrypt_ecb : List ℕ → List ℕ → ℕ × List ℕ
  pub get_uint16_t_be : List ℕ → ℕ
  pub put_uint16_t_be : ℕ → List ℕ
  pub get_uint16_t_le : List ℕ → ℕ
  pub put_uint16_t_le : ℕ → List ℕ

abbrev pub OtpCmd : Type 0 → Type 0
OtpCmd A = Exec Otp Sw A

-- The bits of a slot in the status: whether it is there, and whether it is for the button.
abbrev pub slot_opts : List ℕ → ℕ → ℕ → ℕ
slot_opts f valid touch =
    if has_data f
    then (if not (has_flag (tkt_flags f) chal_resp) || has_flag (cfg_flags f) chal_btn_trig
        then bit_or valid touch
        else valid)
    else 0

unfoldable pub status_bytes : Otp → List ℕ
status_bytes s =
    version_major
    ∷ version_minor
    ∷ 0
    ∷ s.config_seq
    ∷ bit_or (slot_opts (s.files ef_otp_slot1) 0x01 0x04)
        (slot_opts (s.files ef_otp_slot2) 0x02 0x08)
    ∷ 0
    ∷ s.status_byte
    ∷ []

-- In a report, the status stands after the first byte and is no response.
unfoldable pub otp_status : Bool → Otp → Otp
unfolding status_bytes
otp_status is_otp s = record s {
  scanned = true;
  rdata = write_bytes s.rdata (if is_otp then 1 else 0) (status_bytes s);
  res_size = if is_otp then 0 else 7;
}

-- `config_seq++; return otp_status(_is_otp);`
unfoldable pub changed : Otp → Otp
changed s = otp_status s.is_otp (record s { config_seq = (s.config_seq + 1) % 256 })

module _ (sdk : OtpSdk) where
  -- The bytes from the start of a file on, which the code reads past its end too.
  abbrev pub slot_memory : Contents → ℕ → List ℕ
  slot_memory c fid = c fid ++ sdk.beyond c fid

  abbrev pub put_slot : ℕ → List ℕ → Otp → Otp
  put_slot fid d s = record s { files = sdk.oath.flash.file_put_data s.files fid d }

  abbrev pub delete_slot : ℕ → Otp → Otp
  delete_slot fid s = record s { files = sdk.oath.flash.delete_file s.files fid }

  abbrev pub new_slot : ℕ → Otp → Otp
  new_slot fid s = record s { files = sdk.oath.flash.file_new s.files fid }
