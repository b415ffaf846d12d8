-- ===== src/Tests/OtpToy.antt =====
-- A small OTP device, and slots for it.
use pico_fido_microkey.Base.{
  ℕ, ◌+◌, ◌*◌, ◌/◌, ◌%◌, refl, false, true, List, [], ◌∷◌, ◌++◌, byte_at, replicate, block, ◌==◌,
  if◌then◌else◌,
}
use pico_fido_microkey.Sdk.{Contents}
use pico_fido_microkey.Files.{ef_otp_slot1, ef_otp_slot2}
use pico_fido_microkey.Otp.{Header}
use pico_fido_microkey.Otp.State.{OtpSdk, Otp}
use pico_fido_microkey.Otp.Frames.{Frames}
use pico_fido_microkey.Otp.Counters.{IsUint16}
use pico_fido_microkey.Tests.OathToy.{toy_oath}

-- A cipher that gives its input back, and a flash that is erased past the end of a file.
abbrev pub toy_otp : OtpSdk
toy_otp = record {
  oath = toy_oath;
  beyond = λ c fid. replicate 8 0xff;
  stack = replicate 60 9;
  hmac_sha1 = λ k m. block 20 (m ++ k);
  aes_encrypt_ecb = λ k m. (0, m);
  get_uint16_t_be = λ b. byte_at b 0 * 256 + byte_at b 1;
  put_uint16_t_be = λ v. v / 256 ∷ v % 256 ∷ [];
  get_uint16_t_le = λ b. byte_at b 0 + byte_at b 1 * 256;
  put_uint16_t_le = λ v. v % 256 ∷ v / 256 ∷ [];
}

pub toy-IsUint16 : IsUint16 toy_otp
toy-IsUint16 = record {
  get_be_lem = λ b. refl;
  put_be_lem = λ v h. refl;
  get_le_lem = λ b. refl;
  put_le_lem = λ v h. refl;
}

-- The first 48 bytes of a configuration with the access code [6, 6, 6, 6, 6, 6].
abbrev pub slot_front : ℕ → ℕ → List ℕ
slot_front tkt cfg =
    replicate 16 1
    ++ (replicate 6 2 ++ (replicate 16 3 ++ (replicate 6 6 ++ 16 ∷ 0 ∷ tkt ∷ cfg ∷ [])))

-- A slot file; the use counter is 5.
abbrev pub slot : ℕ → ℕ → List ℕ
slot tkt cfg = slot_front tkt cfg ++ (0 ∷ 0 ∷ 0 ∷ 0 ∷ 0 ∷ 5 ∷ 0 ∷ 0 ∷ 0 ∷ 0 ∷ 0 ∷ 0 ∷ [])

abbrev pub slot_files : List ℕ → List ℕ → Contents
slot_files first second =
    λ fid. if fid == ef_otp_slot1 then first else if fid == ef_otp_slot2 then second else []

abbrev pub otp : Contents → List ℕ → Otp
otp c d = record {
  files = c;
  data_in = d;
  rdata = replicate 70 0;
  res_size = 0;
  config_seq = 1;
  status_byte = 0;
  scanned = true;
  is_otp = false;
  session1 = 255;
  session2 = 0;
  keyboard = [];
  draws = 0;
}

abbrev pub header : ℕ → Header
header p1 = record { cla = 0; ins = 1; p1 = p1; p2 = 0 }

abbrev pub frames : Otp → List ℕ → Frames
frames o rx = record {
  otp = o;
  rx = rx;
  tx = replicate 20 7 ++ replicate 50 0;
  send_size = 0;
  exp_seq = 0;
  curr_seq = 0;
}
