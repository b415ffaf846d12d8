-- ===== src/Tests/OathToy.antt =====
-- A small OATH device, and commands for it.
use pico_fido_microkey.Base.{
  ℕ, zero, suc, ◌+◌, ◌*◌, ◌%◌, refl, Bool, false, Option, some, none, List, [], ◌∷◌, ◌++◌, length,
  drop, byte_at, replicate, block, ◌==◌, if◌then◌else◌,
}
use pico_fido_microkey.Sdk.{Contents, ideal_flash}
use pico_fido_microkey.Files.{ef_oath_cred, ef_oath_code, ef_otp_pin}
use pico_fido_microkey.Apdu.{Apdu}
use pico_fido_microkey.Management.{ManSdk, Walked}
use pico_fido_microkey.Oath.State.{OathSdk, Oath, Tlv}
use pico_fido_microkey.Oath.Counter.{IsUint64Be}

-- The values of a buffer, one after the other, with a length of one byte.
abbrev pub walk : ℕ → List ℕ → ℕ → List Walked
walk zero buf i = []
walk (suc n) [] i = []
walk (suc n) (tag ∷ []) i = []
walk (suc n) (tag ∷ len ∷ rest) i =
    record { tag = tag; tag_len = len; offset = i + 2 } ∷ walk n (drop len rest) (i + 2 + len)

abbrev pub first : List Walked → ℕ → Option Tlv
first [] tag = none
first (w ∷ ws) tag =
    let rest = first ws tag in
    if w.tag == tag then some (record { offset = w.offset; len = w.tag_len }) else rest

abbrev pub toy_man : ManSdk
toy_man = record {
  flash = ideal_flash;
  walk_tlv = λ buf. walk 9 buf 0;
  get_uint16_t_be = λ b. byte_at b 0 * 256 + byte_at b 1;
  app_exists = λ aid. false;
  serial_id = 1 ∷ 2 ∷ 3 ∷ 4 ∷ [];
  phy_usb_itf_kb = 4;
}

abbrev pub toy_oath : OathSdk
toy_oath = record {
  flash = ideal_flash;
  find_tag = λ buf tag. first (walk 9 buf 0) tag;
  random_gen = λ i n. replicate n (i % 256);
  hmac = λ md k m. (0, block 64 (k ++ m));
  md_get_size = λ md. 20;
  double_hash_pin = block 32;
  get_uint64_t_be = λ b. byte_at b 0;
  put_uint64_t_be = λ v. v ∷ [];
  get_uint32_t_be = λ b. byte_at b 0;
  serial_str = replicate 8 48;
  man = toy_man;
}

pub toy-IsUint64Be : IsUint64Be toy_oath
unfolding block
toy-IsUint64Be = λ v rest h. refl

abbrev pub command : ℕ → ℕ → ℕ → List ℕ → Apdu
command ins p1 p2 d = record { cla = 0; ins = ins; p1 = p1; p2 = p2; nc = length d; buffer = d }

abbrev pub oath : Bool → Contents → Oath
oath validated c = record {
  files = c;
  validated = validated;
  challenge = replicate 8 7;
  res = [];
  draws = 1;
}

-- A counter-based credential of the name "A" with 6 digits; its counter starts with 5.
abbrev pub hotp_file : List ℕ
hotp_file =
    0x71 ∷ 1 ∷ 65 ∷ 0x73 ∷ 4 ∷ 0x11 ∷ 6 ∷ 1 ∷ 2 ∷ 0x7a ∷ 8 ∷ 5 ∷ 0 ∷ 0 ∷ 0 ∷ 0 ∷ 0 ∷ 0 ∷ 0 ∷ []

-- That credential, the access code [1, 3], and the OTP PIN [5, 5] with `n` tries.
abbrev pub used_files : ℕ → Contents
used_files n = λ fid.
    if fid == ef_oath_cred
    then hotp_file
    else if fid == ef_oath_code
    then 1 ∷ 3 ∷ []
    else if fid == ef_otp_pin
    then n ∷ 5 ∷ 5 ∷ replicate 30 0
    else []

abbrev pub no_files : Contents
no_files = λ fid. []

abbrev pub give_pin : Apdu
give_pin = command 0xb2 0 0 (0x80 ∷ 2 ∷ 5 ∷ 5 ∷ [])
