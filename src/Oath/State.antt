-- ===== src/Oath/State.antt =====
-- oath.c, lines 28 to 65 and 193 to 204: the tags, the state, and what the application calls in the
-- SDK and in mbedtls.
use pico_fido_microkey.Base.{
  ℕ, bit_and, Bool, Option, none, some, List, ◌++◌, read_bytes, ◌==◌, if◌then◌else◌,
}
use pico_fido_microkey.Base.Exec.{Exec}
use pico_fido_microkey.Sdk.{Contents, Flash}
use pico_fido_microkey.Apdu.{Sw}
use pico_fido_microkey.Management.{ManSdk}

abbrev pub max_oath_cred : ℕ
max_oath_cred = 255

abbrev pub max_otp_counter : ℕ
max_otp_counter = 3

abbrev pub challenge_len : ℕ
challenge_len = 8

abbrev pub tag_name : ℕ
tag_name = 0x71

abbrev pub tag_name_list : ℕ
tag_name_list = 0x72

abbrev pub tag_key : ℕ
tag_key = 0x73

abbrev pub tag_challenge : ℕ
tag_challenge = 0x74

abbrev pub tag_response : ℕ
tag_response = 0x75

abbrev pub tag_no_response : ℕ
tag_no_response = 0x77

abbrev pub tag_property : ℕ
tag_property = 0x78

abbrev pub tag_t_version : ℕ
tag_t_version = 0x79

abbrev pub tag_imf : ℕ
tag_imf = 0x7a

abbrev pub tag_algo : ℕ
tag_algo = 0x7b

abbrev pub tag_touch_response : ℕ
tag_touch_response = 0x7c

abbrev pub tag_password : ℕ
tag_password = 0x80

abbrev pub tag_new_password : ℕ
tag_new_password = 0x81

abbrev pub tag_pin_counter : ℕ
tag_pin_counter = 0x82

-- `asn1_ctx_t` for a value: where it starts in the buffer that was searched, and its length.
pub record Tlv : Type 0 where
  pub offset : ℕ
  pub len : ℕ

abbrev pub tlv_data : List ℕ → Tlv → List ℕ
tlv_data buf t = read_bytes buf t.offset t.len

pub data Md : Type 0 where
  sha1 sha256 sha512 : Md

-- The state of oath.c, with the response that is being built; `apdu.ne` is its length.
pub record Oath : Type 0 where
  pub files : Contents
  pub validated : Bool
  pub challenge : List ℕ
  pub res : List ℕ
  -- How many calls of the random generator were made.
  pub draws : ℕ

pub record OathSdk : Type 0 where
  pub flash : Flash
  -- `asn1_find_tag`: the first value with the tag
  pub find_tag : List ℕ → ℕ → Option Tlv
  pub random_gen : ℕ → ℕ → List ℕ
  -- `mbedtls_md_hmac`: the return code and what `hmac[64]` then holds
  pub hmac : Md → List ℕ → List ℕ → ℕ × List ℕ
  pub md_get_size : Md → ℕ
  pub double_hash_pin : List ℕ → List ℕ
  pub get_uint64_t_be : List ℕ → ℕ
  pub put_uint64_t_be : ℕ → List ℕ
  pub get_uint32_t_be : List ℕ → ℕ
  pub serial_str : List ℕ
  pub man : ManSdk

abbrev pub Cmd : Type 0 → Type 0
Cmd A = Exec Oath Sw A

abbrev pub is_hotp : ℕ → Bool
is_hotp type = bit_and type 0xf0 == 0x10

-- `get_oath_md_info`
unfoldable pub get_oath_md_info : ℕ → Option Md
get_oath_md_info alg =
    let kind = bit_and alg 0x0f in
    if kind == 0x01
    then some sha1
    else if kind == 0x02
    then some sha256
    else if kind == 0x03
    then some sha512
    else none

module _ (sdk : OathSdk) where
  abbrev pub put_file : ℕ → List ℕ → Oath → Oath
  put_file fid d s = record s { files = sdk.flash.file_put_data s.files fid d }

  abbrev pub remove_file : ℕ → Oath → Oath
  remove_file fid s = record s { files = sdk.flash.delete_file s.files fid }

abbrev pub answer : List ℕ → Oath → Oath
answer d s = record s { res = s.res ++ d }
