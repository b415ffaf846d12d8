-- ===== src/Files.antt =====
-- files.h: the identifiers of the files.
use pico_fido_microkey.Base.{ℕ}

abbrev pub ef_pin : ℕ
ef_pin = 0x1080

abbrev pub ef_authtoken : ℕ
ef_authtoken = 0x1090

abbrev pub ef_minpinlen : ℕ
ef_minpinlen = 0x1100

abbrev pub ef_largeblob : ℕ
ef_largeblob = 0x1101

abbrev pub ef_dev_conf : ℕ
ef_dev_conf = 0x1122

abbrev pub ef_key_dev : ℕ
ef_key_dev = 0xcc00

abbrev pub ef_cred : ℕ
ef_cred = 0xcf00

abbrev pub ef_rp : ℕ
ef_rp = 0xd000

abbrev pub ef_mkek : ℕ
ef_mkek = 0xcc0f

abbrev pub ef_oath_cred : ℕ
ef_oath_cred = 0xba00

abbrev pub ef_oath_code : ℕ
ef_oath_code = 0xbaff

abbrev pub ef_otp_slot1 : ℕ
ef_otp_slot1 = 0xbb00

abbrev pub ef_otp_slot2 : ℕ
ef_otp_slot2 = 0xbb01

abbrev pub ef_otp_pin : ℕ
ef_otp_pin = 0x10a0

abbrev pub ef_ee_dev : ℕ
ef_ee_dev = 0xce00

abbrev pub ef_counter : ℕ
ef_counter = 0xc000
