-- ===== src/Otp/Modhex.antt =====
-- otp.c, lines 149 to 157: the alphabet of the keyboard.
use pico_fido_microkey.Base.{
  ℕ, suc, ◌+◌, ◌*◌, ◌/◌, ◌≡◌, refl, true, Bool, bit_and, List, [], ◌∷◌, byte_at, passes_upto,
  passes_upto-at, ◌==◌, ==_iff, if◌then◌else◌,
}
use pico_fido_microkey.Oath.Counter.{AllBytes}

-- c b d e f g h i j k l n r t u v
abbrev pub modhex_tab : List ℕ
modhex_tab =
    99 ∷ 98 ∷ 100 ∷ 101 ∷ 102 ∷ 103 ∷ 104 ∷ 105 ∷ 106 ∷ 107 ∷ 108 ∷ 110 ∷ 114 ∷ 116 ∷ 117 ∷ 118 ∷ []

unfoldable pub encode_modhex : List ℕ → List ℕ
encode_modhex [] = []
encode_modhex (x ∷ d) =
    byte_at modhex_tab (x / 16) ∷ byte_at modhex_tab (bit_and x 0xf) ∷ encode_modhex d

-- Where a character stands in the alphabet.
unfoldable pub index_from : List ℕ → ℕ → ℕ
index_from [] x = 0
index_from (y ∷ tab) x = let rest = index_from tab x in if y == x then 0 else suc rest

-- A reader of the alphabet: two characters are one byte.
unfoldable pub decode_modhex : List ℕ → List ℕ
decode_modhex [] = []
decode_modhex (x ∷ []) = []
decode_modhex (x ∷ y ∷ d) =
    (index_from modhex_tab x * 16 + index_from modhex_tab y) ∷ decode_modhex d

abbrev digits_test : ℕ → Bool
digits_test x =
    index_from modhex_tab (byte_at modhex_tab (x / 16)) * 16
      + index_from modhex_tab (byte_at modhex_tab (bit_and x 0xf))
    == x

digits_everywhere : passes_upto digits_test 256 ≡ true
unfolding passes_upto index_from
digits_everywhere = refl

-- What is typed in the alphabet of the keyboard can be read back: bytes that are encoded are decoded
-- again.
pub decode-encode_modhex : (d : List ℕ) → AllBytes d → decode_modhex (encode_modhex d) ≡ d
unfolding decode_modhex encode_modhex
decode-encode_modhex [] h = refl
decode-encode_modhex (x ∷ d) h =
    let e = (==_iff _ x).0 (passes_upto-at digits_test 256 x h.0 digits_everywhere) in
    rw (e, decode-encode_modhex d h.1) refl
