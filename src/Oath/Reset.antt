-- ===== src/Oath/Reset.antt =====
-- What a reset of oath.c leaves.
use pico_fido_microkey.Base.{
  ℕ, zero, suc, ◌+◌, ◌≡◌, ◌≤◌, ◌<◌, refl, arith, true, ◌&&◌, ◌||◌, none, List, [], leb, ltb, ◌==◌,
  if◌then◌else◌,
}
use pico_fido_microkey.Base.Exec.{ok, is_ok}
use pico_fido_microkey.Sdk.{Contents, IsFlash}
use pico_fido_microkey.Files.{ef_oath_cred, ef_oath_code, ef_otp_pin}
use pico_fido_microkey.Apdu.{Apdu}
use pico_fido_microkey.Oath.State.{OathSdk, Oath, max_oath_cred}
use pico_fido_microkey.Oath.Creds.{has_name, find_from, find_oath_cred, cmd_reset, reset_from}

module _ (sdk : OathSdk) where
  -- What a reset leaves.
  pub record Cleared (t : Oath) : Type 0 where
    pub no_creds : (name : List ℕ) → find_oath_cred sdk name t.files ≡ none
    pub no_code : t.files ef_oath_code ≡ []
    pub no_pin : t.files ef_otp_pin ≡ []
    pub opened : t.validated ≡ true

  module _ (laws : IsFlash sdk.flash) where
    -- A reset, from credential `i` on, empties the next `n` files and no other one.
    reset_from-file :
        (n i : ℕ) (s : Oath) (g : ℕ)
        → (reset_from sdk n i s).files g
          ≡ (if leb (ef_oath_cred + i) g && ltb g (ef_oath_cred + (i + n)) then [] else s.files g)
    unfolding reset_from
    reset_from-file zero i s g = ground arith
    reset_from-file (suc n) i s g =
        grind (arith, reset_from-file n (i + 1), laws.delete_lem s.files (ef_oath_cred + i) g)

    find_from_empty :
        (n i : ℕ) (name : List ℕ) (c : Contents)
        → ((g : ℕ) → ef_oath_cred + i ≤ g → g < ef_oath_cred + (i + n) → c g ≡ [])
        → find_from sdk n i name c ≡ none
    unfolding find_from has_name
    find_from_empty zero i name c h = refl
    find_from_empty (suc n) i name c h = ground (
      arith,
      h (ef_oath_cred + i) (omega arith) (omega arith),
      find_from_empty n (i + 1) name c λ g l u. h g (omega arith) (omega arith),
    )

    abbrev swept : Oath → Contents
    swept s =
        let c = (reset_from sdk max_oath_cred 0 s).files in
        sdk.flash.delete_file (sdk.flash.delete_file c ef_oath_code) ef_otp_pin

    swept-file :
        (s : Oath) (g : ℕ)
        → swept s g ≡ (
            if leb ef_oath_cred g && ltb g (ef_oath_cred + 256) || ef_otp_pin == g
            then []
            else s.files g)
    swept-file s g =
        let c = (reset_from sdk max_oath_cred 0 s).files in
        ground (
          arith,
          reset_from-file max_oath_cred 0 s g,
          laws.delete_lem c ef_oath_code g,
          laws.delete_lem (sdk.flash.delete_file c ef_oath_code) ef_otp_pin g,
        )

    cmd_reset-swept :
        (a : Apdu) (s : Oath)
        → a.p1 ≡ 0xde
        → a.p2 ≡ 0xad
        → cmd_reset sdk a s
          ≡ (ok tt, record (reset_from sdk max_oath_cred 0 s) { files = swept s; validated = true })
    unfolding cmd_reset
    cmd_reset-swept a s h1 h2 = ground arith

    -- A reset that carries its two magic bytes succeeds whatever the state: no credential is found any
    -- more under any name, the access code and the OTP PIN are gone, and access is open.
    pub cmd_reset-Cleared :
        (a : Apdu) (s : Oath)
        → a.p1 ≡ 0xde
        → a.p2 ≡ 0xad
        → (is_ok (cmd_reset sdk a s).0 ≡ true) × Cleared (cmd_reset sdk a s).1
    unfolding find_oath_cred
    cmd_reset-Cleared a s h1 h2 = rw (cmd_reset-swept a s h1 h2) (
      refl,
      record {
        no_creds = λ name.
            find_from_empty max_oath_cred 0 name (swept s) λ g l u. ground (arith, swept-file s g);
        no_code = swept-file s ef_oath_code;
        no_pin = swept-file s ef_otp_pin;
        opened = refl;
      },
    )
