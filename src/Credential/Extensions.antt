-- ===== src/Credential/Extensions.antt =====
-- Proofs about the extensions of credential.c, and what an identifier keeps of a credential.
use pico_fido_microkey.Base.{
  ℕ, ◌≡◌, ◌∙◌, refl, ap, sym, inl, inr, Bool-cases, ==_iff, Bool, true, false, not, Option, none,
  some, List, [], ◌∷◌, length, ltb, bytes_eq, ◌==◌, if◌then◌else◌,
}
use pico_fido_microkey.Base.Exec.{ok}
use pico_fido_microkey.Cbor.{Items, uint, text, boolean, done}
use pico_fido_microkey.Credential.Encode.{
  CredExtensions, CredData, c_string, put_if, put_blob, put_hmac_secret, is_special, is_true,
  extension_items, max_cred_blob_length, alg_es256, curve_p256, cred_protect_key,
  large_blob_key_key, third_party_key,
}
use pico_fido_microkey.Credential.Load.{no_extensions, extension_field, extension_fields}

-- What an identifier keeps of a text: nothing if it is empty, and what comes before the first zero.
abbrev pub kept_text : Option (List ℕ) → Option (List ℕ)
kept_text none = none
kept_text (some []) = none
kept_text (some (x ∷ s)) = some (c_string (x ∷ s))

abbrev pub kept_bytes : Option (List ℕ) → Option (List ℕ)
kept_bytes none = none
kept_bytes (some []) = none
kept_bytes (some (x ∷ b)) = some (x ∷ b)

-- A blob of 128 bytes or more is not kept.
abbrev pub kept_blob : Option (List ℕ) → Option (List ℕ)
kept_blob none = none
kept_blob (some b) = if ltb (length b) max_cred_blob_length then some b else none

abbrev pub kept_flag : Option Bool → Option Bool
kept_flag o = if is_true o then some true else none

abbrev pub kept_extensions : CredExtensions → CredExtensions
kept_extensions e = record {
  hmac_secret = e.hmac_secret;
  cred_protect = e.cred_protect;
  cred_blob = kept_blob e.cred_blob;
  large_blob_key = kept_flag e.large_blob_key;
  third_party_payment = kept_flag e.third_party_payment;
}

abbrev pub kept_all : Option CredExtensions → Option CredExtensions
kept_all none = none
kept_all (some e) = some (kept_extensions e)

-- What is read of a credential again.
abbrev pub kept : CredData → CredData
kept d = record {
  rp_id = kept_text d.rp_id;
  user_id = kept_bytes d.user_id;
  user_name = kept_text d.user_name;
  user_display_name = kept_text d.user_display_name;
  creation = d.creation;
  extensions = kept_all d.extensions;
  use_sign_count = some (is_true d.use_sign_count);
  alg = if is_special d.alg d.curve then d.alg else alg_es256;
  curve = if is_special d.alg d.curve then d.curve else curve_p256;
  opts = d.opts;
}

third_read :
    (b : Bool) (e : CredExtensions)
    → e.third_party_payment ≡ none
    → extension_fields (put_if b (text third_party_key) (boolean true) done) e
      ≡ ok (record e { third_party_payment = if b then some true else none })
unfolding extension_fields extension_field bytes_eq
third_read true e h = refl
third_read false e h = ap (λ o. ok (record e { third_party_payment = o })) h

large_read :
    (b : Bool) (rest : Items) (e : CredExtensions)
    → e.large_blob_key ≡ none
    → extension_fields (put_if b (text large_blob_key_key) (boolean true) rest) e
      ≡ extension_fields rest (record e { large_blob_key = if b then some true else none })
unfolding extension_fields extension_field bytes_eq
large_read true rest e h = refl
large_read false rest e h = ap (λ o. extension_fields rest (record e { large_blob_key = o })) h

hmac_read :
    (o : Option Bool) (rest : Items) (e : CredExtensions)
    → e.hmac_secret ≡ none
    → extension_fields (put_hmac_secret o rest) e
      ≡ extension_fields rest (record e { hmac_secret = o })
unfolding extension_fields extension_field bytes_eq
hmac_read (some b) rest e h = refl
hmac_read none rest e h = ap (λ o. extension_fields rest (record e { hmac_secret = o })) h

protect_read :
    (n : ℕ) (rest : Items) (e : CredExtensions)
    → e.cred_protect ≡ 0
    → extension_fields (put_if (not (n == 0)) (text cred_protect_key) (uint n) rest) e
      ≡ extension_fields rest (record e { cred_protect = n })
unfolding extension_fields extension_field bytes_eq
protect_read n rest e h = elim (Bool-cases (n == 0)) [
  | inr f ↦ rw f refl
  | inl z ↦
      rw z (
        ap (λ k. extension_fields rest (record e { cred_protect = k }))
          (h ∙ sym ((==_iff n 0).0 z)))
]

blob_read :
    (o : Option (List ℕ)) (rest : Items) (e : CredExtensions)
    → e.cred_blob ≡ none
    → extension_fields (put_blob o rest) e
      ≡ extension_fields rest (record e { cred_blob = kept_blob o })
unfolding extension_fields extension_field bytes_eq
blob_read none rest e h = ap (λ o. extension_fields rest (record e { cred_blob = o })) h
blob_read (some b) rest e h = elim (Bool-cases (ltb (length b) 128)) [
  | inl t ↦ rw t refl
  | inr f ↦ rw f (ap (λ o. extension_fields rest (record e { cred_blob = o })) h)
]

-- The extensions of a credential are read as they were written.
pub extensions_read :
    (e : CredExtensions)
    → extension_fields (extension_items e) no_extensions ≡ ok (kept_extensions e)
unfolding extension_items
extensions_read e =
    blob_read e.cred_blob _ no_extensions refl
    ∙ protect_read e.cred_protect _ _ refl
    ∙ hmac_read e.hmac_secret _ _ refl
    ∙ large_read (is_true e.large_blob_key) _ _ refl
    ∙ third_read (is_true e.third_party_payment) _ refl
