-- ===== src/Credential/Fields.antt =====
-- Proofs about the map in a credential identifier of credential.c.
use pico_fido_microkey.Credential.Extensions.{
  kept_text, kept_bytes, kept_all, kept, extensions_read,
}
use pico_fido_microkey.Base.{
  ℕ, ◌≡◌, ◌∙◌, refl, ap, inl, inr, Bool-cases, Bool, Option, none, some, List, [], ◌∷◌, bytes_eq,
  if◌then◌else◌,
}
use pico_fido_microkey.Base.Exec.{ok}
use pico_fido_microkey.Cbor.{Item, Items, uint, bytes, boolean, done, next, get_int}
use pico_fido_microkey.Credential.Encode.{
  CredExtensions, CredData, put_text, put_bytes, put_extensions, put_opts, put_key_type, is_special,
  is_true, credential_items, alg_es256, curve_p256,
}
use pico_fido_microkey.Credential.Load.{no_data, option_fields, credential_field, credential_fields}

rp_read :
    (o : Option (List ℕ)) (rest : Items) (d : CredData)
    → d.rp_id ≡ none
    → credential_fields (put_text 0x01 o rest) d
      ≡ credential_fields rest (record d { rp_id = kept_text o })
unfolding credential_fields credential_field
rp_read none rest d h = ap (λ o. credential_fields rest (record d { rp_id = o })) h
rp_read (some []) rest d h = ap (λ o. credential_fields rest (record d { rp_id = o })) h
rp_read (some (x ∷ s)) rest d h = refl

user_read :
    (o : Option (List ℕ)) (rest : Items) (d : CredData)
    → d.user_id ≡ none
    → credential_fields (put_bytes 0x03 o rest) d
      ≡ credential_fields rest (record d { user_id = kept_bytes o })
unfolding credential_fields credential_field
user_read none rest d h = ap (λ o. credential_fields rest (record d { user_id = o })) h
user_read (some []) rest d h = ap (λ o. credential_fields rest (record d { user_id = o })) h
user_read (some (x ∷ s)) rest d h = refl

name_read :
    (o : Option (List ℕ)) (rest : Items) (d : CredData)
    → d.user_name ≡ none
    → credential_fields (put_text 0x04 o rest) d
      ≡ credential_fields rest (record d { user_name = kept_text o })
unfolding credential_fields credential_field
name_read none rest d h = ap (λ o. credential_fields rest (record d { user_name = o })) h
name_read (some []) rest d h = ap (λ o. credential_fields rest (record d { user_name = o })) h
name_read (some (x ∷ s)) rest d h = refl

display_read :
    (o : Option (List ℕ)) (rest : Items) (d : CredData)
    → d.user_display_name ≡ none
    → credential_fields (put_text 0x05 o rest) d
      ≡ credential_fields rest (record d { user_display_name = kept_text o })
unfolding credential_fields credential_field
display_read none rest d h = ap (λ o. credential_fields rest (record d { user_display_name = o })) h
display_read (some []) rest d h =
    ap (λ o. credential_fields rest (record d { user_display_name = o })) h
display_read (some (x ∷ s)) rest d h = refl

extensions_field :
    (o : Option CredExtensions) (rest : Items) (d : CredData)
    → d.extensions ≡ none
    → credential_fields (put_extensions o rest) d
      ≡ credential_fields rest (record d { extensions = kept_all o })
unfolding credential_fields credential_field
extensions_field none rest d h = ap (λ o. credential_fields rest (record d { extensions = o })) h
extensions_field (some e) rest d h = rw (h, extensions_read e) refl

opts_read :
    (o : Option (Option Bool)) (d : CredData)
    → d.opts ≡ none
    → credential_fields (put_opts o done) d ≡ ok (record d { opts = o })
unfolding credential_fields credential_field option_fields bytes_eq
opts_read none d h = ap (λ o. ok (record d { opts = o })) h
opts_read (some none) d h = rw h refl
opts_read (some (some b)) d h = refl

key_type_read :
    (alg curve : Item) (rest : Items) (d : CredData)
    → get_int alg ≡ ok alg
    → get_int curve ≡ ok curve
    → d.alg ≡ alg_es256
    → d.curve ≡ curve_p256
    → credential_fields (put_key_type alg curve rest) d
      ≡ credential_fields rest (record d {
        alg = if is_special alg curve then alg else alg_es256;
        curve = if is_special alg curve then curve else curve_p256;
      })
unfolding credential_fields credential_field
key_type_read alg curve rest d a c h k = elim (Bool-cases (is_special alg curve)) [
  | inl t ↦ rw (t, a, c) refl
  | inr f ↦ rw f (
      ap (λ o. credential_fields rest (record d { alg = o })) h
      ∙ ap (λ o. credential_fields rest (record d { alg = alg_es256; curve = o })) k)
]

hash_read :
    (b : List ℕ) (rest : Items) (d : CredData)
    → credential_fields (next (uint 0x02) (next (bytes b) rest)) d ≡ credential_fields rest d
unfolding credential_fields credential_field
hash_read b rest d = refl

time_read :
    (n : ℕ) (rest : Items) (d : CredData)
    → credential_fields (next (uint 0x06) (next (uint n) rest)) d
      ≡ credential_fields rest (record d { creation = n })
unfolding credential_fields credential_field
time_read n rest d = refl

count_read :
    (b : Bool) (rest : Items) (d : CredData)
    → credential_fields (next (uint 0x08) (next (boolean b) rest)) d
      ≡ credential_fields rest (record d { use_sign_count = some b })
unfolding credential_fields credential_field
count_read b rest d = refl

-- The map of a credential is read as it was written, whatever the hash of the relying party.
pub credential_fields-credential_items :
    (d : CredData) (rp_id_hash : List ℕ)
    → get_int d.alg ≡ ok d.alg
    → get_int d.curve ≡ ok d.curve
    → credential_fields (credential_items d rp_id_hash) no_data ≡ ok (kept d)
unfolding credential_items
credential_fields-credential_items d rp_id_hash a c =
    rp_read d.rp_id _ no_data refl
    ∙ hash_read _ _ _
    ∙ user_read d.user_id _ _ refl
    ∙ name_read d.user_name _ _ refl
    ∙ display_read d.user_display_name _ _ refl
    ∙ time_read d.creation _ _
    ∙ extensions_field d.extensions _ _ refl
    ∙ count_read (is_true d.use_sign_count) _ _
    ∙ key_type_read d.alg d.curve _ _ a c refl refl
    ∙ opts_read d.opts _ refl
