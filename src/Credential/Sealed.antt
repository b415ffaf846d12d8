-- ===== src/Credential/Sealed.antt =====
-- Proofs about the identifiers of credential.c and their opening.
use pico_fido_microkey.Base.{
  ℕ, ◌+◌, ◌≤◌, ◌≡◌, ◌∙◌, refl, ap, sym, arith, false, some, List, ◌++◌, length, length-append,
  block, block-block, length-block, block-length, read_bytes, ltb,
}
use mathlib.Core.List.{append_assoc}
use pico_fido_microkey.Base.Exec.{ok}
use pico_fido_microkey.Cbor.{Items, get_int}
use pico_fido_microkey.Keys.{Fido}
use pico_fido_microkey.Credential.{
  CredSdk, cred_proto_22_s, overhead, cipher_len, derive_chacha_key, open_credential,
}
use pico_fido_microkey.Credential.Encode.{
  CredData, credential_items, rp_bytes, assemble, sealed_text, credential_create,
}
use pico_fido_microkey.Credential.Load.{
  no_data, credential_fields, parse_credential, credential_load,
}
use pico_fido_microkey.Credential.Extensions.{kept}
use pico_fido_microkey.Credential.Fields.{credential_fields-credential_items}
use pico_fido_microkey.Credential.Parts.{
  read_middle, five_parts, length-five_parts, overhead-new, identifier, identifier-assemble,
  identifier_parts,
}

module _ (sdk : CredSdk) where
  -- The key for an identifier is that of its format.
  key_of_format :
      (s : Fido) (rest : List ℕ)
      → derive_chacha_key sdk s (cred_proto_22_s ++ rest) ≡ derive_chacha_key sdk s cred_proto_22_s
  unfolding derive_chacha_key block
  key_of_format s rest = refl

  -- ChaCha20-Poly1305 opens what it sealed.
  pub record IsAead : Type 0 where
    pub opens :
        (key iv aad m c t : List ℕ)
        → sdk.seal key iv aad m ≡ (0, (c, t))
        → sdk.unseal key iv aad (block 16 t) (block (length m) c) ≡ (0, m)

  -- An identifier is opened by its parts.
  opens_parts :
      (s : Fido) (id rp_id_hash key iv cipher tag m : List ℕ) (n : ℕ)
      → (derive_chacha_key sdk s id).1 ≡ key
      → cipher_len id ≡ n
      → read_bytes id 4 12 ≡ iv
      → read_bytes id 16 n ≡ cipher
      → read_bytes id (16 + n) 16 ≡ tag
      → overhead id ≡ 48
      → 48 ≤ length id
      → length m ≡ n
      → sdk.unseal key iv (block 32 rp_id_hash) tag cipher ≡ (0, m)
      → open_credential sdk s id rp_id_hash ≡ ok (m ++ tag)
  unfolding open_credential
  opens_parts s id rp_id_hash key iv cipher tag m n k e a b c o l w h =
      let long : ltb (length id) 32 ≡ false = ground arith in
      let longer : ltb (length id) 48 ≡ false = ground arith in
      let whole = block-length m n w in rw (k, e, a, b, c, o, h, long, longer, whole, c) refl

  opened :
      (s : Fido) (iv cipher tag silent rp_id_hash m : List ℕ)
      → length iv ≡ 12
      → length tag ≡ 16
      → length silent ≡ 16
      → length cipher ≡ length m
      → sdk.unseal (derive_chacha_key sdk s cred_proto_22_s).1 iv (block 32 rp_id_hash) tag cipher
        ≡ (0, m)
      → open_credential sdk s (five_parts iv cipher tag silent) rp_id_hash ≡ ok (m ++ tag)
  unfolding cipher_len
  opened s iv cipher tag silent rp_id_hash m a b c l h =
      let id = five_parts iv cipher tag silent in
      let n = length m in
      let size = length-five_parts iv cipher tag silent a b c in
      let over = overhead-new (iv ++ (cipher ++ (tag ++ silent))) in
      let front = cred_proto_22_s ++ iv in
      let one = append_assoc cred_proto_22_s iv (cipher ++ (tag ++ silent)) in
      let two = append_assoc front cipher (tag ++ silent) in
      opens_parts s id rp_id_hash (derive_chacha_key sdk s cred_proto_22_s).1 iv cipher tag m n
        (ap (λ x. x.1) (key_of_format s (iv ++ (cipher ++ (tag ++ silent)))))
        (omega (arith, size, over, l))
        (read_middle cred_proto_22_s iv (cipher ++ (tag ++ silent)) 4 12 refl a)
        (ap (λ b. read_bytes b 16 n) (sym one)
          ∙ read_middle front cipher (tag ++ silent) 16 n (omega (arith, a)) l)
        (ap (λ b. read_bytes b (16 + n) 16) (sym one ∙ sym two)
          ∙ read_middle (front ++ cipher) tag silent (16 + n) 16
              (omega (arith, length-append front cipher, a, l)) b)
        over (omega (arith, size)) refl h

  -- The hash of the relying party of a credential.
  abbrev pub hash_of : CredData → List ℕ
  hash_of d = block 32 (sdk.keys.crypto.sha256 (rp_bytes d.rp_id)).1

  -- What is sealed for a credential.
  abbrev pub plain_of : CredData → Fido → List ℕ
  plain_of d s = sealed_text sdk (sdk.encode (credential_items d (hash_of d))) s

  abbrev pub iv_of : Fido → List ℕ
  iv_of s = block 12 (sdk.keys.crypto.random_gen s.device.draws 12)

  -- What was sealed for an identifier.
  abbrev pub sealed_of : CredData → Fido → ℕ × (List ℕ × List ℕ)
  sealed_of d s =
      sdk.seal (derive_chacha_key sdk s cred_proto_22_s).1 (iv_of s) (hash_of d) (plain_of d s)

  created_memory :
      (d : CredData) (id : List ℕ) (s : Fido)
      → (credential_create sdk d s).0 ≡ ok id
      → ((sealed_of d s).0 ≡ 0)
        × (id
            ≡ block (length (plain_of d s) + 48) (
                assemble sdk
                  (iv_of s)
                  (block (length (plain_of d s)) (sealed_of d s).1.0)
                  (sealed_of d s).1.1
                  (hash_of d)))
  unfolding credential_create
  created_memory d id s h = ground arith

  pub created :
      (d : CredData) (id : List ℕ) (s : Fido)
      → (credential_create sdk d s).0 ≡ ok id
      → ((sealed_of d s).0 ≡ 0)
        × (id
            ≡ identifier sdk
                (iv_of s)
                (block (length (plain_of d s)) (sealed_of d s).1.0)
                (sealed_of d s).1.1
                (hash_of d))
  created d id s h =
      let made = created_memory d id s h in
      let cipher = block (length (plain_of d s)) (sealed_of d s).1.0 in
      let whole = length-block (length (plain_of d s)) (sealed_of d s).1.0 in
      let memory = assemble sdk (iv_of s) cipher (sealed_of d s).1.1 (hash_of d) in
      (
        made.0,
        made.1
            ∙ ap (λ n. block (n + 48) memory) (sym whole)
            ∙ identifier-assemble sdk (iv_of s) cipher (sealed_of d s).1.1 (hash_of d),
      )

  loads :
      (t : Fido) (id rp_id_hash plain : List ℕ) (items : Items)
      → open_credential sdk t id rp_id_hash ≡ ok plain
      → sdk.parse plain ≡ some items
      → credential_load sdk t id rp_id_hash ≡ credential_fields items no_data
  unfolding credential_load parse_credential
  loads t id rp_id_hash plain items o p = ground (arith, o, p)

  -- A credential that was made is read again: from the identifier, for the relying party of the
  -- credential, comes what was put into it, as far as identifiers keep it. The key of the device must
  -- be the same, the map of the credential must be decoded as it was encoded, whatever follows it,
  -- and its algorithm and its curve must be integers of 64 bits.
  pub credential_load-credential_create :
      (aead : IsAead)
      → (d : CredData) (id : List ℕ) (s t : Fido)
      → ((rest : List ℕ)
          → sdk.parse (sdk.encode (credential_items d (hash_of d)) ++ rest)
            ≡ some (credential_items d (hash_of d)))
      → get_int d.alg ≡ ok d.alg
      → get_int d.curve ≡ ok d.curve
      → derive_chacha_key sdk t cred_proto_22_s ≡ derive_chacha_key sdk s cred_proto_22_s
      → (credential_create sdk d s).0 ≡ ok id
      → credential_load sdk t id (hash_of d) ≡ ok (kept d)
  unfolding sealed_text
  credential_load-credential_create aead d id s t parses a c k h =
      let hash = hash_of d in
      let plain = plain_of d s in
      let n = length plain in
      let key = (derive_chacha_key sdk s cred_proto_22_s).1 in
      let cipher = (sealed_of d s).1.0 in
      let tag = (sealed_of d s).1.1 in
      let made = created d id s h in
      let (silent, (size, same)) = identifier_parts sdk (iv_of s) (block n cipher) tag hash in
      let e =
        made.1
        ∙ same
        ∙ ap (λ i. five_parts i (block n cipher) (block 16 tag) silent) (block-block 12 _) in
      let sealed : sealed_of d s ≡ (0, (cipher, tag)) = ap (λ r. (r, (cipher, tag))) made.0 in
      let unsealed = aead.opens key (iv_of s) hash plain cipher tag sealed in
      let under : sdk.unseal (derive_chacha_key sdk t cred_proto_22_s).1 (iv_of s) (block 32 hash)
            (block 16 tag) (block n cipher)
          ≡ (0, plain) =
        ap (λ x. sdk.unseal x.1 (iv_of s) (block 32 hash) (block 16 tag) (block n cipher)) k
        ∙ ap (λ b. sdk.unseal key (iv_of s) b (block 16 tag) (block n cipher)) (block-block 32 _)
        ∙ unsealed in
      let open_it =
        ap (λ b. open_credential sdk t b hash) e
        ∙ opened t (iv_of s) (block n cipher) (block 16 tag) silent hash plain (length-block 12 _)
            (length-block 16 tag) size (length-block n cipher) under in
      let encoded = sdk.encode (credential_items d hash) in
      let extra = block 16 (sdk.beyond s.device.draws) in
      loads t id hash (plain ++ block 16 tag) (credential_items d hash) open_it
        (ap sdk.parse (append_assoc encoded extra (block 16 tag)) ∙ parses (extra ++ block 16 tag))
      ∙ credential_fields-credential_items d hash a c
