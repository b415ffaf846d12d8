-- ===== src/Credential/Parts.antt =====
-- Proofs about the layout of the identifiers of credential.c in memory.
use pico_fido_microkey.Base.{
  ℕ, zero, suc, ◌+◌, ◌≤◌, ◌≡◌, ◌∙◌, refl, ap, arith, true, List, [], ◌∷◌, ◌++◌, length,
  length-append, drop-append, block-front, block, block-append, length-block, read_bytes, bytes_eq,
  memcmp_eq, replicate,
}
use mathlib.Core.List.{append_assoc}
use pico_fido_microkey.Credential.{
  CredSdk, cred_proto_22_s, is_new_format, overhead, credential_silent_tag,
}
use pico_fido_microkey.Credential.Encode.{assemble}

-- The first bytes of two parts, with all of the first part.
block_both : (xs ys : List ℕ) (k m : ℕ) → k ≡ length xs + m → block k (xs ++ ys) ≡ xs ++ block m ys
unfolding block
block_both [] ys k m e = ap (λ j. block j ys) (e ∙ omega arith)
block_both (x ∷ xs) ys zero m e = absurd (omega arith)
block_both (x ∷ xs) ys (suc k) m e = ap (λ b. x ∷ b) (block_both xs ys k m (omega arith))

-- The bytes in the middle of three parts.
pub read_middle :
    (a b c : List ℕ) (o n : ℕ) → length a ≡ o → length b ≡ n → read_bytes (a ++ (b ++ c)) o n ≡ b
unfolding read_bytes
read_middle a b c o n e f = ap (block n) (drop-append a (b ++ c) o e) ∙ block-append b c n f

-- An identifier as it lies in memory, from its five parts.
abbrev pub five_parts : List ℕ → List ℕ → List ℕ → List ℕ → List ℕ
five_parts iv cipher tag silent = cred_proto_22_s ++ (iv ++ (cipher ++ (tag ++ silent)))

pub length-five_parts :
    (iv cipher tag silent : List ℕ)
    → length iv ≡ 12
    → length tag ≡ 16
    → length silent ≡ 16
    → length (five_parts iv cipher tag silent) ≡ length cipher + 48
length-five_parts iv cipher tag silent a b c = omega (
  arith,
  a,
  b,
  c,
  length-append iv (cipher ++ (tag ++ silent)),
  length-append cipher (tag ++ silent),
  length-append tag silent,
)

pub new_format : (rest : List ℕ) → is_new_format (cred_proto_22_s ++ rest) ≡ true
unfolding is_new_format memcmp_eq block bytes_eq
new_format rest = refl

pub front_format :
    (front rest : List ℕ)
    → is_new_format front ≡ true
    → 4 ≤ length front
    → is_new_format (front ++ rest) ≡ true
unfolding is_new_format memcmp_eq
front_format front rest f l =
    ap (λ b. bytes_eq b (block 4 cred_proto_22_s)) (block-front 4 front rest l) ∙ f

pub overhead-new : (rest : List ℕ) → overhead (cred_proto_22_s ++ rest) ≡ 48
unfolding overhead
overhead-new rest = rw (new_format rest) refl

module _ (sdk : CredSdk) where
  -- An identifier: the memory without what is behind its end.
  abbrev pub front_of : List ℕ → List ℕ → List ℕ → List ℕ
  front_of iv cipher tag = cred_proto_22_s ++ (block 12 iv ++ (cipher ++ block 16 tag))

  abbrev pub identifier : List ℕ → List ℕ → List ℕ → List ℕ → List ℕ
  identifier iv cipher tag rp_id_hash =
      let front = front_of iv cipher tag in
      front ++ block 16 (credential_silent_tag sdk (front ++ replicate 16 0) rp_id_hash)

  pub identifier-assemble :
      (iv cipher tag rp_id_hash : List ℕ)
      → block (length cipher + 48) (assemble sdk iv cipher tag rp_id_hash)
        ≡ identifier iv cipher tag rp_id_hash
  unfolding assemble
  identifier-assemble iv cipher tag rp_id_hash =
      let front = front_of iv cipher tag in
      block_both front (credential_silent_tag sdk (front ++ replicate 16 0) rp_id_hash)
        (length cipher + 48) 16
        (omega (
          arith,
          length-append (block 12 iv) (cipher ++ block 16 tag),
          length-append cipher (block 16 tag),
          length-block 12 iv,
          length-block 16 tag,
        ))

  pub identifier_parts :
      (iv cipher tag rp_id_hash : List ℕ)
      → (silent : List ℕ) × ((length silent ≡ 16)
          × (identifier iv cipher tag rp_id_hash
              ≡ five_parts (block 12 iv) cipher (block 16 tag) silent))
  identifier_parts iv cipher tag rp_id_hash =
      let t = block 16 tag in
      let i = block 12 iv in
      let front = cred_proto_22_s ++ (i ++ (cipher ++ t)) in
      let silent = block 16 (credential_silent_tag sdk (front ++ replicate 16 0) rp_id_hash) in
      (
        silent,
        (
          length-block 16 _,
          append_assoc cred_proto_22_s (i ++ (cipher ++ t)) silent
              ∙ ap (λ b. cred_proto_22_s ++ b)
                  (append_assoc i (cipher ++ t) silent
                    ∙ ap (λ b. i ++ b) (append_assoc cipher t silent)),
        ),
      )
