-- ===== src/CredMgmt/Picked.antt =====
-- Proofs about the loops of cbor_cred_mgmt.c over the files.
use pico_fido_microkey.Base.{
  ℕ, zero, suc, ◌+◌, ◌%◌, ◌<◌, ◌≡◌, ◌∙◌, refl, ap, sym, arith, Bool, Bool-cases, inl, inr, true,
  false, Option, none, some, List, [], ◌∷◌, length, ◌==◌, if◌then◌else◌,
}
use pico_fido_microkey.Sdk.{Contents}
use pico_fido_microkey.CredMgmt.{count_files, pick_file}

-- The files that pass a test, in their order.
unfoldable pub passing : (List ℕ → Bool) → ℕ → ℕ → Contents → List ℕ
passing test zero fid c = []
passing test (suc n) fid c =
    let rest = passing test n (fid + 1) c in if test (c fid) then fid ∷ rest else rest

abbrev pub nth : ℕ → List ℕ → Option ℕ
nth n [] = none
nth zero (x ∷ xs) = some x
nth (suc n) (x ∷ xs) = nth n xs

pub count_files-length :
    (test : List ℕ → Bool) (n fid : ℕ) (c : Contents)
    → count_files test n fid c ≡ length (passing test n fid c)
unfolding count_files passing
count_files-length test zero fid c = refl
count_files-length test (suc n) fid c = ground (arith, count_files-length test n (fid + 1) c)

-- A file that passes, and has another number.
pick_file-counted :
    (test : List ℕ → Bool) (n fid skip wanted : ℕ) (c : Contents)
    → test (c fid) ≡ true
    → skip + 1 < wanted
    → wanted < 256
    → pick_file test (suc n) fid skip wanted c ≡ pick_file test n (fid + 1) (skip + 1) wanted c
unfolding pick_file
pick_file-counted test n fid skip wanted c t l b =
    let e : (skip + 1) % 256 ≡ skip + 1 = omega arith in
    let other : (skip + 1 == wanted) ≡ false = ground arith in ground (arith, t, e, other)

pick_file-none :
    (test : List ℕ → Bool) (fid skip wanted : ℕ) (c : Contents)
    → pick_file test zero fid skip wanted c ≡ none
unfolding pick_file
pick_file-none test fid skip wanted c = refl

-- A file that does not pass.
pick_file-passed :
    (test : List ℕ → Bool) (n fid skip wanted : ℕ) (c : Contents)
    → test (c fid) ≡ false
    → pick_file test (suc n) fid skip wanted c ≡ pick_file test n (fid + 1) skip wanted c
unfolding pick_file
pick_file-passed test n fid skip wanted c f = ground arith

-- The file with the number.
pick_file-found :
    (test : List ℕ → Bool) (n fid skip : ℕ) (c : Contents)
    → test (c fid) ≡ true
    → skip + 1 < 256
    → pick_file test (suc n) fid skip (skip + 1) c ≡ some fid
unfolding pick_file
pick_file-found test n fid skip c t l =
    let e : (skip + 1) % 256 ≡ skip + 1 = omega arith in
    let same : (skip + 1 == skip + 1) ≡ true = ground arith in ground (arith, t, e, same)

passing-none :
    (test : List ℕ → Bool) (n fid : ℕ) (c : Contents)
    → test (c fid) ≡ false
    → passing test (suc n) fid c ≡ passing test n (fid + 1) c
unfolding passing
passing-none test n fid c f = ground arith

passing-front :
    (test : List ℕ → Bool) (n fid : ℕ) (c : Contents)
    → test (c fid) ≡ true
    → passing test (suc n) fid c ≡ fid ∷ passing test n (fid + 1) c
unfolding passing
passing-front test n fid c t = ground arith

passing-zero : (test : List ℕ → Bool) (fid : ℕ) (c : Contents) → passing test zero fid c ≡ []
unfolding passing
passing-zero test fid c = refl

pub nth-none : (k : ℕ) → nth k [] ≡ none
nth-none zero = refl
nth-none (suc k) = refl

-- The file that is picked is that with the number.
pub pick_file-nth :
    (test : List ℕ → Bool) (n fid skip k : ℕ) (c : Contents)
    → skip + k + 1 < 256
    → pick_file test n fid skip (skip + k + 1) c ≡ nth k (passing test n fid c)
pick_file-nth test zero fid skip k c l =
    pick_file-none test fid skip (skip + k + 1) c
    ∙ sym (ap (nth k) (passing-zero test fid c) ∙ nth-none k)
pick_file-nth test (suc n) fid skip zero c l = elim (Bool-cases (test (c fid))) [
  | inr f ↦
      pick_file-passed test n fid skip (skip + 0 + 1) c f
      ∙ pick_file-nth test n (fid + 1) skip 0 c l
      ∙ sym (ap (nth 0) (passing-none test n fid c f))
  | inl t ↦
      let sum : skip + 1 ≡ skip + 0 + 1 = omega arith in
      ap (λ w. pick_file test (suc n) fid skip w c) (sym sum)
      ∙ pick_file-found test n fid skip c t (omega arith)
      ∙ sym (ap (nth 0) (passing-front test n fid c t))
]
pick_file-nth test (suc n) fid skip (suc k) c l = elim (Bool-cases (test (c fid))) [
  | inr f ↦
      pick_file-passed test n fid skip (skip + suc k + 1) c f
      ∙ pick_file-nth test n (fid + 1) skip (suc k) c l
      ∙ sym (ap (nth (suc k)) (passing-none test n fid c f))
  | inl t ↦
      let sum : skip + 1 + k + 1 ≡ skip + suc k + 1 = omega arith in
      pick_file-counted test n fid skip (skip + suc k + 1) c t (omega arith) l
      ∙ ap (λ w. pick_file test n (fid + 1) (skip + 1) w c) (sym sum)
      ∙ pick_file-nth test n (fid + 1) (skip + 1) k c (omega arith)
      ∙ sym (ap (nth (suc k)) (passing-front test n fid c t))
]
