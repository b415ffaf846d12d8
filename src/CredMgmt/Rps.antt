-- ===== src/CredMgmt/Rps.antt =====
-- Proofs about the enumeration of relying parties in cbor_cred_mgmt.c.
use pico_fido_microkey.CredMgmt.Picked.{passing, nth, count_files-length, pick_file-nth}
use pico_fido_microkey.Base.{
  ℕ, zero, suc, ◌+◌, ◌%◌, ◌<◌, ◌≤◌, ◌≡◌, ◌∙◌, refl, ap, sym, arith, Bool, true, false, Option, none,
  some, List, [], ◌∷◌, map, length, drop, read_bytes, ltb, if◌then◌else◌,
}
use pico_fido_microkey.Base.Exec.{Result, ok, err}
use pico_fido_microkey.Sdk.{Contents}
use pico_fido_microkey.Files.{ef_rp}
use pico_fido_microkey.Ctap.{CtapError, not_allowed}
use pico_fido_microkey.Credential.{CredSdk}
use pico_fido_microkey.CredMgmt.{
  Mgmt, MgmtParams, MgmtReply, rp, files_of, is_live_rp, is_tagged, may_manage_all, count_files,
  pick_file, current_rp, start_rps, rps_begin, rps_next,
}

-- The answer about a relying party.
abbrev pub rp_reply : Contents → Option ℕ → ℕ → MgmtReply
rp_reply c total fid = rp (drop 33 (c fid)) (read_bytes (c fid) 1 32) total

-- The files of the relying parties.
abbrev pub live : Contents → List ℕ
live c = passing is_live_rp 256 ef_rp c

current_rp-reply :
    (begin : Bool) (s : Mgmt) (fid : ℕ)
    → pick_file is_live_rp 256 ef_rp 0 s.rp_counter (files_of s) ≡ some fid
    → current_rp begin s ≡ (
      ok (rp_reply (files_of s) (if begin then some s.rp_total else none) fid),
      record s { rp_counter = (s.rp_counter + 1) % 256 },
    )
unfolding current_rp
current_rp-reply begin s fid h = rw h refl

-- So many requests for the next relying party.
abbrev pub nexts : ℕ → Mgmt → List (Result CtapError MgmtReply) × Mgmt
nexts zero s = ([], s)
nexts (suc n) s = let (r, t) = rps_next s in let (rs, u) = nexts n t in (r ∷ rs, u)

-- The state in which the relying party with a number is next.
abbrev pub at : ℕ → ℕ → Mgmt → Mgmt
at k total s = record s { rp_counter = k + 1; rp_total = total }

next_reply :
    (k total fid : ℕ) (s : Mgmt)
    → length (live (files_of s)) < 256
    → k < total
    → total < 255
    → nth k (live (files_of s)) ≡ some fid
    → rps_next (at k total s) ≡ (ok (rp_reply (files_of s) none fid), at (k + 1) total s)
unfolding rps_next
next_reply k total fid s l h w e =
    let pick = pick_file-nth is_live_rp 256 ef_rp 0 k (files_of s) (omega arith) in
    let first : 0 + k + 1 ≡ k + 1 = omega arith in
    let wrap : (k + 1 + 1) % 256 ≡ k + 1 + 1 = omega arith in
    let picked = ap (λ n. pick_file is_live_rp 256 ef_rp 0 n (files_of s)) (sym first) ∙ pick ∙ e in
    let open_ : ltb total (k + 1) ≡ false = ground arith in
    rw open_ (
      current_rp-reply false (at k total s) fid picked
      ∙ ap
          (λ n.
            (ok (rp_reply (files_of s) none fid), record s { rp_counter = n; rp_total = total }))
          wrap)

-- A list from a place where it goes on.
nth-some :
    (k : ℕ) (xs : List ℕ)
    → k < length xs
    → (x : ℕ) × (nth k xs ≡ some x) × (drop k xs ≡ x ∷ drop (suc k) xs)
nth-some k [] l = absurd (omega arith)
nth-some zero (y ∷ ys) l = (y, refl, refl)
nth-some (suc k) (y ∷ ys) l = nth-some k ys (omega arith)

drop-all : (k : ℕ) (xs : List ℕ) → length xs ≤ k → drop k xs ≡ []
drop-all zero [] l = refl
drop-all zero (y ∷ ys) l = absurd (omega arith)
drop-all (suc k) [] l = refl
drop-all (suc k) (y ∷ ys) l = drop-all k ys (omega arith)

abbrev pub next_of : Contents → ℕ → Result CtapError MgmtReply
next_of c fid = ok (rp_reply c none fid)

abbrev replies : ℕ → Contents → List (Result CtapError MgmtReply)
replies k c = map (next_of c) (drop k (live c))

nexts-step :
    (n : ℕ) (s t u : Mgmt) (r : Result CtapError MgmtReply) (rs : List (Result CtapError MgmtReply))
    → rps_next s ≡ (r, t)
    → nexts n t ≡ (rs, u)
    → nexts (suc n) s ≡ (r ∷ rs, u)
nexts-step n s t u r rs h e =
    ap (λ (p : Result CtapError MgmtReply × Mgmt). let (q, v) = nexts n p.1 in (p.0 ∷ q, v)) h
    ∙ ap (λ (p : List (Result CtapError MgmtReply) × Mgmt). (r ∷ p.0, p.1)) e

-- The requests give the rest of the list.
nexts_from :
    (n k total : ℕ) (s : Mgmt)
    → length (live (files_of s)) ≡ total
    → total < 255
    → k + n ≡ total
    → nexts n (at k total s) ≡ (replies k (files_of s), at total total s)
nexts_from zero k total s l h e =
    let same : k ≡ total = omega arith in
    let none_left = drop-all k (live (files_of s)) (omega arith) in
    ap (λ xs. (map (next_of (files_of s)) xs, at k total s)) (sym none_left)
    ∙ ap (λ m. (replies k (files_of s), at m total s)) same
nexts_from (suc n) k total s l h e =
    let (fid, w, front) = nth-some k (live (files_of s)) (omega arith) in
    let step = next_reply k total fid s (omega arith) (omega arith) h w in
    let sum : k + 1 ≡ suc k = omega arith in
    let rest = nexts_from n (k + 1) total s l h (omega arith) in
    let reply : ℕ → Result CtapError MgmtReply = next_of (files_of s) in
    let tail : map reply (drop k (live (files_of s))) ≡ reply fid ∷ replies (k + 1) (files_of s) =
      ap (map reply) front ∙ ap (λ m. reply fid ∷ replies m (files_of s)) (sym sum) in
    nexts-step n (at k total s) (at (k + 1) total s) (at total total s) (reply fid)
      (replies (k + 1) (files_of s)) step rest
    ∙ ap (λ xs. (xs, at total total s)) (sym tail)

-- Past the last relying party.
next_refused :
    (total : ℕ) (s : Mgmt) → rps_next (at total total s) ≡ (err not_allowed, at total total s)
unfolding rps_next
next_refused total s = let past : ltb total (total + 1) ≡ true = ground arith in rw past refl

module _ (sdk : CredSdk) where
  -- The first request, and so many more.
  unfoldable pub visit : Bool → MgmtParams → ℕ → Mgmt → List (Result CtapError MgmtReply) × Mgmt
  visit preview p n s =
      let (r, t) = rps_begin sdk preview p s in let (rs, u) = nexts n t in (r ∷ rs, u)

  rps_begin-first :
      (preview : Bool) (p : MgmtParams) (s : Mgmt) (fid : ℕ) (rest : List ℕ)
      → is_tagged sdk p (0x02 ∷ []) s ≡ true
      → may_manage_all preview s ≡ true
      → live (files_of s) ≡ fid ∷ rest
      → length rest < 254
      → rps_begin sdk preview p s
        ≡ (ok (rp_reply (files_of s) (some (length rest + 1)) fid), at 1 (length rest + 1) s)
  unfolding rps_begin start_rps
  rps_begin-first preview p s fid rest tag may l n =
      let total : count_files is_live_rp 256 ef_rp (files_of s) % 256 ≡ length rest + 1 =
        ap (λ m. m % 256) (count_files-length is_live_rp 256 ef_rp (files_of s) ∙ ap length l)
        ∙ omega arith in
      let pick = pick_file-nth is_live_rp 256 ef_rp 0 0 (files_of s) (omega arith) ∙ ap (nth 0) l in
      rw (tag, may)
        (current_rp-reply true (start_rps s) fid pick
          ∙ ap (λ m. (ok (rp_reply (files_of s) (some m) fid), at 1 m s)) total)

  -- With a tag that holds and the right to manage, and at most 254 relying parties with credentials,
  -- the first request and those for the next one give each of them once, in the order of the files,
  -- with the total at the first; the request after the last one is refused.
  pub visit-live :
      (preview : Bool) (p : MgmtParams) (s : Mgmt) (fid : ℕ) (rest : List ℕ)
      → is_tagged sdk p (0x02 ∷ []) s ≡ true
      → may_manage_all preview s ≡ true
      → live (files_of s) ≡ fid ∷ rest
      → length rest < 254
      → ((visit preview p (length rest) s).0
          ≡ ok (rp_reply (files_of s) (some (length rest + 1)) fid)
            ∷ map (next_of (files_of s)) rest)
        × ((rps_next (visit preview p (length rest) s).1).0 ≡ err not_allowed)
  unfolding visit
  visit-live preview p s fid rest tag may l n =
      let total = length rest + 1 in
      let begun = rps_begin-first preview p s fid rest tag may l n in
      let size : length (live (files_of s)) ≡ total = ap length l ∙ omega arith in
      let others =
        nexts_from (length rest) 1 total s size (omega arith) (omega arith)
        ∙ ap (λ xs. (map (next_of (files_of s)) (drop 1 xs), at total total s)) l in
      rw (begun, others)
        (refl, ap (λ (r : Result CtapError MgmtReply × Mgmt). r.0) (next_refused total s))
