-- ===== src/Tests/CredMgmt.antt =====
-- Runs of the credential management.
use pico_fido_microkey.Base.{
  ◌≡◌, ◌+◌, refl, arith, true, false, inl, none, some, [], ◌∷◌, replicate, memcmp_eq,
}
use pico_fido_microkey.Base.Exec.{err, ok}
use pico_fido_microkey.Ctap.{not_allowed}
use pico_fido_microkey.ClientPin.Protocol.{verify}
use pico_fido_microkey.Files.{ef_rp}
use pico_fido_microkey.CredMgmt.{rps_next, is_tagged, may_manage_all}
use pico_fido_microkey.CredMgmt.Commands.{cbor_cred_mgmt}
use pico_fido_microkey.CredMgmt.Picked.{passing}
use pico_fido_microkey.CredMgmt.Rps.{visit, next_of, rp_reply, visit-live}
use pico_fido_microkey.CredMgmt.Access.{Refuses, payload_of, cbor_cred_mgmt-Unauthorised}
use pico_fido_microkey.Tests.CredToy.{toy_cred, rp_files, mgmt, request}

visit-live_example :
    ((visit toy_cred true (request 2 (2 ∷ replicate 15 0)) 1 mgmt).0
      ≡ ok (rp_reply rp_files (some 2) ef_rp) ∷ next_of rp_files (ef_rp + 5) ∷ [])
    × ((rps_next (visit toy_cred true (request 2 (2 ∷ replicate 15 0)) 1 mgmt).1).0
        ≡ err not_allowed)
unfolding is_tagged verify memcmp_eq may_manage_all passing
visit-live_example =
    visit-live toy_cred true (request 2 (2 ∷ replicate 15 0)) mgmt ef_rp ((ef_rp + 5) ∷ []) refl
      refl refl (omega arith)

cbor_cred_mgmt-Unauthorised_example :
    Refuses (cbor_cred_mgmt toy_cred (λ s n b. none) false 5 (request 6 (replicate 16 0))) mgmt
unfolding is_tagged verify memcmp_eq payload_of
cbor_cred_mgmt-Unauthorised_example =
    cbor_cred_mgmt-Unauthorised toy_cred (λ s n b. none) false 5 (request 6 (replicate 16 0)) mgmt
      refl (inl refl)
