-- ===== src/Workers/Tests.antt =====
-- A revocation job at concrete tables.
use sshark_api.Base.{◌==◌, false, none, [], ◌∷◌, ◌≡◌, ◌⊎◌, refl, any}
use sshark_api.Store.{ok, err, Error, World}
use sshark_api.KeyOps.Ownership.{Owns}
use sshark_api.Workers.{work_revoke}
use sshark_api.Workers.Revocation.{work_revoke-Owns}
use sshark_api.Samples.{usr, world, key, other_key, service, subject}

abbrev tables : World
tables = world (key ∷ other_key ∷ [])

work_revoke-Owns_example :
    let done = work_revoke service (λ r. none) 4 subject 2 tables in
    (Owns usr tables.public_keys tables.sources 2
      ⊎ (((e : Error) × (done.0 ≡ err e))
          × (done.1.public_keys ≡ tables.public_keys)
          × (done.1.deletions ≡ tables.deletions)))
    × (done.0 ≡ ok tt → any (λ k. k.id == 2) done.1.public_keys ≡ false)
work_revoke-Owns_example = work_revoke-Owns service (λ r. none) 4 subject 2 usr tables refl
