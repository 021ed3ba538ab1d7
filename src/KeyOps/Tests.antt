-- ===== src/KeyOps/Tests.antt =====
-- The theorems on key operations at concrete tables.
use sshark_api.Base.{[], ◌∷◌, ◌≡◌, ◌⊎◌, refl, some, find, any, ◌==◌, false}
use sshark_api.Base.Text.{codes, text_eq, is_empty, equal_fold}
use sshark_api.Store.{ssh, provider_github, World, Profile}
use sshark_api.Tables.Keys
use sshark_api.Tables.Sources
use sshark_api.Identity.{accounts, account, token}
use sshark_api.KeyOps.{sync_ownership, RevokeSummary, revoke, refresh}
use sshark_api.KeyOps.Ownership.{Owns, IsQuiet}
use sshark_api.KeyOps.Revoke.{Refused, revoke-Owns, revoke-IsGone}
use sshark_api.KeyOps.Refresh.{RefreshEnds, refresh_lem}
use sshark_api.Tables.Profiles
use sshark_api.KeyOps.Owners.{OwnsHeldOnly}
use sshark_api.KeyOps.Owners.Rebuild.{sync_ownership-OwnsHeldOnly}
use sshark_api.Samples.{
  source, profile, ada_account, service, subject, silent, usr, clerk, world, key, other_key,
}

silent-IsQuiet : IsQuiet silent
silent-IsQuiet keys sources deletions n total message w i = (i, λ a same. tt)

revoke-Owns_example :
    Owns usr (key ∷ []) (world (key ∷ [])).sources 2
    ⊎ Refused service subject 2 silent
        (world (key ∷ []))
        (revoke service subject 2 silent (world (key ∷ [])))
revoke-Owns_example =
    revoke-Owns service subject 2 silent usr (world (key ∷ [])) silent-IsQuiet refl

abbrev summary : RevokeSummary
summary = record {
  provider = provider_github;
  username = codes "ada";
  key_type = ssh;
  already_gone = false;
}

revoke-IsGone_example :
    any
      (λ k. k.id == 2)
      (revoke service subject 2 silent (world (key ∷ other_key ∷ []))).1.public_keys
    ≡ false
revoke-IsGone_example =
    revoke-IsGone service subject 2 silent silent-IsQuiet (world (key ∷ other_key ∷ [])) summary (
      unfold revoke Keys.delete Keys.get Sources.get account token equal_fold text_eq is_empty in
      refl)

refresh_lem_example :
    RefreshEnds (accounts clerk subject) (refresh service subject silent (world (key ∷ []))).0
refresh_lem_example =
    refresh_lem service silent (λ n total message w. (tt, refl, tt)) subject (world (key ∷ []))

-- The profile owns a source that no account holds.
abbrev before : World
before = record (world []) {
  sources = source ∷ record source { id = 5; username = codes "bob"; profile_id = some 3 } ∷ [];
}

sync_ownership-OwnsHeldOnly_example :
    (p : Profile) × (find (λ p. text_eq p.clerk_user_id subject) (profile ∷ []) ≡ some p)
    × OwnsHeldOnly p.id
        (ada_account ∷ [])
        (sync_ownership subject (ada_account ∷ []) before).1.sources
sync_ownership-OwnsHeldOnly_example =
    sync_ownership-OwnsHeldOnly subject (ada_account ∷ []) before (refl, (refl, tt))
      (unfold sync_ownership Profiles.get_by_clerk_user_id Sources.get_by_provider_and_username
          Sources.set_profile Sources.clear_profile text_eq in
        refl)
