-- ===== src/KeyOps.antt =====
-- internal/app/keyops/service.go: the operations that a user asks for on their own keys.
mod Provider
pub mod Ownership
pub mod Revoke
pub mod Refresh
pub mod Owners
mod Tests
use sshark_api.Base.{
  ℕ, suc, ◌+◌, Bool, true, false, not, ◌&&◌, ◌||◌, Option, none, some, List, [], ◌∷◌, ◌++◌, ◌==◌,
  if◌then◌else◌, ◌≡◌, refl, length,
}
use sshark_api.Base.Text.{Text, codes, text_eq, is_empty, equal_fold}
use sshark_api.Store.{
  KeyType, ssh, gpg, PublicKey, Source, Error, key_not_found, source_not_found, key_gone, forbidden,
  unsupported_provider, not_connected, key_not_owned, no_connected_accounts, World, M, Result, ok,
  err, pure, fail, attempt, of_result, ignore, ◌>>=◌, ◌>>◌, provider_github, provider_gitlab,
}
use sshark_api.Tables.Keys
use sshark_api.Tables.Sources
use sshark_api.Tables.Profiles
use sshark_api.Tables.Sources.{Joined}
use sshark_api.Identity.{Clerk, Account, AccessToken, accounts, account, token, has_scope}
use sshark_api.Task.Queue.{Reporter}
use sshark_api.Scraper.{Fetcher, ScrapeResult}
use sshark_api.Scraper.User.{scrape_user, is_nil}
unfoldable pub use Provider.*

-- `Identities` is what Clerk answers; `github` and `gitlab` are the clients of a token.
pub record Service : Type 0 where
  pub identities : Clerk
  pub scrapers : Text → Option Fetcher
  pub github : Text → KeyManager
  pub gitlab : Text → KeyManager

pub record RefreshSummary : Type 0 where
  pub accounts : ℕ
  pub keys_added : ℕ
  pub keys_updated : ℕ
  pub keys_removed : ℕ

pub record RevokeSummary : Type 0 where
  pub provider : Text
  pub username : Text
  pub key_type : KeyType
  pub already_gone : Bool

-- The key is unknown to the provider: no identifier and no error, or `ErrKeyGone`.
abbrev pub gone_is_empty : Result Text → Result Text
gone_is_empty (ok id) = ok id
gone_is_empty (err key_gone) = ok []
gone_is_empty (err e) = err e

abbrev pub not_owned : Error → Error
not_owned not_connected = key_not_owned
not_owned e = e

-- The loop of `syncOwnership`.
unfoldable pub own_sources : ℕ → List Account → M (Unit {0})
own_sources profile [] = pure tt
own_sources profile (a ∷ rest) = do
  found ← attempt (Sources.get_by_provider_and_username a.provider a.username)
  elim found [
    | ok joined ↦ Sources.set_profile joined.source.id profile >> own_sources profile rest
    | err e ↦ elim e [
      | source_not_found ↦ own_sources profile rest
      | other_error ↦ fail other_error
    ]
  ]

unfoldable pub sync_ownership : Text → List Account → M (Unit {0})
unfolding own_sources
sync_ownership subject list = do
  profile ← Profiles.get_by_clerk_user_id subject
  Sources.clear_profile profile.id
  own_sources profile.id list

abbrev pub add_counts : RefreshSummary → Result ScrapeResult → RefreshSummary
add_counts s (err _) = s
add_counts s (ok r) = record s {
  keys_added = s.keys_added + r.keys_added;
  keys_updated = s.keys_updated + r.keys_updated;
  keys_removed = s.keys_removed + r.keys_removed;
}

module _ (service : Service) where
  unfoldable pub new_key_manager : Text → Text → Result KeyManager
  unfolding text_eq
  new_key_manager provider token =
      if text_eq provider provider_github
      then ok (service.github token)
      else if text_eq provider provider_gitlab
      then ok (service.gitlab token)
      else err unsupported_provider

  -- Whether the provider no longer had the key.
  unfoldable pub delete_at_provider : Text → Text → PublicKey → M Bool
  unfolding new_key_manager resolve_provider_key_id request_delete required_scope is_empty
      lacks_scope token
  delete_at_provider subject provider entity = do
    access ← elim (token service.identities subject provider) [
      | ok t ↦ pure t
      | err e ↦ fail (not_owned e)
    ]
    manager ← of_result (new_key_manager provider access.token)
    if lacks_scope access.scopes (required_scope provider entity.key_type)
        then fail forbidden
        else pure tt
    key_id ← of_result (gone_is_empty (resolve_provider_key_id manager entity))
    if is_empty key_id then pure true else request_delete manager entity.key_type key_id

  -- The key, its source and the user's account there: who may revoke the key.
  unfoldable pub check_ownership : Text → ℕ → M (PublicKey × Joined)
  unfolding account equal_fold
  check_ownership subject key_id = do
    entity ← Keys.get key_id
    joined ← Sources.get entity.source_id
    owner ← elim (account service.identities subject joined.source.provider) [
      | ok a ↦ pure a
      | err e ↦ fail (not_owned e)
    ]
    if not (equal_fold owner.username joined.source.username)
        then fail key_not_owned
        else pure (entity, joined)

  -- The part of `Revoke` behind the checks.
  unfoldable pub revoke_owned : Text → ℕ → Reporter → PublicKey × Joined → M RevokeSummary
  unfolding delete_at_provider
  revoke_owned subject key_id report owned = do
    report 1 3 (codes "Deleting the key at " ++ owned.1.source.provider)
    already_gone ← delete_at_provider subject owned.1.source.provider owned.0
    report 2 3 (codes "Removing it from SShark")
    dropped ← attempt (Keys.delete key_id)
    elim dropped [
      | ok _ ↦ pure tt
      | err e ↦ elim e [ key_not_found ↦ pure tt | other_error ↦ fail other_error ]
    ]
    report 3 3 (codes "Done")
    pure (record {
      provider = owned.1.source.provider;
      username = owned.1.source.username;
      key_type = owned.0.key_type;
      already_gone = already_gone;
    })

  unfoldable pub revoke : Text → ℕ → Reporter → M RevokeSummary
  unfolding check_ownership revoke_owned
  revoke subject key_id report = do
    report 0 3 (codes "Checking ownership")
    owned ← check_ownership subject key_id
    revoke_owned subject key_id report owned

  -- The loop of `Refresh`, from the i-th account on.
  unfoldable pub refresh_accounts :
      Reporter → ℕ → ℕ → List Account → RefreshSummary → M RefreshSummary
  unfolding scrape_user
  refresh_accounts report total i [] summary = pure summary
  refresh_accounts report total i (a ∷ rest) summary =
      report i total (codes "Refreshing " ++ (a.provider ++ (b'/' ∷ a.username)))
      >> elim (service.scrapers a.provider) [
        | none ↦ refresh_accounts report total (i + 1) rest summary
        | some fetcher ↦ attempt (scrape_user fetcher a.provider a.username) >>= λ scraped.
            refresh_accounts report total (i + 1) rest (add_counts summary scraped)
      ]

  unfoldable pub refresh_all : Text → Reporter → List Account → M RefreshSummary
  unfolding refresh_accounts sync_ownership
  refresh_all subject report list = do
    report 0 (length list) (codes "Starting")
    summary ←
        refresh_accounts report (length list) 0 list
          (record { accounts = length list; keys_added = 0; keys_updated = 0; keys_removed = 0 })
    ignore (sync_ownership subject list)
    report (length list) (length list) (codes "Done")
    pure summary

  unfoldable pub refresh : Text → Reporter → M RefreshSummary
  unfolding refresh_all accounts
  refresh subject report = do
    list ← of_result (accounts service.identities subject)
    if is_nil list then fail no_connected_accounts else refresh_all subject report list
