-- ===== src/Public/UserPage.antt =====
-- api/public/v1/userprofile.go: the public page of a profile.
use sshark_api.Base.{ℕ, ◌/◌, Option, none, some, List, [], ◌∷◌, ◌++◌, if◌then◌else◌, map, ltb}
use sshark_api.Base.Text.{Text}
use sshark_api.Store.{
  KeyType, ssh, gpg, PublicKey, source_not_found, profile_not_found, M, ok, err, pure, fail,
  attempt, ◌>>=◌, Profile,
}
use sshark_api.Tables.Keys
use sshark_api.Tables.Sources
use sshark_api.Tables.Profiles
use sshark_api.Tables.Sources.{Joined, ListResult}
use sshark_api.Identity.{Clerk, Account, Details, details}
use sshark_api.Username.{normalize_username}
use sshark_api.Api.{Response, json, problem, status_ok, internal_error, profile_not_found_error}
use sshark_api.Public.{
  SshPublicKey, GpgPublicKey, entity_to_ssh_public_key, entity_to_gpg_public_key,
}

abbrev pub max_profile_keys : ℕ
max_profile_keys = 200

-- public.ProfileAccount
pub record ProfileAccount : Type 0 where
  pub provider : Text
  pub username : Text
  pub uri : Option Text

-- public.PublicProfile
pub record PublicProfile : Type 0 where
  pub username : Text
  pub created_at : ℕ
  pub display_name : Option Text
  pub avatar_url : Option Text
  pub accounts : List ProfileAccount
  pub ssh_keys : List SshPublicKey
  pub gpg_keys : List GpgPublicKey

abbrev pub not_empty : Text → Option Text
not_empty [] = none
not_empty (c ∷ t) = some (c ∷ t)

unfoldable pub list_keys : Joined → KeyType → M (List PublicKey)
list_keys source type = do
  result ←
      Keys.search
        (record { source_id = some source.source.id; key_type = some type; algorithm = none })
        max_profile_keys 0
  pure result.entities

-- One account of the loop of `addAccounts`, whose source is found.
unfoldable pub add_source : Account → Joined → PublicProfile → M PublicProfile
unfolding list_keys entity_to_ssh_public_key entity_to_gpg_public_key
add_source account source response = do
  ssh_keys ← list_keys source ssh
  gpg_keys ← list_keys source gpg
  pure (record response {
    accounts =
        response.accounts
        ++ record {
          provider = account.provider;
          username = account.username;
          uri = not_empty source.source.uri;
        }
          ∷ [];
    ssh_keys = response.ssh_keys ++ map (entity_to_ssh_public_key source) ssh_keys;
    gpg_keys = response.gpg_keys ++ map (entity_to_gpg_public_key source) gpg_keys;
  })

abbrev pub without_keys : Account → PublicProfile → PublicProfile
without_keys account response = record response {
  accounts =
      response.accounts
      ++ record { provider = account.provider; username = account.username; uri = none } ∷ [];
}

unfoldable pub add_accounts : List Account → PublicProfile → M PublicProfile
unfolding add_source
add_accounts [] response = pure response
add_accounts (account ∷ rest) response = do
  found ← attempt (Sources.get_by_provider_and_username account.provider account.username)
  added ← elim found [
    | ok source ↦ add_source account source response
    | err e ↦ elim e [
      | source_not_found ↦ pure (without_keys account response)
      | other_error ↦ fail other_error
    ]
  ]
  add_accounts rest added

-- The page before its accounts; a time of Clerk's is in milliseconds, and is cut to the second.
abbrev pub empty_page : Profile → Details → PublicProfile
empty_page profile d = record {
  username = profile.username;
  created_at = if ltb 0 d.created_at then d.created_at / 1000 else profile.created_at;
  display_name = not_empty d.display_name;
  avatar_url = not_empty d.avatar_url;
  accounts = [];
  ssh_keys = [];
  gpg_keys = [];
}

unfoldable pub get_user_profile : Clerk → Text → M (Response PublicProfile)
unfolding add_accounts normalize_username
get_user_profile clerk username = do
  found ← attempt (Profiles.get_by_username (normalize_username username))
  elim found [
    | err e ↦ elim e [
      | profile_not_found ↦ pure (problem profile_not_found_error)
      | other_error ↦ pure (problem internal_error)
    ]
    | ok profile ↦ elim (details clerk profile.clerk_user_id) [
      | err e ↦ pure (problem internal_error)
      | ok d ↦ do
        filled ← attempt (add_accounts d.accounts (empty_page profile d))
        elim filled [ err e ↦ pure (problem internal_error) | ok page ↦ pure (json status_ok page) ]
    ]
  ]
