-- ===== src/Public.antt =====
-- api/public/v1: the endpoints on sources (sources.go) and on one key (sshkeysget.go). The base64
-- spelling of the key data, the headers and the log are left out.
pub mod Detail
pub mod Statistics
pub mod UserPage
pub mod Proven
pub mod Page
mod Tests
use sshark_api.Base.{
  ℕ, ◌+◌, ◌/◌, Bool, true, false, not, ◌&&◌, ◌||◌, Option, none, some, List, [], ◌∷◌, ◌++◌,
  if◌then◌else◌, ◌≡◌, refl, map, ltb, leb, length,
}
use sshark_api.Base.Text.{Text, codes, text_eq, is_empty}
use sshark_api.Store.{
  KeyType, ssh, gpg, PublicKey, SshMetadata, GpgMetadata, Error, key_not_found, source_not_found,
  profile_not_found, World, M, Result, ok, err, pure, fail, attempt, of_result, ◌>>=◌, ◌>>◌,
  provider_github, provider_gitlab, Profile, Source,
}
use sshark_api.Tables.Keys
use sshark_api.Tables.Sources
use sshark_api.Tables.Profiles
use sshark_api.Tables.Sources.{Joined, ListResult}
use sshark_api.Identity.{Clerk, Account, Details, details}
use sshark_api.Username.{normalize_username}
use sshark_api.Api.{
  Response, json, problem, failure, status_ok, internal_error, invalid_path_param_error,
  profile_not_found_error,
}

abbrev pub default_source_list_limit : ℕ
default_source_list_limit = 12

abbrev pub max_source_list_limit : ℕ
max_source_list_limit = 100

-- The limit that `ListSources` passes on: a missing one and one below 1 are the default.
unfoldable pub list_limit : Option ℕ → ℕ
list_limit none = default_source_list_limit
list_limit (some requested) =
    let limit : ℕ = if ltb requested 1 then default_source_list_limit else requested in
    if ltb max_source_list_limit limit then max_source_list_limit else limit

-- public.SourceSummary
pub record SourceSummary : Type 0 where
  pub id : ℕ
  pub provider : Text
  pub user_id : Text
  pub username : Text
  pub uri : Text
  pub created_at : ℕ

-- public.SourceListResponse
pub record SourceListResponse : Type 0 where
  pub entities : List SourceSummary
  pub total : ℕ

abbrev pub summary_of : Joined → SourceSummary
summary_of j = record {
  id = j.source.id;
  provider = j.source.provider;
  user_id = j.source.user_id;
  username = j.source.username;
  uri = j.source.uri;
  created_at = j.source.created_at;
}

unfoldable pub list_sources : Option ℕ → M (Response SourceListResponse)
unfolding list_limit
list_sources requested = do
  listed ← attempt (Sources.list (list_limit requested) 0)
  elim listed [
    | err e ↦ pure (problem internal_error)
    | ok result ↦ pure (
        json status_ok (record { entities = map summary_of result.entities; total = result.total }))
  ]

-- common.Source
pub record PublicSource : Type 0 where
  pub id : ℕ
  pub provider : Text
  pub username : Text
  pub uri : Text
  pub user_id : Text
  pub profile_username : Option Text

-- common.SSHPublicKey
pub record SshPublicKey : Type 0 where
  pub id : ℕ
  pub key_data : Text
  pub fingerprint : Text
  pub created_at : ℕ
  pub updated_at : ℕ
  pub published_by : PublicSource
  pub algorithm : Option Text
  pub comment : Option Text
  pub key_bits : Option ℕ

-- common.GPGPublicKey
pub record GpgPublicKey : Type 0 where
  pub id : ℕ
  pub key_data : Text
  pub fingerprint : Text
  pub created_at : ℕ
  pub updated_at : ℕ
  pub published_by : PublicSource
  pub algorithm : Option Text
  pub key_bits : Option ℕ
  pub expires_at : Option ℕ
  pub user_ids : Option (List Text)
  pub capabilities : Option (List Text)

abbrev pub public_source : Joined → PublicSource
public_source j = record {
  id = j.source.id;
  provider = j.source.provider;
  username = j.source.username;
  uri = j.source.uri;
  user_id = j.source.user_id;
  profile_username = j.profile_username;
}

-- These endpoints pass a source.
unfoldable pub entity_to_ssh_public_key : Joined → PublicKey → SshPublicKey
entity_to_ssh_public_key source entity = record {
  id = entity.id;
  key_data = entity.key_data;
  fingerprint = entity.fingerprint;
  created_at = entity.created_at;
  updated_at = entity.updated_at;
  published_by = public_source source;
  algorithm = elim entity.ssh_metadata [ none ↦ none | some m ↦ some m.algorithm ];
  comment = elim entity.ssh_metadata [ none ↦ none | some m ↦ some m.comment ];
  key_bits = elim entity.ssh_metadata [ none ↦ none | some m ↦ m.key_bits ];
}

unfoldable pub entity_to_gpg_public_key : Joined → PublicKey → GpgPublicKey
entity_to_gpg_public_key source entity = record {
  id = entity.id;
  key_data = entity.key_data;
  fingerprint = entity.fingerprint;
  created_at = entity.created_at;
  updated_at = entity.updated_at;
  published_by = public_source source;
  algorithm = elim entity.gpg_metadata [ none ↦ none | some m ↦ some m.algorithm ];
  key_bits = elim entity.gpg_metadata [ none ↦ none | some m ↦ m.key_bits ];
  expires_at = elim entity.gpg_metadata [ none ↦ none | some m ↦ m.expires_at ];
  user_ids = elim entity.gpg_metadata [ none ↦ none | some m ↦ some m.user_ids ];
  capabilities = elim entity.gpg_metadata [ none ↦ none | some m ↦ some m.capabilities ];
}

-- public.SourceDetail
pub record SourceDetail : Type 0 where
  pub id : ℕ
  pub provider : Text
  pub user_id : Text
  pub username : Text
  pub uri : Text
  pub created_at : ℕ
  pub updated_at : ℕ
  pub ssh_keys : List SshPublicKey
  pub gpg_keys : List GpgPublicKey

unfoldable pub is_supported_source_provider : Text → Bool
unfolding text_eq
is_supported_source_provider p = text_eq p provider_github || text_eq p provider_gitlab

unfoldable pub source_detail : Joined → M (Response SourceDetail)
unfolding entity_to_ssh_public_key entity_to_gpg_public_key
source_detail source = do
  ssh_listed ← attempt (Keys.list_by_source_id source.source.id ssh)
  elim ssh_listed [
    | err e ↦ pure (problem internal_error)
    | ok ssh_entities ↦ do
      gpg_listed ← attempt (Keys.list_by_source_id source.source.id gpg)
      elim gpg_listed [
        | err e ↦ pure (problem internal_error)
        | ok gpg_entities ↦ pure (
            json status_ok (record {
              id = source.source.id;
              provider = source.source.provider;
              user_id = source.source.user_id;
              username = source.source.username;
              uri = source.source.uri;
              created_at = source.source.created_at;
              updated_at = source.source.updated_at;
              ssh_keys = map (entity_to_ssh_public_key source) ssh_entities;
              gpg_keys = map (entity_to_gpg_public_key source) gpg_entities;
            }))
      ]
  ]

unfoldable pub get_source_by_provider_and_username : Text → Text → M (Response SourceDetail)
unfolding source_detail is_supported_source_provider is_empty
get_source_by_provider_and_username provider username =
    if not (is_supported_source_provider provider) || is_empty username
    then pure (problem invalid_path_param_error)
    else (do
      found ← attempt (Sources.get_by_provider_and_username provider username)
      elim found [
        | ok source ↦ source_detail source
        | err e ↦ elim e [
          | source_not_found ↦ pure (failure 404 (codes "source not found"))
          | other_error ↦ pure (problem internal_error)
        ]
      ])

unfoldable pub get_key : ℕ → M (Response PublicKey)
get_key id = do
  found ← attempt (Keys.get id)
  elim found [
    | ok key ↦ pure (json status_ok key)
    | err e ↦ elim e [
      | key_not_found ↦ pure (failure 404 (codes "key not found"))
      | other_error ↦ pure (problem internal_error)
    ]
  ]
