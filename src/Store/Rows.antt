-- ===== src/Store/Rows.antt =====
-- The entities of internal/domain as rows. A UUID is the number that its 16 bytes spell, and uuid.Nil
-- is 0; a time is a number of seconds; a pointer that may be nil is an `Option`.
use sshark_api.Base.{ℕ, Bool, Option, List}
use sshark_api.Base.Text.{Text, codes}

-- internal/domain/publickeys/entity.go, and the database's enumeration `key_type`.
pub data KeyType : Type 0 where
  ssh gpg : KeyType

pub record SshMetadata : Type 0 where
  pub algorithm : Text
  pub comment : Text
  pub options : List Text
  pub key_bits : Option ℕ

pub record GpgMetadata : Type 0 where
  pub algorithm : Text
  pub key_bits : Option ℕ
  pub expires_at : Option ℕ
  pub user_ids : List Text
  pub capabilities : List Text

-- A row of `public_keys` with its row of `ssh_key_metadata` or `gpg_key_metadata`.
pub record PublicKey : Type 0 where
  pub id : ℕ
  pub source_id : ℕ
  pub key_type : KeyType
  pub key_data : Text
  pub provider_key_id : Option Text
  pub fingerprint : Text
  pub created_at : ℕ
  pub updated_at : ℕ
  pub ssh_metadata : Option SshMetadata
  pub gpg_metadata : Option GpgMetadata

pub record ScrapeHistory : Type 0 where
  pub key_id : ℕ
  pub scraped_at : ℕ
  pub success : Bool
  pub key_changed : Bool

-- internal/domain/sources/entity.go; `ProfileUsername` is joined in when a row is read.
pub record Source : Type 0 where
  pub id : ℕ
  pub provider : Text
  pub user_id : Text
  pub username : Text
  pub uri : Text
  pub profile_id : Option ℕ
  pub created_at : ℕ
  pub updated_at : ℕ

-- internal/domain/profiles/entity.go
pub record Profile : Type 0 where
  pub id : ℕ
  pub clerk_user_id : Text
  pub username : Text
  pub created_at : ℕ
  pub updated_at : ℕ

-- internal/domain/tasks/entity.go
pub data Status : Type 0 where
  pending running succeeded failed : Status

pub data Kind : Type 0 where
  refresh_keys revoke_key : Kind

-- The error values of internal/domain, internal/infra/identity and internal/app/keyops. Wrapping an
-- error with `%w` keeps its identity for `errors.Is`, so a wrapped error is the error itself.
-- `database` is any failed statement but a broken UNIQUE constraint, and `other` any error that
-- carries none of the named ones.
pub data Error : Type 0 where
  database unique_violation : Error
  key_not_found source_not_found profile_not_found username_taken : Error
  task_not_found task_already_running : Error
  user_not_found rate_limited provider_unavailable : Error
  key_gone forbidden unsupported_provider : Error
  not_connected key_not_owned no_connected_accounts no_free_username : Error
  cancelled other : Error

-- A task's row. The column `error` holds the message of an error: here, the error.
pub record Task : Type 0 where
  pub id : ℕ
  pub clerk_user_id : Text
  pub kind : Kind
  pub dedup_key : Text
  pub status : Status
  pub progress : ℕ
  pub total : ℕ
  pub message : Option Text
  pub result : Option Text
  pub error : Option Error
  pub created_at : ℕ
  pub started_at : Option ℕ
  pub finished_at : Option ℕ
  pub updated_at : ℕ

-- The arguments of a queued job (internal/infra/jobs/jobs.go).
pub data JobArgs : Type 0 where
  refresh_keys_args : ℕ → Text → JobArgs
  revoke_key_args : ℕ → Text → ℕ → JobArgs

abbrev pub provider_github : Text
provider_github = codes "github"

abbrev pub provider_gitlab : Text
provider_gitlab = codes "gitlab"

-- A request sent to a provider to delete a key of the owner of a token.
pub record Deletion : Type 0 where
  pub token : Text
  pub key_type : KeyType
  pub key_id : Text
