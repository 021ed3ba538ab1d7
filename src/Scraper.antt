-- ===== src/Scraper.antt =====
-- internal/infra/scraper: fetching users and their keys from a provider, and keeping the stored keys
-- in step. What a provider answers is the input, as a `Fetcher`.
pub mod Sync
pub mod User
mod Tests
use sshark_api.Base.{ℕ, Option, List}
use sshark_api.Base.Text.{Text}
use sshark_api.Store.{Error, Result}

-- internal/domain/scraper/fetcher.go
pub record FetchedKey : Type 0 where
  pub key_id : Text
  pub key_data : Text
  pub fingerprint : Text
  pub algorithm : Text
  pub comment : Text
  pub key_bits : Option ℕ
  pub expires_at : Option ℕ
  pub user_ids : List Text
  pub capabilities : List Text

pub record FetchedUser : Type 0 where
  pub user_id : Text
  pub username : Text
  pub uri : Text
  pub keys : List FetchedKey
  pub gpg_keys : List FetchedKey

pub record UsersPage : Type 0 where
  pub users : List FetchedUser
  pub next_cursor : Text

-- The answers of a provider during a call. `FetchUserKeys` and `FetchUserGPGKeys` fill in the user's
-- keys only where they succeed.
pub record Fetcher : Type 0 where
  pub provider : Text
  pub list_users : Text → ℕ → Result UsersPage
  pub fetch_user : Text → Result FetchedUser
  pub fetch_user_keys : FetchedUser → Result (List FetchedKey)
  pub fetch_user_gpg_keys : FetchedUser → Result (List FetchedKey)

-- internal/domain/scraper/service.go
pub record ScrapeResult : Type 0 where
  pub provider : Text
  pub username : Text
  pub keys_added : ℕ
  pub keys_updated : ℕ
  pub keys_removed : ℕ
  pub error : Option Error
