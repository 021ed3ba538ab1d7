-- ===== src/MyKeys.antt =====
-- api/authenticated/v1/keys.go: the keys of a signed-in user. `subject` is the user of the session, if
-- there is one. The base64 spelling of the key data and the log are left out.
mod View
pub mod Shown
pub mod Scopes
mod Tests
use sshark_api.Base.{
  ℕ, Bool, true, false, not, ◌&&◌, Option, none, some, List, [], ◌∷◌, ◌++◌, if◌then◌else◌, map,
}
use sshark_api.Base.Text.{Text}
use sshark_api.Store.{
  KeyType, ssh, gpg, PublicKey, Error, key_not_found, source_not_found, M, Result, ok, err, pure,
  fail, attempt, of_result, ◌>>=◌,
}
use sshark_api.Tables.Keys
use sshark_api.Tables.Sources
use sshark_api.Tables.Sources.{Joined}
use sshark_api.Identity.{Clerk, Account, AccessToken, accounts, token, has_scope}
use sshark_api.KeyOps.{supports_revocation, revocation_scopes}
use sshark_api.Scraper.User.{is_nil}
use sshark_api.Task.Queue.{enqueue_refresh, enqueue_revoke}
use sshark_api.Task.Handlers.{TaskView, to_task}
use sshark_api.Api.{
  Response, json, problem, status_ok, internal_error, unauthorized_error, key_not_found_error,
}
use sshark_api.Public.{PublicSource, public_source}
unfoldable pub use View.*

abbrev pub max_keys_per_source : ℕ
max_keys_per_source = 200

abbrev pub status_accepted : ℕ
status_accepted = 202

pub record Candidate : Type 0 where
  pub account : Account
  pub verified : Bool

unfoldable pub list_own_keys : ℕ → KeyType → M (List PublicKey)
list_own_keys source type = do
  result ←
      Keys.search (record { source_id = some source; key_type = some type; algorithm = none })
        max_keys_per_source 0
  pure result.entities

-- The scopes that a grant reports to lack; a grant that reports none is taken to have them.
unfoldable pub missing_among : List Text → List Text → List Text
unfolding has_scope
missing_among scopes [] = []
missing_among scopes (scope ∷ required) =
    let rest : List Text = missing_among scopes required in
    if not (is_nil scopes) && not (has_scope scopes scope) then scope ∷ rest else rest

abbrev pub undescribed : Account → ConnectedAccount
undescribed account = record {
  provider = account.provider;
  username = account.username;
  can_revoke = false;
  missing_scopes = none;
}

abbrev pub with_missing : Account → List Text → ConnectedAccount
with_missing account [] = record (undescribed account) { can_revoke = true }
with_missing account (scope ∷ missing) = record (undescribed account) {
  missing_scopes = some (scope ∷ missing);
}

module _ (clerk : Clerk) where
  unfoldable pub describe_account : Text → Account → ConnectedAccount
  unfolding missing_among
  describe_account subject account =
      if not (supports_revocation account.provider)
      then undescribed account
      else elim (token clerk subject account.provider) [
        | err e ↦ undescribed account
        | ok t ↦ with_missing account (missing_among t.scopes (revocation_scopes account.provider))
      ]

  unfoldable pub resolve_candidates : Text → Result (List Candidate)
  resolve_candidates subject = elim (accounts clerk subject) [
    | err e ↦ err e
    | ok list ↦ ok (map (λ a. record { account = a; verified = true }) list)
  ]

-- One candidate of the loop of `buildResponse`, whose source is found.
unfoldable pub add_keys : Candidate → Joined → MyKeysResponse → M MyKeysResponse
unfolding list_own_keys to_my_ssh_key to_my_gpg_key
add_keys cand source response = do
  let revocable : Bool = cand.verified && supports_revocation cand.account.provider
  ssh_keys ← list_own_keys source.source.id ssh
  gpg_keys ← list_own_keys source.source.id gpg
  pure (record response {
    ssh_keys = response.ssh_keys ++ map (to_my_ssh_key source cand.verified revocable) ssh_keys;
    gpg_keys = response.gpg_keys ++ map (to_my_gpg_key source cand.verified revocable) gpg_keys;
  })

-- The account is described when the user has proved to own it.
abbrev pub with_account : Clerk → Text → Candidate → MyKeysResponse → MyKeysResponse
with_account clerk subject cand response =
    if cand.verified
    then record response {
      accounts = response.accounts ++ describe_account clerk subject cand.account ∷ [];
    }
    else response

module _ (clerk : Clerk) (subject : Text) where
  unfoldable pub build_response : List Candidate → MyKeysResponse → M MyKeysResponse
  unfolding add_keys describe_account
  build_response [] response = pure response
  build_response (cand ∷ rest) response = do
    found ←
        attempt (Sources.get_by_provider_and_username cand.account.provider cand.account.username)
    let described : MyKeysResponse = with_account clerk subject cand response
    added ← elim found [
      | ok source ↦ add_keys cand source described
      | err e ↦ elim e [ source_not_found ↦ pure described | other_error ↦ fail other_error ]
    ]
    build_response rest added

abbrev pub no_keys : MyKeysResponse
no_keys = record { accounts = []; ssh_keys = []; gpg_keys = [] }

unfoldable pub list_my_keys : Clerk → Option Text → M (Response MyKeysResponse)
unfolding resolve_candidates build_response
list_my_keys clerk none = pure (problem unauthorized_error)
list_my_keys clerk (some subject) = elim (resolve_candidates clerk subject) [
  | err e ↦ pure (problem internal_error)
  | ok candidates ↦ do
    built ← attempt (build_response clerk subject candidates no_keys)
    elim built [
      | err e ↦ pure (problem internal_error)
      | ok response ↦ pure (json status_ok response)
    ]
]

-- `unmarshal` reads the JSON of a task's result, and `uuid_string` spells an identifier.
module _ {R : Type 0} (unmarshal : Text → Option R) where
  unfoldable pub refresh_my_keys : Option Text → M (Response (TaskView R))
  refresh_my_keys none = pure (problem unauthorized_error)
  refresh_my_keys (some subject) = do
    queued ← attempt (enqueue_refresh subject)
    elim queued [
      | err e ↦ pure (problem internal_error)
      | ok task ↦ pure (json status_accepted (to_task unmarshal task))
    ]

  module _ (uuid_string : ℕ → Text) where
    unfoldable pub queue_revocation : Text → ℕ → M (Response (TaskView R))
    queue_revocation subject id = do
      queued ← attempt (enqueue_revoke uuid_string subject id)
      elim queued [
        | err e ↦ pure (problem internal_error)
        | ok task ↦ pure (json status_accepted (to_task unmarshal task))
      ]

    unfoldable pub revoke_my_key : Option Text → ℕ → M (Response (TaskView R))
    unfolding queue_revocation
    revoke_my_key none id = pure (problem unauthorized_error)
    revoke_my_key (some subject) id = do
      found ← attempt (Keys.get id)
      elim found [
        | ok key ↦ queue_revocation subject id
        | err e ↦ elim e [
          | key_not_found ↦ pure (problem key_not_found_error)
          | other_error ↦ pure (problem internal_error)
        ]
      ]
