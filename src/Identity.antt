-- ===== src/Identity.antt =====
-- internal/infra/identity/clerk.go: which provider accounts a user has proved to own. What Clerk
-- answers is the input.
pub mod Accounts
mod Tests
use sshark_api.Base.{
  ℕ, Bool, true, false, not, ◌&&◌, Option, none, some, List, [], ◌∷◌, if◌then◌else◌, ◌≡◌, refl,
  find, any,
}
use sshark_api.Base.Text.{Text, codes, text_eq, is_empty, trim_space, join}
use sshark_api.Store.{Error, not_connected, Result, ok, err, provider_github, provider_gitlab}

-- What the program reads of a Clerk external account; `verification` is its status.
pub record ExternalAccount : Type 0 where
  pub provider : Text
  pub username : Option Text
  pub provider_user_id : Text
  pub verification : Option Text

pub record ClerkUser : Type 0 where
  pub first_name : Option Text
  pub last_name : Option Text
  pub image_url : Option Text
  pub created_at : ℕ
  pub external_accounts : List ExternalAccount

pub record AccessToken : Type 0 where
  pub token : Text
  pub scopes : List Text

-- Clerk: a user, and the tokens that it holds for a user and a strategy.
pub record Clerk : Type 0 where
  pub user : Text → Result ClerkUser
  pub access_tokens : Text → Text → Result (List AccessToken)

pub record Account : Type 0 where
  pub provider : Text
  pub username : Text
  pub user_id : Text

abbrev pub clerk_providers : List (Text × Text)
clerk_providers =
    (provider_github, codes "oauth_github") ∷ (provider_gitlab, codes "oauth_gitlab") ∷ []

unfoldable pub strategy_of : Text → Option Text
unfolding text_eq
strategy_of provider = elim (find (λ e. text_eq e.0 provider) clerk_providers) [
  | none ↦ none
  | some e ↦ some e.1
]

unfoldable pub provider_for : Text → Option Text
unfolding text_eq
provider_for clerk_provider = elim (find (λ e. text_eq e.1 clerk_provider) clerk_providers) [
  | none ↦ none
  | some e ↦ some e.0
]

unfoldable pub is_verified : ExternalAccount → Bool
unfolding text_eq
is_verified external = elim external.verification [
  | none ↦ false
  | some status ↦ text_eq status (codes "verified")
]

-- One round of the loop of `accountsOf`: the account, or `continue`.
unfoldable pub account_of : ExternalAccount → Option Account
unfolding provider_for is_verified is_empty
account_of external = elim (provider_for external.provider) [
  | none ↦ none
  | some provider ↦ elim external.username [
    | none ↦ none
    | some username ↦
        if is_empty username
        then none
        else if not (is_verified external)
        then none
        else some (record {
          provider = provider;
          username = username;
          user_id = external.provider_user_id;
        })
  ]
]

unfoldable pub accounts_of : List ExternalAccount → List Account
unfolding account_of
accounts_of [] = []
accounts_of (external ∷ rest) = elim (account_of external) [
  | none ↦ accounts_of rest
  | some account ↦ account ∷ accounts_of rest
]

unfoldable pub non_empty : List (Option Text) → List Text
unfolding is_empty
non_empty [] = []
non_empty (none ∷ values) = non_empty values
non_empty (some v ∷ values) = if is_empty v then non_empty values else v ∷ non_empty values

pub record Details : Type 0 where
  pub display_name : Text
  pub avatar_url : Text
  pub accounts : List Account
  pub created_at : ℕ

abbrev first_username : List Account → Text → Text
first_username [] name = name
first_username (a ∷ _) name = a.username

abbrev or_empty : Option Text → Text
or_empty none = []
or_empty (some t) = t

unfoldable pub details_of : ClerkUser → Details
unfolding accounts_of non_empty trim_space join is_empty
details_of usr =
    let accounts : List Account = accounts_of usr.external_accounts in
    let name : Text =
      trim_space (join (non_empty (usr.first_name ∷ usr.last_name ∷ [])) (codes " ")) in
    record {
      display_name = if is_empty name then first_username accounts name else name;
      avatar_url = or_empty usr.image_url;
      accounts = accounts;
      created_at = usr.created_at;
    }

module _ (clerk : Clerk) where
  unfoldable pub details : Text → Result Details
  unfolding details_of
  details user_id = elim (clerk.user user_id) [ ok usr ↦ ok (details_of usr) | err e ↦ err e ]

  unfoldable pub accounts : Text → Result (List Account)
  unfolding details
  accounts user_id = elim (details user_id) [ ok d ↦ ok d.accounts | err e ↦ err e ]

  unfoldable pub account : Text → Text → Result Account
  unfolding accounts
  account user_id provider = elim (accounts user_id) [
    | err e ↦ err e
    | ok list ↦ elim (find (λ a. text_eq a.provider provider) list) [
      | none ↦ err not_connected
      | some a ↦ ok a
    ]
  ]

  -- The first token that is not empty, and its scopes.
  unfoldable pub token : Text → Text → Result AccessToken
  unfolding strategy_of is_empty
  token user_id provider = elim (strategy_of provider) [
    | none ↦ err not_connected
    | some strategy ↦ elim (clerk.access_tokens user_id strategy) [
      | err e ↦ err e
      | ok list ↦ elim (find (λ t. not (is_empty t.token)) list) [
        | none ↦ err not_connected
        | some t ↦ ok t
      ]
    ]
  ]

unfoldable pub has_scope : List Text → Text → Bool
unfolding text_eq
has_scope scopes scope = any (λ s. text_eq s scope) scopes
