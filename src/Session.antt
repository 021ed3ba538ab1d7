-- ===== src/Session.antt =====
-- api/authenticated/v1/me.go: the page of the signed-in user. `subject` is the user of the session, if
-- there is one; what Clerk answers is the input. The log is left out.
pub mod ApiKeys
pub mod Email
pub mod Deletion
pub mod Lifetime
mod Tests
use sshark_api.Base.{ℕ, Option, none, some, List, [], ◌∷◌, ◌++◌, if◌then◌else◌}
use sshark_api.Base.Text.{Text, codes, text_eq}
use sshark_api.Store.{Profile, M, Result, ok, err, pure, attempt, ◌>>=◌}
use sshark_api.Identity.{Clerk}
use sshark_api.Claims.{ensure_profile}
use sshark_api.Api.{Response, json, failure, status_ok}

pub record EmailAddress : Type 0 where
  pub id : Text
  pub email_address : Text

-- What `Me` reads of a Clerk user.
pub record SessionUser : Type 0 where
  pub id : Text
  pub emails : List EmailAddress
  pub primary_email_id : Option Text
  pub first_name : Option Text
  pub last_name : Option Text
  pub image_url : Option Text
  pub created_at : ℕ

pub record UserResponse : Type 0 where
  pub id : Text
  pub email : Option Text
  pub first_name : Option Text
  pub last_name : Option Text
  pub username : Option Text
  pub profile_url : Text
  pub image_url : Option Text
  pub created_at : ℕ

-- The loop over the addresses, which dereferences the primary identifier in each round: `none` is the
-- panic of a nil pointer.
unfoldable pub primary_email : Option Text → List EmailAddress → Option (Option Text)
unfolding text_eq
primary_email primary [] = some none
primary_email none (email ∷ emails) = none
primary_email (some id) (email ∷ emails) =
    if text_eq email.id id then some (some email.email_address) else primary_email (some id) emails

abbrev pub user_response : SessionUser → Profile → Option Text → UserResponse
user_response usr profile email = record {
  id = usr.id;
  email = email;
  first_name = usr.first_name;
  last_name = usr.last_name;
  username = some profile.username;
  profile_url = codes "/@" ++ profile.username;
  image_url = usr.image_url;
  created_at = usr.created_at;
}

-- The answer; `none` where the handler panics.
unfoldable pub me :
    Clerk → (Text → Result SessionUser) → Option Text → M (Option (Response UserResponse))
unfolding primary_email
me clerk get_user none = pure (some (failure 401 (codes "unauthorized")))
me clerk get_user (some subject) = elim (get_user subject) [
  | err e ↦ pure (some (failure 500 (codes "failed to fetch user")))
  | ok usr ↦ do
    ensured ← attempt (ensure_profile clerk subject)
    elim ensured [
      | err e ↦ pure (some (failure 500 (codes "failed to load profile")))
      | ok profile ↦ elim (primary_email usr.primary_email_id usr.emails) [
        | none ↦ pure none
        | some email ↦ pure (some (json status_ok (user_response usr profile email)))
      ]
    ]
]
