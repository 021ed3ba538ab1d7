-- ===== src/Claims.antt =====
-- api/authenticated/v1/profile.go: the profile of a signed-in user, the name that it is given first,
-- and the name that its owner claims. A handler's `subject` is the user of the session, if there is
-- one.
pub mod Default
mod Tests
use sshark_api.Base.{
  ℕ, zero, suc, ◌+◌, Bool, true, false, Option, none, some, List, [], ◌∷◌, ◌++◌, ◌==◌,
  if◌then◌else◌, ◌≡◌, refl, ltb, take, drop, find, ◌&&◌,
}
use sshark_api.Base.Text.{Text, codes, text_eq, is_empty, len, itoa, has_prefix}
use sshark_api.Store.{
  Profile, Error, profile_not_found, source_not_found, username_taken, no_free_username, World, M,
  Result, ok, err, pure, fail, attempt, of_result, ignore, ◌>>=◌, ◌>>◌, new_id,
}
use sshark_api.Username.{
  Verdict, valid, username_invalid, username_reserved, validate_username, normalize_username,
  max_username_length,
}
use sshark_api.Tables.Profiles
use sshark_api.Tables.Sources
use sshark_api.Identity.{Clerk, Account, accounts}
use sshark_api.Api.{
  Response, json, no_content, problem, status_ok, internal_error, unauthorized_error,
  invalid_username_error, username_taken_error,
}

abbrev pub max_username_suffix : ℕ
max_username_suffix = 20

abbrev pub clerk_prefix : Text
clerk_prefix = codes "user_"

-- The bytes of a Clerk identifier are its characters.
unfoldable pub fallback_username : Text → Text
unfolding len has_prefix
fallback_username subject =
    let trimmed : Text =
      if ltb (len clerk_prefix) (len subject) && has_prefix subject clerk_prefix
      then drop (len clerk_prefix) subject
      else subject in
    let short : Text =
      if ltb max_username_length (len trimmed) then take max_username_length trimmed else trimmed in
    codes "user-" ++ short

abbrev pub is_valid : Verdict → Bool
is_valid valid = true
is_valid username_invalid = false
is_valid username_reserved = false

-- The first account with a usable name, or the fallback.
unfoldable pub first_candidate : Text → List Account → Text
unfolding validate_username fallback_username
first_candidate subject accounts =
    elim (find (λ a. is_valid (validate_username a.username)) accounts) [
      | none ↦ fallback_username subject
      | some a ↦ a.username
    ]

-- `candidate`, `candidate-2`, `candidate-3`, …
unfoldable pub numbered : Text → ℕ → Text
unfolding itoa
numbered candidate zero = candidate
numbered candidate (suc n) = candidate ++ (b'-' ∷ itoa (suc n + 1))

-- The loop over the suffixes, with the number of suffixes left to try.
unfoldable pub try_suffixes : Text → Text → ℕ → ℕ → M Text
try_suffixes subject candidate zero suffix = fail no_free_username
try_suffixes subject candidate (suc rounds) suffix =
    let next : M Text = try_suffixes subject candidate rounds (suffix + 1) in
    let name : Text = numbered candidate suffix in
    if is_valid (validate_username name)
    then (do
      available ← Profiles.is_username_available name subject
      if available then pure name else next)
    else next

unfoldable pub pick_default_username : Text → List Account → M Text
unfolding try_suffixes first_candidate
pick_default_username subject accounts =
    try_suffixes subject (first_candidate subject accounts) (max_username_suffix + 1) 0

-- The loop of `syncOwnership`: every error is logged, and the next account is taken.
unfoldable pub mark_sources : ℕ → List Account → M (Unit {0})
mark_sources profile [] = pure tt
mark_sources profile (a ∷ rest) = do
  found ← attempt (Sources.get_by_provider_and_username a.provider a.username)
  elim found [ err e ↦ pure tt | ok source ↦ ignore (Sources.set_profile source.id profile) ]
  mark_sources profile rest

unfoldable pub sync_ownership : ℕ → List Account → M (Unit {0})
unfolding mark_sources
sync_ownership profile list = do
  cleared ← attempt (Sources.clear_profile profile)
  elim cleared [ err e ↦ pure tt | ok _ ↦ mark_sources profile list ]

-- authenticated.MyProfile
pub record MyProfile : Type 0 where
  pub username : Text
  pub profile_url : Text

abbrev pub to_my_profile : Profile → MyProfile
to_my_profile p = record { username = p.username; profile_url = codes "/@" ++ p.username }

module _ (clerk : Clerk) where
  -- The rest of `ensureProfile`, where the user has no profile yet.
  unfoldable pub create_profile : Text → M Profile
  unfolding pick_default_username sync_ownership new_id
  create_profile subject = do
    list ← of_result (accounts clerk subject)
    username ← pick_default_username subject list
    id ← new_id
    created ← attempt (
        Profiles.create (record {
          id = id;
          clerk_user_id = subject;
          username = username;
          created_at = 0;
          updated_at = 0;
        }))
    elim created [
      | ok profile ↦ sync_ownership profile.id list >> pure profile
      | err e ↦ elim e [
        | username_taken ↦ Profiles.get_by_clerk_user_id subject
        | other_error ↦ fail other_error
      ]
    ]

  unfoldable pub ensure_profile : Text → M Profile
  unfolding create_profile
  ensure_profile subject = do
    found ← attempt (Profiles.get_by_clerk_user_id subject)
    elim found [
      | ok profile ↦ pure profile
      | err e ↦ elim e [
        | profile_not_found ↦ create_profile subject
        | other_error ↦ fail other_error
      ]
    ]

  -- `why` is the text of the verdict's error; the body is none where it does not bind.
  unfoldable pub set_my_username :
      (Verdict → Text) → Option Text → Option Text → M (Response MyProfile)
  unfolding ensure_profile validate_username normalize_username
  set_my_username why none body = pure (problem unauthorized_error)
  set_my_username why (some subject) none =
      pure (problem (invalid_username_error (codes "The request body must contain a username.")))
  set_my_username why (some subject) (some requested) =
      let username : Text = normalize_username requested in
      let verdict : Verdict = validate_username username in
      if is_valid verdict
      then (do
        ensured ← attempt (ensure_profile subject)
        elim ensured [
          | err e ↦ pure (problem internal_error)
          | ok _ ↦ do
            moved ← attempt (Profiles.set_username subject username)
            elim moved [
              | ok profile ↦ pure (json status_ok (to_my_profile profile))
              | err e ↦ elim e [
                | username_taken ↦ pure (problem (username_taken_error username))
                | other_error ↦ pure (problem internal_error)
              ]
            ]
        ])
      else pure (problem (invalid_username_error (why verdict)))

-- authenticated.UsernameAvailability
pub record Availability : Type 0 where
  pub username : Text
  pub available : Bool
  pub reason : Option Text

unfoldable pub check_username_available :
    (Verdict → Text) → Option Text → Text → M (Response Availability)
unfolding validate_username normalize_username
check_username_available why none requested = pure (problem unauthorized_error)
check_username_available why (some subject) requested =
    let username : Text = normalize_username requested in
    let verdict : Verdict = validate_username username in
    if is_valid verdict
    then (do
      asked ← attempt (Profiles.is_username_available username subject)
      elim asked [
        | err e ↦ pure (problem internal_error)
        | ok available ↦ pure (
            json status_ok (record {
              username = username;
              available = available;
              reason =
                  if available
                  then none
                  else some (codes "Someone else already holds this username.");
            }))
      ])
    else pure (
        json status_ok
          (record { username = username; available = false; reason = some (why verdict) }))

unfoldable pub delete_my_profile : Option Text → M (Response (Unit {0}))
delete_my_profile none = pure (problem unauthorized_error)
delete_my_profile (some subject) = do
  found ← attempt (Profiles.get_by_clerk_user_id subject)
  elim found [ err e ↦ pure tt | ok profile ↦ ignore (Sources.clear_profile profile.id) ]
  deleted ← attempt (Profiles.delete_by_clerk_user_id subject)
  elim deleted [ err e ↦ pure (problem internal_error) | ok _ ↦ pure no_content ]
