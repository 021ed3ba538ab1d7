-- ===== src/Auth.antt =====
-- internal/middleware/auth.go: who is let through to the authenticated endpoints. Clerk's answers are
-- the input; the metrics are left out.
mod Tests
use sshark_api.Base.{
  ℕ, Bool, true, false, Option, none, some, if◌then◌else◌, ◌≡◌, ◌⊎◌, inl, inr, refl, arith,
  Bool-cases, Option-cases,
}
use sshark_api.Base.Text.{Text, codes, trim_space, trim_prefix, is_empty, has_prefix}
use sshark_api.Store.{Error, Result, ok, err}
use sshark_api.Store.Frame.{Result-cases}

-- What the program reads of a verified Clerk API key.
pub record ApiKey : Type 0 where
  pub subject : Text
  pub revoked : Bool
  pub expired : Bool

-- `apikey.Verify`, and `RequireHeaderAuthorization` on the header: the subject of the session, if it
-- calls the handler.
pub record Verifier : Type 0 where
  pub verify : Text → Result ApiKey
  pub session : Text → Option Text

-- The request is answered at once, by the middleware or by Clerk's, or passed on for a subject.
pub data Decision : Type 0 where
  abort : ℕ → Text → Decision
  session_refused : Decision
  pass : Text → Decision

unfoldable pub bearer_token : Text → Text
unfolding trim_space trim_prefix
bearer_token header = trim_prefix (trim_space header) (codes "Bearer ")

unfoldable pub check_key : ApiKey → Decision
check_key key =
    if key.revoked
    then abort 401 (codes "API key has been revoked")
    else if key.expired
    then abort 401 (codes "API key has expired")
    else pass key.subject

module _ (clerk_configured : Bool) (verifier : Verifier) where
  unfoldable pub require_auth : Text → Decision
  unfolding check_key bearer_token is_empty has_prefix
  require_auth header =
      let token : Text = bearer_token header in
      if clerk_configured
      then (if is_empty token
          then abort 401 (codes "missing authorization token")
          else if has_prefix token (codes "ak_")
          then elim (verifier.verify token) [
            | err e ↦ abort 401 (codes "invalid API key")
            | ok key ↦ check_key key
          ]
          else elim (verifier.session header) [
            | none ↦ session_refused
            | some subject ↦ pass subject
          ])
      else abort 503 (codes "authentication is not configured on this server: CLERK_TOKEN is unset")

  -- Clerk stands for the subject: by an API key that is neither revoked nor expired, or by a session.
  abbrev pub IsVouchedFor : Text → Text → Type 0
  IsVouchedFor header subject =
      ((key : ApiKey) × (verifier.verify (bearer_token header) ≡ ok key)
        × (key.revoked ≡ false)
        × (key.expired ≡ false)
        × (key.subject ≡ subject))
      ⊎ (verifier.session header ≡ some subject)

  check_key-pass :
      (key : ApiKey) (subject : Text)
      → check_key key ≡ pass subject
      → (key.revoked ≡ false) × (key.expired ≡ false) × (key.subject ≡ subject)
  unfolding check_key
  check_key-pass key subject h = ground arith

  -- A request gets past the middleware only where Clerk is configured and stands for the subject that
  -- the request is passed on with: by an API key that it verifies and that is neither revoked nor
  -- expired, or by the session of the header.
  pub require_auth-IsVouchedFor :
      (header subject : Text)
      → require_auth header ≡ pass subject
      → (clerk_configured ≡ true) × IsVouchedFor header subject
  unfolding require_auth
  require_auth-IsVouchedFor header subject h = elim (Bool-cases clerk_configured) [
    | inr off ↦ ground arith
    | inl on ↦ (
      on,
      elim (Bool-cases (has_prefix (bearer_token header) (codes "ak_"))) [
        | inl is_key ↦ elim (Result-cases (verifier.verify (bearer_token header))) [
          | inr (e, failed) ↦ ground arith
          | inl (key, verified) ↦
              let passed : check_key key ≡ pass subject = ground arith in
              let (a, b, c) = check_key-pass key subject passed in inl (key, verified, a, b, c)
        ]
        | inr is_session ↦ inr (ground arith)
      ],
    )
  ]
