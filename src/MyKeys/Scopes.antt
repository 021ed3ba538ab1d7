-- ===== src/MyKeys/Scopes.antt =====
-- Whether an account is said to be usable for a revocation, beside what the revocation demands.
use sshark_api.Base.{true, false, List, [], ◌∷◌, ◌≡◌, ◌↔◌, inl, inr, arith, Bool-cases, ◌∙◌, subst}
use sshark_api.Base.Text.{Text, text_eq}
use sshark_api.Store.{ssh, gpg, ok, provider_github}
use sshark_api.Store.Frame.{Result-cases}
use sshark_api.Identity.{Clerk, Account, AccessToken, token}
use sshark_api.KeyOps.{
  scope_for, required_scope, revocation_scopes, supports_revocation, lacks_scope,
}
use sshark_api.Scraper.User.{is_nil}
use sshark_api.MyKeys.{missing_among, with_missing, describe_account}

-- The revocation of a key of either type is allowed by the scopes of the grant.
abbrev pub AllowsRevocation : Text → List Text → Type 0
AllowsRevocation provider scopes =
    (lacks_scope scopes (required_scope provider ssh) ≡ false)
    × (lacks_scope scopes (required_scope provider gpg) ≡ false)

can_revoke-with_missing :
    (a : Account) (missing : List Text) → (with_missing a missing).can_revoke ≡ is_nil missing
can_revoke-with_missing a [] = ground arith
can_revoke-with_missing a (s ∷ missing) = ground arith

-- The scopes that the account's page reports missing are those that the revocation would miss.
missing_among-AllowsRevocation :
    (provider : Text) (scopes : List Text)
    → supports_revocation provider ≡ true
    → (is_nil (missing_among scopes (revocation_scopes provider)) ≡ true)
      ↔ AllowsRevocation provider scopes
unfolding missing_among revocation_scopes required_scope scope_for supports_revocation lacks_scope
missing_among-AllowsRevocation provider scopes supported =
    elim (Bool-cases (text_eq provider provider_github)) [
      | inl github ↦ ground arith
      | inr other ↦ ground arith
    ]

-- An account is reported as usable for revocations exactly if its provider supports them, Clerk holds
-- a token for it, and the scopes of that token pass the check that the revocation itself makes, for
-- SSH keys and for GPG keys alike.
pub describe_account_iff :
    (clerk : Clerk) (subject : Text) (a : Account)
    → ((describe_account clerk subject a).can_revoke ≡ true) ↔ (
        (supports_revocation a.provider ≡ true)
        × (t : AccessToken) × (token clerk subject a.provider ≡ ok t)
        × AllowsRevocation a.provider t.scopes)
unfolding describe_account
describe_account_iff clerk subject a = elim (Bool-cases (supports_revocation a.provider)) [
  | inr other ↦ (λ can. absurd (ground arith), λ h. absurd (ground arith))
  | inl supported ↦ elim (Result-cases (token clerk subject a.provider)) [
    | inr (e, failed) ↦ (λ can. absurd (ground arith), λ (s, t, found, allowed). absurd (cc))
    | inl (t, found) ↦
        let missing : List Text = missing_among t.scopes (revocation_scopes a.provider) in
        let (sound, complete) = missing_among-AllowsRevocation a.provider t.scopes supported in
        let shown : (describe_account clerk subject a).can_revoke ≡ is_nil missing =
          rw (supported, found) (can_revoke-with_missing a missing) in
        (
          λ can. (supported, t, found, sound (cc)),
          λ (s, u, held, allowed).
              let same : u ≡ t = cc in
              shown ∙ complete (subst (λ t. AllowsRevocation a.provider t.scopes) same allowed),
        )
  ]
]
