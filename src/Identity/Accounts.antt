-- ===== src/Identity/Accounts.antt =====
-- A user is only ever credited with accounts that Clerk reports as verified.
use sshark_api.Base.{
  Bool, true, false, some, List, [], ◌∷◌, ◌≡◌, ◌⊎◌, inl, inr, Bool-cases, subst, arith, find, All,
  All-weaken, Option-cases,
}
use sshark_api.Base.Text.{Text, codes, text_eq, text_eq_iff, is_empty}
use sshark_api.Store.{ok}
use sshark_api.Store.Frame.{Result-cases}
use sshark_api.Identity.{
  ExternalAccount, ClerkUser, Clerk, Account, provider_for, is_verified, account_of, accounts_of,
  details_of, account, accounts, details, Details,
}

-- The external account is verified, at a supported provider, and has the account's names.
pub record Proves (external : ExternalAccount) (a : Account) : Type 0 where
  pub verified : external.verification ≡ some (codes "verified")
  pub named : external.username ≡ some a.username
  pub not_empty : is_empty a.username ≡ false
  pub same_user : external.provider_user_id ≡ a.user_id
  pub supported : provider_for external.provider ≡ some a.provider

-- Some external account of the list proves the account.
abbrev pub IsProvedBy : List ExternalAccount → Account → Type 0
IsProvedBy [] a = ⊥
IsProvedBy (e ∷ es) a = Proves e a ⊎ IsProvedBy es a

verified_status :
    (e : ExternalAccount) → is_verified e ≡ true → e.verification ≡ some (codes "verified")
unfolding is_verified
verified_status e k = elim (Option-cases e.verification) [
  | inl missing ↦ ground arith
  | inr (status, found) ↦ ground (arith, text_eq_iff status (codes "verified"))
]

account_of-Proves : (e : ExternalAccount) (a : Account) → account_of e ≡ some a → Proves e a
unfolding account_of
account_of-Proves e a h = ground (arith, verified_status e)

pub accounts_of-IsProvedBy : (es : List ExternalAccount) → All (IsProvedBy es) (accounts_of es)
unfolding accounts_of
accounts_of-IsProvedBy [] = tt
accounts_of-IsProvedBy (e ∷ es) = elim (Option-cases (account_of e)) [
  | inl skipped ↦
      rw skipped (All-weaken (accounts_of es) (λ a p. inr p) (accounts_of-IsProvedBy es))
  | inr (a, kept) ↦ rw kept (
    inl (account_of-Proves e a kept),
    All-weaken (accounts_of es) (λ b p. inr p) (accounts_of-IsProvedBy es),
  )
]

pub find_sound {ℓ} :
    {A : Type ℓ} (P : A → Type 0) (p : A → Bool) (xs : List A) (x : A)
    → All P xs
    → find p xs ≡ some x
    → (p x ≡ true) × P x
find_sound P p [] x all h = absurd (cc)
find_sound P p (y ∷ ys) x all h = elim (Bool-cases (p y)) [
  | inl hit ↦ let same : y ≡ x = cc in (rw same at hit, subst P same all.0)
  | inr miss ↦ find_sound P p ys x all.1 (rw miss at h)
]

-- The account that is found for a user at a provider is at that provider, and is proved by an
-- external account that Clerk reports as verified, with a user name that is not empty.
pub account-IsProvedBy :
    (clerk : Clerk) (user_id provider : Text) (usr : ClerkUser) (a : Account)
    → clerk.user user_id ≡ ok usr
    → account clerk user_id provider ≡ ok a
    → (a.provider ≡ provider) × IsProvedBy usr.external_accounts a
unfolding account details_of
account-IsProvedBy clerk user_id provider usr a known found =
    let list : List Account = accounts_of usr.external_accounts in
    let at_provider : find (λ b. text_eq b.provider provider) list ≡ some a = ground arith in
    let (same, proved) =
      find_sound (IsProvedBy usr.external_accounts) (λ b. text_eq b.provider provider) list a
        (accounts_of-IsProvedBy usr.external_accounts) at_provider in
    ((text_eq_iff a.provider provider).0 same, proved)

-- The details of a user are those of what Clerk answers.
pub details-answer :
    (clerk : Clerk) (subject : Text) (d : Details)
    → details clerk subject ≡ ok d
    → (usr : ClerkUser) × (clerk.user subject ≡ ok usr)
      × (d.accounts ≡ accounts_of usr.external_accounts)
unfolding details details_of
details-answer clerk subject d h = elim (Result-cases (clerk.user subject)) [
  | inr (e, failed) ↦ absurd (ground arith)
  | inl (usr, known) ↦ (usr, known, ground arith)
]

pub accounts-answer :
    (clerk : Clerk) (subject : Text) (list : List Account)
    → accounts clerk subject ≡ ok list
    → (usr : ClerkUser) × (clerk.user subject ≡ ok usr) × (list ≡ accounts_of usr.external_accounts)
unfolding accounts
accounts-answer clerk subject list h = elim (Result-cases (details clerk subject)) [
  | inr (e, failed) ↦ absurd (ground arith)
  | inl (d, answered) ↦
      let (usr, known, same) = details-answer clerk subject d answered in (usr, known, ground arith)
]
