-- ===== src/Public/Page.antt =====
-- Whose keys the page of a profile shows.
use sshark_api.Base.{
  ℕ, some, List, [], ◌∷◌, ◌++◌, ◌≡◌, inl, inr, sym, subst, arith, find, All, map, All-append,
  Option-cases,
}
use sshark_api.Base.Text.{Text, equal_fold}
use sshark_api.Store.{
  KeyType, ssh, gpg, PublicKey, Source, Profile, Error, source_not_found, World, M, Result, ok, err,
  pure, fail, attempt, statement, ◌>>=◌,
}
use sshark_api.Store.Frame.{
  Ensures, Ensures-bind, Ensures-pure, Ensures-fail, Ensures-attempt, OnOk, Result-cases,
}
use sshark_api.Tables.Sources
use sshark_api.Tables.Sources.{Joined}
use sshark_api.Tables.Keys
use sshark_api.Tables.Keys.Found.{filter_of}
use sshark_api.Tables.Sources.Named.{TablesAre, IsRow, get-IsRow}
use sshark_api.Public.Proven.{
  IsStored, search-IsStored, IsProvenSource, IsProvenKey, map-IsProvenKey,
}
use sshark_api.Tables.Profiles
use sshark_api.Username.{normalize_username}
use sshark_api.Api.{json}
use sshark_api.Identity.{Account, ExternalAccount, Clerk, ClerkUser, details}
use sshark_api.Identity.Accounts.{IsProvedBy, accounts_of-IsProvedBy, details-answer}
use sshark_api.Public.{
  SshPublicKey, GpgPublicKey, entity_to_ssh_public_key, entity_to_gpg_public_key,
}
use sshark_api.Public.UserPage.{
  PublicProfile, max_profile_keys, list_keys, add_source, add_accounts, without_keys, not_empty,
  empty_page, get_user_profile,
}

module _ (keys : List PublicKey) (sources : List Source) where
  abbrev I : World → Type 0
  I = TablesAre keys sources

  list_keys-IsStored :
      (j : Joined) (type : KeyType)
      → Ensures I (All (IsStored keys sources j.source.id type)) (list_keys j type)
  unfolding list_keys
  list_keys-IsStored j type =
      let Stored : List PublicKey → Type 0 = All (IsStored keys sources j.source.id type) in
      Ensures-bind I (λ r. Stored r.entities) Stored
        (Keys.search (filter_of j.source.id type) max_profile_keys 0) (λ r. pure r.entities)
        (search-IsStored keys sources j.source.id type max_profile_keys 0)
        (λ r stored. Ensures-pure I Stored r.entities stored)

  module _ (externals : List ExternalAccount) where
    abbrev ProvenSsh : SshPublicKey → Type 0
    ProvenSsh = IsProvenKey keys sources externals ssh entity_to_ssh_public_key

    abbrev ProvenGpg : GpgPublicKey → Type 0
    ProvenGpg = IsProvenKey keys sources externals gpg entity_to_gpg_public_key

    -- Every key of the page is a stored one of its type, of a source that the user has proved to own.
    abbrev pub IsProvenPage : PublicProfile → Type 0
    IsProvenPage page = All ProvenSsh page.ssh_keys × All ProvenGpg page.gpg_keys

    add_source-IsProvenPage :
        (account : Account) (source : Joined) (page : PublicProfile)
        → IsProvenSource keys sources externals source
        → IsProvenPage page
        → Ensures I IsProvenPage (add_source account source page)
    unfolding add_source
    add_source-IsProvenPage account source page proven before =
        let Stored : KeyType → List PublicKey → Type 0 =
          λ type. All (IsStored keys sources source.source.id type) in
        let grown : List PublicKey → List PublicKey → PublicProfile = λ ssh_keys gpg_keys.
          record page {
            accounts =
                page.accounts
                ++ record {
                  provider = account.provider;
                  username = account.username;
                  uri = not_empty source.source.uri;
                }
                  ∷ [];
            ssh_keys = page.ssh_keys ++ map (entity_to_ssh_public_key source) ssh_keys;
            gpg_keys = page.gpg_keys ++ map (entity_to_gpg_public_key source) gpg_keys;
          } in
        Ensures-bind I (Stored ssh) IsProvenPage (list_keys source ssh)
          (λ ssh_keys. list_keys source gpg >>= λ gpg_keys. pure (grown ssh_keys gpg_keys))
          (list_keys-IsStored source ssh)
          (λ ssh_keys ssh_stored.
            Ensures-bind I (Stored gpg) IsProvenPage (list_keys source gpg)
              (λ gpg_keys. pure (grown ssh_keys gpg_keys)) (list_keys-IsStored source gpg)
              (λ gpg_keys gpg_stored. Ensures-pure I IsProvenPage (grown ssh_keys gpg_keys) (
                All-append ProvenSsh page.ssh_keys (map (entity_to_ssh_public_key source) ssh_keys)
                    before.0
                    (map-IsProvenKey keys sources externals ssh entity_to_ssh_public_key source
                      ssh_keys proven ssh_stored),
                All-append ProvenGpg page.gpg_keys (map (entity_to_gpg_public_key source) gpg_keys)
                    before.1
                    (map-IsProvenKey keys sources externals gpg entity_to_gpg_public_key source
                      gpg_keys proven gpg_stored),
              )))

    add_accounts-IsProvenPage :
        (list : List Account) (page : PublicProfile)
        → All (IsProvedBy externals) list
        → IsProvenPage page
        → Ensures I IsProvenPage (add_accounts list page)
    unfolding add_accounts
    add_accounts-IsProvenPage [] page proved before = Ensures-pure I IsProvenPage page before
    add_accounts-IsProvenPage (a ∷ list) page proved before =
        let refuse : Error → M PublicProfile = λ e. elim e [
          | source_not_found ↦ pure (without_keys a page)
          | other_error ↦ fail other_error
        ] in
        let add : Result Joined → M PublicProfile =
          λ found. elim found [ ok source ↦ add_source a source page | err e ↦ refuse e ] in
        let find_source : M Joined = Sources.get_by_provider_and_username a.provider a.username in
        let Named : Joined → Type 0 = IsRow keys sources a.provider a.username in
        let refused : (e : Error) → Ensures I IsProvenPage (refuse e) = λ e.
          elim e as (λ e. Ensures I IsProvenPage (refuse e)) [
            | source_not_found ↦ Ensures-pure I IsProvenPage (without_keys a page) before
            | other_error ↦ Ensures-fail I IsProvenPage other_error
          ] in
        Ensures-bind I (OnOk Named) IsProvenPage (attempt find_source)
          (λ found. add found >>= λ added. add_accounts list added)
          (Ensures-attempt I Named find_source (get-IsRow keys sources a.provider a.username))
          (λ found named.
            Ensures-bind I IsProvenPage IsProvenPage (add found) (λ added. add_accounts list added)
              ((elim found as (λ found. OnOk Named found → Ensures I IsProvenPage (add found)) [
                | ok source ↦
                    λ named. add_source-IsProvenPage a source page (a, proved.0, named) before
                | err e ↦ λ named. refused e
              ])
                named)
              (λ added shown. add_accounts-IsProvenPage list added proved.1 shown))

get_by_username-found :
    (name : Text) (w : World) (p : Profile)
    → (Profiles.get_by_username name w).0 ≡ ok p
    → find (λ p. equal_fold p.username name) w.profiles ≡ some p
unfolding Profiles.get_by_username Profiles.get_by statement
get_by_username-found name w p h =
    elim (Option-cases (find (λ p. equal_fold p.username name) w.profiles)) [
      | inl nobody ↦ ground arith
      | inr (q, held) ↦ ground arith
    ]

tables-get_by_username :
    (name : Text) (w : World)
    → TablesAre w.public_keys w.sources (Profiles.get_by_username name w).1
unfolding Profiles.get_by_username Profiles.get_by statement
tables-get_by_username name w = ground arith

-- Each key that the page of a profile shows is a key stored in the table, of the type that it is shown as,
-- with its data and metadata, whose source is the row with the provider and the user name of an
-- account which Clerk reports as verified for the profile's own user; and it is shown under that source.
-- This holds whichever statements fail, and however the name is spelled in the request.
pub get_user_profile-IsProvenPage :
    (clerk : Clerk) (username : Text) (w : World) (status : ℕ) (page : PublicProfile)
    → (get_user_profile clerk username w).0 ≡ ok (json status page)
    → (p : Profile) × (usr : ClerkUser) × (find
          (λ p. equal_fold p.username (normalize_username username))
          w.profiles
        ≡ some p)
      × (clerk.user p.clerk_user_id ≡ ok usr)
      × IsProvenPage w.public_keys w.sources usr.external_accounts page
unfolding get_user_profile
get_user_profile-IsProvenPage clerk username w status page h =
    let get : M Profile = Profiles.get_by_username (normalize_username username) in
    elim (Result-cases (get w).0) [
      | inr (e, failed) ↦ absurd (ground arith)
      | inl (p, found) ↦ elim (Result-cases (details clerk p.clerk_user_id)) [
        | inr (e, failed) ↦ absurd (ground arith)
        | inl (d, answered) ↦
            let (usr, known, same) = details-answer clerk p.clerk_user_id d answered in
            let fill : M PublicProfile = add_accounts d.accounts (empty_page p d) in
            elim (Result-cases (fill (get w).1).0) [
              | inr (e, failed) ↦ absurd (ground arith)
              | inl (filled, done) ↦
                  let shown : filled ≡ page = ground arith in
                  let proven =
                    add_accounts-IsProvenPage w.public_keys w.sources usr.external_accounts
                      d.accounts (empty_page p d)
                      (subst (All (IsProvedBy usr.external_accounts)) (sym same)
                        (accounts_of-IsProvedBy usr.external_accounts))
                      (tt, tt) (get w).1 (tables-get_by_username (normalize_username username) w) in
                  (
                    p,
                    usr,
                    get_by_username-found (normalize_username username) w p found,
                    known,
                    subst (IsProvenPage w.public_keys w.sources usr.external_accounts) shown
                        (proven.1 filled done),
                  )
            ]
      ]
    ]
