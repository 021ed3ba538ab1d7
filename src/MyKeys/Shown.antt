-- ===== src/MyKeys/Shown.antt =====
-- Whose keys a signed-in user is shown as their own.
use sshark_api.Base.{
  ℕ, Bool, true, false, ◌&&◌, some, List, [], ◌∷◌, ◌++◌, ◌≡◌, inl, inr, refl, sym, subst, arith,
  All, map, All-append,
}
use sshark_api.Base.Text.{Text}
use sshark_api.Store.{
  KeyType, ssh, gpg, PublicKey, Source, Error, source_not_found, World, M, Result, ok, err, pure,
  fail, attempt, ◌>>=◌,
}
use sshark_api.Store.Frame.{
  Ensures, Ensures-bind, Ensures-pure, Ensures-fail, Ensures-attempt, OnOk, Result-cases,
}
use sshark_api.Tables.Sources
use sshark_api.Tables.Sources.{Joined}
use sshark_api.Tables.Sources.Named.{TablesAre, IsRow, get-IsRow, find-HasNames}
use sshark_api.Tables.Keys
use sshark_api.Tables.Keys.Found.{filter_of}
use sshark_api.Api.{json}
use sshark_api.Identity.{Account, ExternalAccount, Clerk, ClerkUser, accounts}
use sshark_api.Identity.Accounts.{IsProvedBy, accounts_of-IsProvedBy, accounts-answer}
use sshark_api.KeyOps.{supports_revocation}
use sshark_api.Public.Proven.{
  IsStored, search-IsStored, IsProvenSource, IsProvenKey, map-IsProvenKey,
}
use sshark_api.MyKeys.{
  Candidate, MySshKey, MyGpgKey, MyKeysResponse, to_my_ssh_key, to_my_gpg_key, max_keys_per_source,
  list_own_keys, add_keys, with_account, build_response, no_keys, list_my_keys, resolve_candidates,
}

-- How an account's own key is shown: as verified, and as revocable exactly where the provider supports
-- that.
abbrev pub own_ssh : Joined → PublicKey → MySshKey
own_ssh j k = to_my_ssh_key j true (supports_revocation j.source.provider) k

abbrev pub own_gpg : Joined → PublicKey → MyGpgKey
own_gpg j k = to_my_gpg_key j true (supports_revocation j.source.provider) k

module _ (keys : List PublicKey) (sources : List Source) where
  abbrev I : World → Type 0
  I = TablesAre keys sources

  list_own_keys-IsStored :
      (source : ℕ) (type : KeyType)
      → Ensures I (All (IsStored keys sources source type)) (list_own_keys source type)
  unfolding list_own_keys
  list_own_keys-IsStored source type =
      let Stored : List PublicKey → Type 0 = All (IsStored keys sources source type) in
      Ensures-bind I (λ r. Stored r.entities) Stored
        (Keys.search (filter_of source type) max_keys_per_source 0) (λ r. pure r.entities)
        (search-IsStored keys sources source type max_keys_per_source 0)
        (λ r stored. Ensures-pure I Stored r.entities stored)

  module _ (externals : List ExternalAccount) where
    abbrev OwnSsh : MySshKey → Type 0
    OwnSsh = IsProvenKey keys sources externals ssh own_ssh

    abbrev OwnGpg : MyGpgKey → Type 0
    OwnGpg = IsProvenKey keys sources externals gpg own_gpg

    -- Every key shown is a stored one of its type, of a source that the user has proved to own.
    abbrev pub IsOwnList : MyKeysResponse → Type 0
    IsOwnList response = All OwnSsh response.ssh_keys × All OwnGpg response.gpg_keys

    abbrev pub IsProvenCandidate : Candidate → Type 0
    IsProvenCandidate cand = IsProvedBy externals cand.account × (cand.verified ≡ true)

    module _ (cand : Candidate) (source : Joined) (proven : IsProvenCandidate cand)
        (named : IsRow keys sources cand.account.provider cand.account.username source) where
      abbrev revocable : Bool
      revocable = cand.verified && supports_revocation cand.account.provider

      source-IsProven : IsProvenSource keys sources externals source
      source-IsProven = (cand.account, proven.0, named)

      -- The row has the provider of the account.
      same-revocable : revocable ≡ supports_revocation source.source.provider
      same-revocable =
          let names =
            find-HasNames cand.account.provider cand.account.username sources source.source named in
          rw (proven.1, names.0) refl

      ssh-IsOwn :
          (es : List PublicKey)
          → All (IsStored keys sources source.source.id ssh) es
          → All OwnSsh (map (to_my_ssh_key source cand.verified revocable) es)
      ssh-IsOwn es stored =
          subst (λ r. All OwnSsh (map (to_my_ssh_key source cand.verified r) es))
            (sym same-revocable)
            (subst
              (λ v.
                All OwnSsh
                  (map (to_my_ssh_key source v (supports_revocation source.source.provider)) es))
              (sym proven.1)
              (map-IsProvenKey keys sources externals ssh own_ssh source es source-IsProven stored))

      gpg-IsOwn :
          (es : List PublicKey)
          → All (IsStored keys sources source.source.id gpg) es
          → All OwnGpg (map (to_my_gpg_key source cand.verified revocable) es)
      gpg-IsOwn es stored =
          subst (λ r. All OwnGpg (map (to_my_gpg_key source cand.verified r) es))
            (sym same-revocable)
            (subst
              (λ v.
                All OwnGpg
                  (map (to_my_gpg_key source v (supports_revocation source.source.provider)) es))
              (sym proven.1)
              (map-IsProvenKey keys sources externals gpg own_gpg source es source-IsProven stored))

      add_keys-IsOwnList :
          (response : MyKeysResponse)
          → IsOwnList response
          → Ensures I IsOwnList (add_keys cand source response)
      unfolding add_keys
      add_keys-IsOwnList response before =
          let grown : List PublicKey → List PublicKey → MyKeysResponse = λ ssh_keys gpg_keys.
            record response {
              ssh_keys =
                  response.ssh_keys ++ map (to_my_ssh_key source cand.verified revocable) ssh_keys;
              gpg_keys =
                  response.gpg_keys ++ map (to_my_gpg_key source cand.verified revocable) gpg_keys;
            } in
          let id : ℕ = source.source.id in
          let Stored : KeyType → List PublicKey → Type 0 =
            λ type. All (IsStored keys sources id type) in
          Ensures-bind I (Stored ssh) IsOwnList (list_own_keys id ssh)
            (λ ssh_keys. list_own_keys id gpg >>= λ gpg_keys. pure (grown ssh_keys gpg_keys))
            (list_own_keys-IsStored id ssh)
            (λ ssh_keys ssh_stored.
              Ensures-bind I (Stored gpg) IsOwnList (list_own_keys id gpg)
                (λ gpg_keys. pure (grown ssh_keys gpg_keys)) (list_own_keys-IsStored id gpg)
                (λ gpg_keys gpg_stored. Ensures-pure I IsOwnList (grown ssh_keys gpg_keys) (
                  All-append OwnSsh response.ssh_keys
                      (map (to_my_ssh_key source cand.verified revocable) ssh_keys) before.0
                      (ssh-IsOwn ssh_keys ssh_stored),
                  All-append OwnGpg response.gpg_keys
                      (map (to_my_gpg_key source cand.verified revocable) gpg_keys) before.1
                      (gpg-IsOwn gpg_keys gpg_stored),
                )))

    -- Describing the account changes no list of keys.
    with_account-IsOwnList :
        (clerk : Clerk) (subject : Text) (cand : Candidate) (response : MyKeysResponse)
        → IsOwnList response
        → IsOwnList (with_account clerk subject cand response)
    with_account-IsOwnList clerk subject cand response before =
        elim cand.verified
          as (λ v. IsOwnList (with_account clerk subject (record cand { verified = v }) response)) [
            | true ↦ before
            | false ↦ before
          ]

    build_response-IsOwnList :
        (clerk : Clerk) (subject : Text) (list : List Candidate) (response : MyKeysResponse)
        → All IsProvenCandidate list
        → IsOwnList response
        → Ensures I IsOwnList (build_response clerk subject list response)
    unfolding build_response
    build_response-IsOwnList clerk subject [] response proven before =
        Ensures-pure I IsOwnList response before
    build_response-IsOwnList clerk subject (cand ∷ rest) response proven before =
        let provider : Text = cand.account.provider in
        let username : Text = cand.account.username in
        let described : MyKeysResponse = with_account clerk subject cand response in
        let unchanged : IsOwnList described =
          with_account-IsOwnList clerk subject cand response before in
        let refuse : Error → M MyKeysResponse =
          λ e. elim e [ source_not_found ↦ pure described | other_error ↦ fail other_error ] in
        let add : Result Joined → M MyKeysResponse =
          λ found. elim found [ ok source ↦ add_keys cand source described | err e ↦ refuse e ] in
        let find_source : M Joined = Sources.get_by_provider_and_username provider username in
        let Named : Joined → Type 0 = IsRow keys sources provider username in
        let refused : (e : Error) → Ensures I IsOwnList (refuse e) = λ e.
          elim e as (λ e. Ensures I IsOwnList (refuse e)) [
            | source_not_found ↦ Ensures-pure I IsOwnList described unchanged
            | other_error ↦ Ensures-fail I IsOwnList other_error
          ] in
        Ensures-bind I (OnOk Named) IsOwnList (attempt find_source)
          (λ found. add found >>= λ added. build_response clerk subject rest added)
          (Ensures-attempt I Named find_source (get-IsRow keys sources provider username))
          (λ found named.
            Ensures-bind I IsOwnList IsOwnList (add found)
              (λ added. build_response clerk subject rest added)
              ((elim found as (λ found. OnOk Named found → Ensures I IsOwnList (add found)) [
                | ok source ↦
                    λ named. add_keys-IsOwnList cand source proven.0 named described unchanged
                | err e ↦ λ named. refused e
              ])
                named)
              (λ added own. build_response-IsOwnList clerk subject rest added proven.1 own))

    candidates-IsProven :
        (list : List Account)
        → All (IsProvedBy externals) list
        → All IsProvenCandidate (map (λ a. record { account = a; verified = true }) list)
    candidates-IsProven [] proved = tt
    candidates-IsProven (a ∷ list) proved = ((proved.0, refl), candidates-IsProven list proved.1)

-- Every key that a signed-in user is shown as their own is a key stored in the table, of the type that it
-- is shown as, with its data and metadata, whose source is the row with the provider and the user name of
-- an account that Clerk reports as verified for that very user. It is shown under that source, as
-- verified, and as revocable exactly if the provider supports that. This holds whichever statements fail.
pub list_my_keys-IsOwnList :
    (clerk : Clerk) (subject : Text) (w : World) (status : ℕ) (response : MyKeysResponse)
    → (list_my_keys clerk (some subject) w).0 ≡ ok (json status response)
    → (usr : ClerkUser) × (clerk.user subject ≡ ok usr)
      × IsOwnList w.public_keys w.sources usr.external_accounts response
unfolding list_my_keys resolve_candidates
list_my_keys-IsOwnList clerk subject w status response h =
    elim (Result-cases (accounts clerk subject)) [
      | inr (e, failed) ↦ absurd (ground arith)
      | inl (list, answered) ↦
          let (usr, known, same) = accounts-answer clerk subject list answered in
          let candidates : List Candidate =
            map (λ a. record { account = a; verified = true }) list in
          let build : M MyKeysResponse = build_response clerk subject candidates no_keys in
          elim (Result-cases (build w).0) [
            | inr (e, failed) ↦ absurd (ground arith)
            | inl (built, done) ↦
                let shown : built ≡ response = ground arith in
                let own =
                  build_response-IsOwnList w.public_keys w.sources usr.external_accounts clerk
                    subject candidates no_keys
                    (candidates-IsProven w.public_keys w.sources usr.external_accounts list (
                      subst (All (IsProvedBy usr.external_accounts)) (sym same)
                        (accounts_of-IsProvedBy usr.external_accounts)))
                    (tt, tt) w (refl, refl) in
                (
                  usr,
                  known,
                  subst (IsOwnList w.public_keys w.sources usr.external_accounts) shown
                      (own.1 built done),
                )
          ]
    ]
