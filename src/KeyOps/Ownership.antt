-- ===== src/KeyOps/Ownership.antt =====
-- The checks of a revocation let only the owner of a key through.
use sshark_api.Base.{
  ℕ, true, not, none, some, List, ◌==◌, if◌then◌else◌, ◌≡◌, subst, find, arith, Bool-cases, inl,
  inr, Option-cases,
}
use sshark_api.Base.Text.{Text, equal_fold}
use sshark_api.Store.{
  PublicKey, Source, Deletion, Env, statement, key_not_found, source_not_found, key_not_owned,
  World, M, Result, ok, err, ◌>>=◌, pure, fail,
}
use sshark_api.Store.Frame.{Result-cases, Ensures, Ensures-bind, Ensures-pure, Ensures-statement}
use sshark_api.Tables.Keys
use sshark_api.Tables.Sources
use sshark_api.Tables.Sources.{Joined}
use sshark_api.Identity.{ClerkUser, Account, account}
use sshark_api.Identity.Accounts.{IsProvedBy, account-IsProvedBy}
use sshark_api.Task.Queue.{Reporter}
use sshark_api.KeyOps.{Service, not_owned, check_ownership}

-- What a revocation changes stands in these tables, as they were at its start.
abbrev pub Unchanged : List PublicKey → List Source → List Deletion → World → Type 0
Unchanged keys sources deletions w =
    (w.public_keys ≡ keys) × (w.sources ≡ sources) × (w.deletions ≡ deletions)

-- A reporter that always returns, and writes none of the three.
abbrev pub IsQuiet : Reporter → Type 0
IsQuiet report =
    (keys : List PublicKey) (sources : List Source) (deletions : List Deletion) (n total : ℕ)
    (message : Text)
    → Ensures (Unchanged keys sources deletions) (λ u. Unit {0}) (report n total message)

-- The user is verified to hold the account that publishes the key.
pub record Owns (usr : ClerkUser) (keys : List PublicKey) (sources : List Source) (key_id : ℕ)
    : Type 0 where
  pub key : PublicKey
  pub source : Source
  pub owner : Account
  pub is_key : find (λ k. k.id == key_id) keys ≡ some key
  pub is_source : find (λ s. s.id == key.source_id) sources ≡ some source
  pub same_provider : owner.provider ≡ source.provider
  pub same_username : equal_fold owner.username source.username ≡ true
  pub proved : IsProvedBy usr.external_accounts owner

source_id-own_metadata : (k : PublicKey) → (Keys.own_metadata k).source_id ≡ k.source_id
source_id-own_metadata k = ground arith

module _ (keys : List PublicKey) (sources : List Source) (deletions : List Deletion) where
  abbrev I : World → Type 0
  I = Unchanged keys sources deletions

  abbrev keeps : (w : World) (e : Env) → I w → I (record w { env = e })
  keeps w e i = i

  abbrev IsKey : ℕ → PublicKey → Type 0
  IsKey id entity =
      (key : PublicKey) × (find (λ k. k.id == id) keys ≡ some key)
      × (entity.source_id ≡ key.source_id)

  get-IsKey : (id : ℕ) → Ensures I (IsKey id) (Keys.get id)
  unfolding Keys.get Keys.load_metadata
  get-IsKey id =
      let select : World → Result PublicKey × World = λ w.
        elim (find (λ k. k.id == id) w.public_keys) [
          | none ↦ (err key_not_found, w)
          | some k ↦ (ok k, w)
        ] in
      Ensures-bind I (λ k. find (λ k. k.id == id) keys ≡ some k) (IsKey id) (statement select)
        (λ row. Keys.load_metadata row)
        (Ensures-statement I keeps (λ k. find (λ k. k.id == id) keys ≡ some k) select
          (λ w i. elim (Option-cases (find (λ k. k.id == id) w.public_keys)) [
            | inl nothing ↦ rw nothing (i, λ a same. absurd (cc))
            | inr (k, row) ↦ rw row (
                Ensures-pure I (λ k. find (λ k. k.id == id) keys ≡ some k) k
                  (subst (λ rows. find (λ k. k.id == id) rows ≡ some k) i.0 row) w i)
          ]))
        (λ k found.
          Ensures-statement I keeps (IsKey id) (λ w. (ok (Keys.own_metadata k), w))
            (λ w i.
              Ensures-pure I (IsKey id) (Keys.own_metadata k) (k, found, source_id-own_metadata k) w
                i))

  abbrev IsSource : ℕ → Joined → Type 0
  IsSource id joined = find (λ s. s.id == id) sources ≡ some joined.source

  get-IsSource : (id : ℕ) → Ensures I (IsSource id) (Sources.get id)
  unfolding Sources.get
  get-IsSource id =
      let select : World → Result Joined × World = λ w. elim (find (λ s. s.id == id) w.sources) [
        | none ↦ (err source_not_found, w)
        | some s ↦ (ok (Sources.joined w s), w)
      ] in
      Ensures-statement I keeps (IsSource id) select (λ w i.
        elim (Option-cases (find (λ s. s.id == id) w.sources)) [
          | inl nothing ↦ rw nothing (i, λ a same. absurd (cc))
          | inr (s, row) ↦ rw row (
              Ensures-pure I (IsSource id) (Sources.joined w s)
                (subst (λ rows. find (λ s. s.id == id) rows ≡ some s) i.1 row) w i)
        ])

  module _ (service : Service) (usr : ClerkUser) (subject : Text) where
    abbrev the_account : Text → M Account
    the_account provider = elim (account service.identities subject provider) [
      | ok a ↦ pure a
      | err e ↦ fail (not_owned e)
    ]

    abbrev IsOwner : Text → Account → Type 0
    IsOwner provider a = (a.provider ≡ provider) × IsProvedBy usr.external_accounts a

    the_account-IsOwner :
        (provider : Text)
        → service.identities.user subject ≡ ok usr
        → Ensures I (IsOwner provider) (the_account provider)
    the_account-IsOwner provider known w i =
        elim (Result-cases (account service.identities subject provider)) [
          | inr (e, failed) ↦ rw (failed, the_account) (i, λ a same. absurd (cc))
          | inl (a, held) ↦
              rw (held, the_account)
                (Ensures-pure I (IsOwner provider) a
                  (account-IsProvedBy service.identities subject provider usr a known held) w i)
        ]

    pub check_ownership-Owns :
        (key_id : ℕ)
        → service.identities.user subject ≡ ok usr
        → Ensures I (λ o. Owns usr keys sources key_id) (check_ownership service subject key_id)
    unfolding check_ownership
    check_ownership-Owns key_id known =
        let Q : PublicKey × Joined → Type 0 = λ o. Owns usr keys sources key_id in
        let final : PublicKey → Joined → Account → M (PublicKey × Joined) = λ entity joined owner.
          if not (equal_fold owner.username joined.source.username)
          then fail key_not_owned
          else pure (entity, joined) in
        Ensures-bind I (IsKey key_id) Q (Keys.get key_id)
          (λ entity. Sources.get entity.source_id >>= λ joined.
            the_account joined.source.provider >>= final entity joined)
          (get-IsKey key_id)
          (λ entity (key, is_key, same).
            Ensures-bind I (IsSource entity.source_id) Q (Sources.get entity.source_id)
              (λ joined. the_account joined.source.provider >>= final entity joined)
              (get-IsSource entity.source_id)
              (λ joined is_source.
                Ensures-bind I (IsOwner joined.source.provider) Q
                  (the_account joined.source.provider) (final entity joined)
                  (the_account-IsOwner joined.source.provider known)
                  (λ owner proved w i.
                    elim (Bool-cases (equal_fold owner.username joined.source.username)) [
                      | inl same_name ↦ rw same_name (
                          Ensures-pure I Q (entity, joined)
                            (record {
                              key = key;
                              source = joined.source;
                              owner = owner;
                              is_key = is_key;
                              is_source =
                                  subst (λ id. find (λ s. s.id == id) sources ≡ some joined.source)
                                    same is_source;
                              same_provider = proved.0;
                              same_username = same_name;
                              proved = proved.1;
                            })
                            w i)
                      | inr other_name ↦ rw other_name (i, λ a same. absurd (cc))
                    ])))
