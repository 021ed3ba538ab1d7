-- ===== src/KeyManagers/Fingerprints.antt =====
-- A key that the scraper stored is found again among the owner's keys at the provider.
use sshark_api.Base.{
  true, false, not, ◌&&◌, none, some, List, [], ◌∷◌, ◌≡◌, ◌⊎◌, inl, inr, refl, sym, ◌∙◌, ap, arith,
  map, Bool-cases, and_elim,
}
use sshark_api.Base.Text.{Text, itoa, is_empty, text_eq, text_eq_iff, fields}
use sshark_api.Store.{KeyType, ssh, gpg, PublicKey, ok}
use sshark_api.KeyOps.{UserKey, KeyManager, find_key, match_user_key, resolve_provider_key_id}
use sshark_api.Parsers.Ssh
use sshark_api.Parsers.Ssh.{Digest}
use sshark_api.Parsers.Gpg
use sshark_api.Parsers.Gpg.{Openpgp}
use sshark_api.Fetchers.Github
use sshark_api.Fetchers.Github.{GithubGpgKey}
use sshark_api.Fetchers.Gitlab
use sshark_api.Fetchers.Gitlab.{GitlabGpgKey}
use sshark_api.KeyManagers.{
  ListedKey, Client, get_keys, keys_path, fingerprint_of, gpg_fingerprint, user_key,
  gitlab_list_keys, list_ssh_keys, list_gpg_keys, github_list_keys, github_manager, gitlab_manager,
}

module _ (digest : Digest) (openpgp : Openpgp) where
  -- The fingerprint that one of the fetchers stores for a key of the text.
  abbrev pub IsScraped : KeyType → Text → Text → Type 0
  IsScraped ssh key fp =
      ((title : Text) × ((Gitlab.parse_ssh_key digest key title).fingerprint ≡ fp))
      ⊎ ((Github.parse_ssh_key digest key).fingerprint ≡ fp)
  IsScraped gpg key fp =
      ((k : GitlabGpgKey) × (k.key ≡ key)
        × ((Gitlab.parse_gitlab_gpg_key openpgp k).fingerprint ≡ fp))
      ⊎ ((k : GithubGpgKey) × (k.raw_key ≡ key)
          × ((Github.parse_github_gpg_key openpgp k).fingerprint ≡ fp))

  parts_agree :
      (key title : Text) (parts : List Text)
      → (Gitlab.of_parts digest key title parts).fingerprint
        ≡ (Ssh.of_parts digest parts).fingerprint
  parts_agree key title [] = refl
  parts_agree key title (algorithm ∷ []) = refl
  parts_agree key title (algorithm ∷ material ∷ rest) = refl

  gitlab_ssh :
      (key title : Text)
      → (Gitlab.parse_ssh_key digest key title).fingerprint ≡ fingerprint_of digest openpgp ssh key
  unfolding Gitlab.parse_ssh_key fingerprint_of Ssh.fingerprint Ssh.parse
  gitlab_ssh key title = parts_agree key title (fields key)

  github_ssh :
      (key : Text)
      → (Github.parse_ssh_key digest key).fingerprint ≡ fingerprint_of digest openpgp ssh key
  unfolding Github.parse_ssh_key fingerprint_of Ssh.fingerprint
  github_ssh key = refl

  gitlab_gpg :
      (k : GitlabGpgKey)
      → (Gitlab.parse_gitlab_gpg_key openpgp k).fingerprint
        ≡ fingerprint_of digest openpgp gpg k.key
  unfolding Gitlab.parse_gitlab_gpg_key fingerprint_of
  gitlab_gpg k = ground arith

  raw_agree :
      (raw : Text)
      → openpgp.decode [] ≡ none
      → (elim (Github.parsed_raw_key openpgp raw) [ none ↦ [] | some p ↦ p.fingerprint ])
        ≡ gpg_fingerprint digest openpgp raw
  unfolding Gpg.parse is_empty
  raw_agree [] empty = ground arith
  raw_agree (c ∷ raw) empty = ground arith

  -- An empty text is no armored block.
  github_gpg :
      (k : GithubGpgKey)
      → openpgp.decode [] ≡ none
      → (Github.parse_github_gpg_key openpgp k).fingerprint
        ≡ fingerprint_of digest openpgp gpg k.raw_key
  unfolding Github.parse_github_gpg_key fingerprint_of
  github_gpg k empty = raw_agree k.raw_key empty

  IsScraped-fingerprint_of :
      (type : KeyType) (key fp : Text)
      → openpgp.decode [] ≡ none
      → IsScraped type key fp
      → fingerprint_of digest openpgp type key ≡ fp
  IsScraped-fingerprint_of ssh key fp empty (inl (title, same)) = sym (gitlab_ssh key title) ∙ same
  IsScraped-fingerprint_of ssh key fp empty (inr same) = sym (github_ssh key) ∙ same
  IsScraped-fingerprint_of gpg key fp empty (inl (k, is, same)) =
      ap (fingerprint_of digest openpgp gpg) (sym is) ∙ (sym (gitlab_gpg k) ∙ same)
  IsScraped-fingerprint_of gpg key fp empty (inr (k, is, same)) =
      ap (fingerprint_of digest openpgp gpg) (sym is) ∙ (sym (github_gpg k empty) ∙ same)

  managers_agree :
      (client : Client) (type : KeyType)
      → github_list_keys digest openpgp client type ≡ gitlab_list_keys digest openpgp client type
  unfolding github_list_keys gitlab_list_keys list_ssh_keys list_gpg_keys fingerprint_of
  managers_agree client ssh = refl
  managers_agree client gpg = refl

  gitlab-answer :
      (client : Client) (type : KeyType) (keys : List ListedKey)
      → get_keys client (keys_path type) ≡ ok keys
      → gitlab_list_keys digest openpgp client type ≡ ok (map (user_key digest openpgp type) keys)
  unfolding gitlab_list_keys
  gitlab-answer client type keys listed = ground arith

  -- The key stands in the list.
  abbrev pub Stands : ListedKey → List ListedKey → Type 0
  Stands k [] = ⊥
  Stands k (j ∷ keys) = (j ≡ k) ⊎ Stands k keys

  module _ (type : KeyType) where
    abbrev fp_of : ListedKey → Text
    fp_of k = fingerprint_of digest openpgp type k.key

    -- Where a key of the fingerprint stands in the list, the match by fingerprint yields such a key.
    find_key-Stands :
        (k : ListedKey) (keys : List ListedKey) (fp : Text)
        → Stands k keys
        → fp_of k ≡ fp
        → is_empty fp ≡ false
        → (j : ListedKey) × Stands j keys
          × (fp_of j ≡ fp)
          × (find_key
                (λ u. not (is_empty u.fingerprint) && text_eq u.fingerprint fp)
                (map (user_key digest openpgp type) keys)
              ≡ some (user_key digest openpgp type j))
    find_key-Stands k [] fp stands same some_fp = elim stands [ ]
    find_key-Stands k (i ∷ keys) fp stands same some_fp =
        elim (Bool-cases (not (is_empty (fp_of i)) && text_eq (fp_of i) fp)) [
          | inl matches ↦
              let (filled, equal) =
                and_elim (not (is_empty (fp_of i))) (text_eq (fp_of i) fp) matches in
              (i, inl refl, (text_eq_iff (fp_of i) fp).0 equal, rw matches refl)
          | inr differs ↦ elim stands [
            | inl is ↦
                let fp_i : fp_of i ≡ fp = ap fp_of is ∙ same in
                let equal : text_eq (fp_of i) fp ≡ true = (text_eq_iff (fp_of i) fp).1 fp_i in
                let filled : is_empty (fp_of i) ≡ false = ap is_empty fp_i ∙ some_fp in
                absurd (ground arith)
            | inr further ↦
                let (j, there, equal, found) = find_key-Stands k keys fp further same some_fp in
                (j, inr there, equal, rw differs found)
          ]
        ]

    -- The scraper stored the fingerprint of a key that the provider lists.
    abbrev pub IsListed : PublicKey → List ListedKey → Type 0
    IsListed entity keys = (k : ListedKey) × Stands k keys × IsScraped type k.key entity.fingerprint

-- The resolution by a fingerprint that one of the owner's keys has.
resolve-found :
    (manager : KeyManager) (entity : PublicKey) (user_keys : List UserKey) (u : UserKey)
    → manager.list_keys entity.key_type ≡ ok user_keys
    → find_key
        (λ u. not (is_empty u.fingerprint) && text_eq u.fingerprint entity.fingerprint)
        user_keys
      ≡ some u
    → resolve_provider_key_id manager entity ≡ ok u.id
unfolding resolve_provider_key_id match_user_key
resolve-found manager entity user_keys u listed found = ground arith

-- Let the provider, asked for the owner's keys of the stored key's type, list a key whose text one of the
-- fetchers once turned into the stored fingerprint, which is not empty. Then both managers resolve the
-- stored key to the identifier of a listed key whose fingerprint is the stored one, whatever identifier
-- was recorded. So the fetchers and the managers, which read fingerprints by different code, agree.
-- OpenPGP is taken to find no armored block in an empty text.
pub resolve_finds_scraped :
    (digest : Digest) (openpgp : Openpgp) (client : Client) (token : Text) (entity : PublicKey)
    (keys : List ListedKey)
    → openpgp.decode [] ≡ none
    → get_keys client (keys_path entity.key_type) ≡ ok keys
    → IsListed digest openpgp entity.key_type entity keys
    → is_empty entity.fingerprint ≡ false
    → (j : ListedKey) × Stands digest openpgp j keys
      × (fingerprint_of digest openpgp entity.key_type j.key ≡ entity.fingerprint)
      × (resolve_provider_key_id (gitlab_manager digest openpgp client token) entity
          ≡ ok (itoa j.id))
      × (resolve_provider_key_id (github_manager digest openpgp client token) entity
          ≡ ok (itoa j.id))
unfolding gitlab_manager github_manager
resolve_finds_scraped digest openpgp client token entity keys empty listed (k, there, scraped)
      some_fp =
    let type : KeyType = entity.key_type in
    let fp : Text = entity.fingerprint in
    let same = IsScraped-fingerprint_of digest openpgp type k.key fp empty scraped in
    let (j, stands, equal, found) =
      find_key-Stands digest openpgp type k keys fp there same some_fp in
    let user_keys : List UserKey = map (user_key digest openpgp type) keys in
    let gitlab : gitlab_list_keys digest openpgp client type ≡ ok user_keys =
      gitlab-answer digest openpgp client type keys listed in
    let github : github_list_keys digest openpgp client type ≡ ok user_keys =
      managers_agree digest openpgp client type ∙ gitlab in
    let u : UserKey = user_key digest openpgp type j in
    (
      j,
      stands,
      equal,
      resolve-found (gitlab_manager digest openpgp client token) entity user_keys u gitlab found,
      resolve-found (github_manager digest openpgp client token) entity user_keys u github found,
    )
