-- ===== src/KeyManagers.antt =====
-- internal/infra/providers/github and gitlab: the keys of the owner of a token. The HTTP client of
-- go-shared is a parameter: it runs the one handler on the response, and returns its error. The two packages' `statusError` are the same function.
pub mod Fingerprints
mod Tests
use sshark_api.Base.{
  ℕ, ◌||◌, Option, none, some, List, [], ◌∷◌, ◌++◌, if◌then◌else◌, map, ◌==◌, ltb, leb,
}
use sshark_api.Base.Text.{Text, codes, itoa}
use sshark_api.Store.{KeyType, ssh, gpg, Result, ok, err, other, key_gone, forbidden}
use sshark_api.KeyOps.{UserKey, KeyManager}
use sshark_api.Parsers.Ssh
use sshark_api.Parsers.Ssh.{Digest}
use sshark_api.Parsers.Gpg
use sshark_api.Parsers.Gpg.{Openpgp}

unfoldable pub status_error : ℕ → Result (Unit {0})
status_error status_code =
    if status_code == 404
    then err key_gone
    else if status_code == 401 || status_code == 403
    then err forbidden
    else if ltb status_code 200 || leb 300 status_code
    then err other
    else ok tt

-- The check and the decoding of the body, in one handler: `decode` is none where the body is no JSON
-- of the type.
unfoldable pub with_response : {B : Type 0} → (status_code : ℕ) (decode : Option B) → Result B
unfolding status_error
with_response status_code decode = elim (status_error status_code) [
  | err e ↦ err e
  | ok _ ↦ elim decode [ none ↦ err other | some out ↦ ok out ]
]

-- A key as GitHub's and GitLab's list of the owner's keys reports it, by its text.
pub record ListedKey : Type 0 where
  pub id : ℕ
  pub key : Text

-- What is answered to a GET request for a list, with the status and the body, if it decodes; and the
-- status answered to a DELETE request. None where no response arrives.
pub record Client : Type 0 where
  pub get : Text → Option (ℕ × Option (List ListedKey))
  pub delete : Text → Option ℕ

unfoldable pub get_keys : Client → Text → Result (List ListedKey)
unfolding with_response
get_keys client path = elim (client.get path) [
  | none ↦ err other
  | some response ↦ with_response response.0 response.1
]

abbrev pub keys_path : KeyType → Text
keys_path ssh = codes "/user/keys"
keys_path gpg = codes "/user/gpg_keys"

unfoldable pub delete_key : Client → KeyType → Text → Result (Unit {0})
unfolding with_response
delete_key client type key_id = elim (client.delete (keys_path type ++ (codes "/" ++ key_id))) [
  | none ↦ err other
  | some status_code ↦ with_response status_code (some tt)
]

module _ (digest : Digest) (openpgp : Openpgp) where
  abbrev pub gpg_fingerprint : Text → Text
  gpg_fingerprint material = elim (Gpg.parse openpgp material) [
    | err e ↦ []
    | ok parsed ↦ parsed.fingerprint
  ]

  -- gitlab/keymanager.go; GitHub's two lists do the same for their type.
  unfoldable pub fingerprint_of : KeyType → Text → Text
  unfolding Ssh.fingerprint Gpg.parse
  fingerprint_of gpg material = gpg_fingerprint material
  fingerprint_of ssh material = Ssh.fingerprint digest material

  abbrev pub user_key : KeyType → ListedKey → UserKey
  user_key type k = record { id = itoa k.id; fingerprint = fingerprint_of type k.key }

  unfoldable pub gitlab_list_keys : Client → KeyType → Result (List UserKey)
  unfolding fingerprint_of itoa get_keys
  gitlab_list_keys client type = elim (get_keys client (keys_path type)) [
    | err e ↦ err e
    | ok keys ↦ ok (map (user_key type) keys)
  ]

  unfoldable pub list_ssh_keys : Client → Result (List UserKey)
  unfolding Ssh.fingerprint itoa get_keys
  list_ssh_keys client = elim (get_keys client (codes "/user/keys")) [
    | err e ↦ err e
    | ok keys ↦
        ok (map (λ k. record { id = itoa k.id; fingerprint = Ssh.fingerprint digest k.key }) keys)
  ]

  unfoldable pub list_gpg_keys : Client → Result (List UserKey)
  unfolding Gpg.parse itoa get_keys
  list_gpg_keys client = elim (get_keys client (codes "/user/gpg_keys")) [
    | err e ↦ err e
    | ok keys ↦ ok (map (λ k. record { id = itoa k.id; fingerprint = gpg_fingerprint k.key }) keys)
  ]

  unfoldable pub github_list_keys : Client → KeyType → Result (List UserKey)
  unfolding list_ssh_keys list_gpg_keys
  github_list_keys client gpg = list_gpg_keys client
  github_list_keys client ssh = list_ssh_keys client

  -- The two managers of a token, as the operations on keys use them.
  unfoldable pub github_manager : Client → Text → KeyManager
  unfolding github_list_keys delete_key
  github_manager client token = record {
    token = token;
    list_keys = github_list_keys client;
    delete_key = delete_key client;
  }

  unfoldable pub gitlab_manager : Client → Text → KeyManager
  unfolding gitlab_list_keys delete_key
  gitlab_manager client token = record {
    token = token;
    list_keys = gitlab_list_keys client;
    delete_key = delete_key client;
  }
