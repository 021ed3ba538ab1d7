-- ===== src/KeyOps/Provider.antt =====
-- A provider to the operations of internal/app/keyops/service.go: the keys of the owner of a token, the
-- scopes that a revocation needs, and the stored key among the owner's.
use sshark_api.Base.{
  Bool, true, false, not, ◌&&◌, ◌||◌, Option, none, some, List, [], ◌∷◌, if◌then◌else◌,
}
use sshark_api.Base.Text.{Text, codes, text_eq, is_empty}
use sshark_api.Store.{
  KeyType, ssh, gpg, PublicKey, key_gone, M, Result, ok, err, pure, fail, attempt, ◌>>=◌,
  provider_github, provider_gitlab,
}
use sshark_api.Identity.{has_scope}
use sshark_api.Scraper.User.{is_nil}

-- internal/domain/providers
pub record UserKey : Type 0 where
  pub id : Text
  pub fingerprint : Text

-- What a provider answers to the owner of a token.
pub record KeyManager : Type 0 where
  pub token : Text
  pub list_keys : KeyType → Result (List UserKey)
  pub delete_key : KeyType → Text → Result (Unit {0})

-- `DeleteKey`: a request is sent, and answered.
unfoldable pub send_delete : KeyManager → KeyType → Text → M (Unit {0})
send_delete manager type id w = (
  manager.delete_key type id,
  record w {
    deletions = record { token = manager.token; key_type = type; key_id = id } ∷ w.deletions;
  },
)

-- The request, and whether the provider no longer had the key.
unfoldable pub request_delete : KeyManager → KeyType → Text → M Bool
unfolding send_delete
request_delete manager type id = do
  deleted ← attempt (send_delete manager type id)
  elim deleted [
    | ok _ ↦ pure false
    | err e ↦ elim e [ key_gone ↦ pure true | other_error ↦ fail other_error ]
  ]

abbrev pub scope_ssh_keys : Text
scope_ssh_keys = codes "admin:public_key"

abbrev pub scope_gpg_keys : Text
scope_gpg_keys = codes "admin:gpg_key"

abbrev pub scope_manage_keys : Text
scope_manage_keys = codes "api"

unfoldable pub scope_for : KeyType → Text
scope_for gpg = scope_gpg_keys
scope_for ssh = scope_ssh_keys

unfoldable pub required_scope : Text → KeyType → Text
unfolding text_eq scope_for
required_scope provider type =
    if text_eq provider provider_github
    then scope_for type
    else if text_eq provider provider_gitlab
    then scope_manage_keys
    else []

unfoldable pub revocation_scopes : Text → List Text
unfolding text_eq
revocation_scopes provider =
    if text_eq provider provider_github
    then scope_ssh_keys ∷ scope_gpg_keys ∷ []
    else if text_eq provider provider_gitlab
    then scope_manage_keys ∷ []
    else []

unfoldable pub supports_revocation : Text → Bool
unfolding text_eq
supports_revocation provider = text_eq provider provider_github || text_eq provider provider_gitlab

abbrev pub find_key : (UserKey → Bool) → List UserKey → Option UserKey
find_key p [] = none
find_key p (k ∷ ks) = if p k then some k else find_key p ks

abbrev pub id_or : Option UserKey → Text → Text
id_or (some k) _ = k.id
id_or none t = t

-- The identifier among the user's keys: by fingerprint, else by the recorded identifier, else empty.
unfoldable pub match_user_key : List UserKey → PublicKey → Text
unfolding is_empty text_eq
match_user_key user_keys entity =
    id_or
      (find_key (λ k. not (is_empty k.fingerprint) && text_eq k.fingerprint entity.fingerprint)
        user_keys)
      (elim entity.provider_key_id [
        | none ↦ []
        | some recorded ↦ id_or (find_key (λ k. text_eq k.id recorded) user_keys) []
      ])

unfoldable pub resolve_provider_key_id : KeyManager → PublicKey → Result Text
unfolding match_user_key
resolve_provider_key_id manager entity = elim (manager.list_keys entity.key_type) [
  | err e ↦ err e
  | ok user_keys ↦ ok (match_user_key user_keys entity)
]

-- Scopes are reported, one is required, and it is not among them.
unfoldable pub lacks_scope : List Text → Text → Bool
unfolding is_empty has_scope
lacks_scope scopes required =
    not (is_nil scopes) && (not (is_empty required) && not (has_scope scopes required))
