-- ===== src/Fetchers/Github.antt =====
-- internal/infra/fetchers/github/fetcher.go: users and their keys at GitHub. The numeric identifiers
-- that GitHub reports are not negative.
use sshark_api.Base.{
  ℕ, Bool, true, false, not, ◌||◌, Option, none, some, List, [], ◌∷◌, ◌++◌, if◌then◌else◌, map,
  ◌==◌,
}
use sshark_api.Base.Text.{Text, codes, itoa, is_empty}
use sshark_api.Store.{Result, ok, err, other, rate_limited, user_not_found}
use sshark_api.Scraper.{FetchedKey, FetchedUser, UsersPage}
use sshark_api.Parsers.Ssh
use sshark_api.Parsers.Ssh.{Digest}
use sshark_api.Parsers.Gpg
use sshark_api.Parsers.Gpg.{Openpgp}
use sshark_api.Fetchers.{
  Reply, RateLimit, Handlers, Client, Context, update_rate_limit, send, decoded,
}

pub record GithubUser : Type 0 where
  pub id : ℕ
  pub login : Text
  pub html_url : Text

pub record GithubKey : Type 0 where
  pub id : ℕ
  pub key : Text

-- The fields that the program reads.
pub record GithubGpgKey : Type 0 where
  pub id : ℕ
  pub raw_key : Text
  pub emails : List Text
  pub can_sign : Bool
  pub can_encrypt_comms : Bool
  pub can_encrypt_storage : Bool
  pub can_certify : Bool
  pub expires_at : Option ℕ
  pub primary_key_id : Option ℕ
  pub revoked : Bool

unfoldable pub check_status : Reply → Result (Unit {0})
check_status res =
    if res.status_code == 403 || res.status_code == 429
    then err rate_limited
    else if res.status_code == 401
    then err other
    else if not (res.status_code == 200)
    then err other
    else ok tt

abbrev pub handlers : Handlers
handlers = record {
  update_rate_limit = update_rate_limit (codes "X-RateLimit-Remaining") (codes "X-RateLimit-Reset");
  check_status = check_status;
}

unfoldable pub to_user : GithubUser → FetchedUser
unfolding itoa
to_user u = record {
  user_id = itoa u.id;
  username = u.login;
  uri = u.html_url;
  keys = [];
  gpg_keys = [];
}

-- The identifier of the last user of the page, or nothing.
unfoldable pub next_cursor : List GithubUser → Text
unfolding itoa
next_cursor [] = []
next_cursor (u ∷ []) = itoa u.id
next_cursor (u ∷ v ∷ rest) = next_cursor (v ∷ rest)

unfoldable pub list_users :
    Client (List GithubUser) → Context → RateLimit → Text → ℕ → Result UsersPage × RateLimit
unfolding send to_user next_cursor itoa check_status update_rate_limit
list_users client ctx limit cursor page_size =
    decoded (λ users. ok (record { users = map to_user users; next_cursor = next_cursor users }))
      (send client handlers ctx limit (record {
        path = codes "/users";
        query = (codes "per_page", itoa page_size) ∷ (codes "since", cursor) ∷ [];
      }))

abbrev pub known_user : GithubUser → Result FetchedUser
known_user u = if u.id == 0 then err user_not_found else ok (to_user u)

unfoldable pub fetch_user :
    Client GithubUser → Context → RateLimit → Text → Result FetchedUser × RateLimit
unfolding send to_user check_status update_rate_limit
fetch_user client ctx limit username =
    decoded known_user
      (send client handlers ctx limit (record { path = codes "users/" ++ username; query = [] }))

module _ (digest : Digest) where
  unfoldable pub parse_ssh_key : Text → FetchedKey
  unfolding Ssh.parse
  parse_ssh_key key_str =
      let parsed : Ssh.Key = Ssh.parse digest key_str in
      record {
        key_id = [];
        key_data = key_str;
        fingerprint = parsed.fingerprint;
        algorithm = parsed.algorithm;
        comment = parsed.comment;
        key_bits = none;
        expires_at = none;
        user_ids = [];
        capabilities = [];
      }

  unfoldable pub to_key : GithubKey → FetchedKey
  unfolding parse_ssh_key itoa
  to_key k = record (parse_ssh_key k.key) { key_id = itoa k.id }

  unfoldable pub fetch_user_keys :
      Client (List GithubKey)
      → Context
      → RateLimit
      → FetchedUser
      → Result (List FetchedKey) × RateLimit
  unfolding send to_key check_status update_rate_limit
  fetch_user_keys client ctx limit user =
      decoded (λ keys. ok (map to_key keys))
        (send client handlers ctx limit
          (record { path = codes "users/" ++ (user.username ++ codes "/keys"); query = [] }))

abbrev append_if : Bool → Text → List Text → List Text
append_if flag name capabilities = if flag then capabilities ++ name ∷ [] else capabilities

abbrev pub capabilities_of : GithubGpgKey → List Text
capabilities_of k = append_if k.can_encrypt_storage (codes "encrypt_storage") (
    append_if k.can_encrypt_comms (codes "encrypt_comms")
      (append_if k.can_certify (codes "certify") (append_if k.can_sign (codes "sign") [])))

module _ (openpgp : Openpgp) where
  -- The raw key, where there is one that parses.
  abbrev pub parsed_raw_key : Text → Option Gpg.ParsedKey
  parsed_raw_key raw_key =
      if is_empty raw_key
      then none
      else elim (Gpg.parse openpgp raw_key) [ err e ↦ none | ok parsed ↦ some parsed ]

  unfoldable pub parse_github_gpg_key : GithubGpgKey → FetchedKey
  unfolding itoa is_empty Gpg.parse
  parse_github_gpg_key k =
      let raw : Option Gpg.ParsedKey = parsed_raw_key k.raw_key in
      record {
        key_id = itoa k.id;
        key_data = k.raw_key;
        fingerprint = elim raw [ none ↦ [] | some parsed ↦ parsed.fingerprint ];
        algorithm = elim raw [ none ↦ [] | some parsed ↦ parsed.algorithm ];
        comment = [];
        key_bits = elim raw [ none ↦ none | some parsed ↦ parsed.key_bits ];
        expires_at = k.expires_at;
        user_ids = k.emails;
        capabilities = capabilities_of k;
      }

  abbrev is_subkey : GithubGpgKey → Bool
  is_subkey k = elim k.primary_key_id [ none ↦ false | some _ ↦ true ]

  -- The loop over the keys: revoked keys and subkeys are skipped.
  unfoldable pub live_keys : List GithubGpgKey → List FetchedKey
  unfolding parse_github_gpg_key
  live_keys [] = []
  live_keys (k ∷ keys) =
      let rest : List FetchedKey = live_keys keys in
      if k.revoked then rest else if is_subkey k then rest else parse_github_gpg_key k ∷ rest

  unfoldable pub fetch_user_gpg_keys :
      Client (List GithubGpgKey)
      → Context
      → RateLimit
      → FetchedUser
      → Result (List FetchedKey) × RateLimit
  unfolding send live_keys check_status update_rate_limit
  fetch_user_gpg_keys client ctx limit user =
      decoded (λ keys. ok (live_keys keys))
        (send client handlers ctx limit
          (record { path = codes "users/" ++ (user.username ++ codes "/gpg_keys"); query = [] }))
