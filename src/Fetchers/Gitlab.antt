-- ===== src/Fetchers/Gitlab.antt =====
-- internal/infra/fetchers/gitlab/fetcher.go: users and their keys at GitLab. The numeric identifiers
-- that GitLab reports are not negative.
use sshark_api.Base.{ℕ, ◌&&◌, not, none, List, [], ◌∷◌, ◌++◌, if◌then◌else◌, map, ◌==◌}
use sshark_api.Base.Text.{Text, codes, itoa, is_empty, fields, join}
use sshark_api.Store.{Result, ok, err, other, rate_limited, user_not_found}
use sshark_api.Scraper.{FetchedKey, FetchedUser, UsersPage}
use sshark_api.Scraper.User.{is_nil}
use sshark_api.Parsers.Ssh.{Digest, fingerprint_of}
use sshark_api.Parsers.Gpg
use sshark_api.Parsers.Gpg.{Openpgp}
use sshark_api.Fetchers.{
  Reply, RateLimit, Handlers, Client, Context, update_rate_limit, send, decoded,
}

pub record GitlabUser : Type 0 where
  pub id : ℕ
  pub username : Text
  pub web_url : Text

pub record GitlabKey : Type 0 where
  pub id : ℕ
  pub key : Text
  pub title : Text

-- The fields that the program reads.
pub record GitlabGpgKey : Type 0 where
  pub id : ℕ
  pub key : Text

unfoldable pub check_status : Reply → Result (Unit {0})
check_status res =
    if res.status_code == 429
    then err rate_limited
    else if res.status_code == 401
    then err other
    else if res.status_code == 404
    then ok tt
    else if not (res.status_code == 200)
    then err other
    else ok tt

abbrev pub handlers : Handlers
handlers = record {
  update_rate_limit = update_rate_limit (codes "RateLimit-Remaining") (codes "RateLimit-Reset");
  check_status = check_status;
}

unfoldable pub to_user : GitlabUser → FetchedUser
unfolding itoa
to_user u = record {
  user_id = itoa u.id;
  username = u.username;
  uri = u.web_url;
  keys = [];
  gpg_keys = [];
}

unfoldable pub next_cursor : List GitlabUser → Text
unfolding itoa
next_cursor [] = []
next_cursor (u ∷ []) = itoa u.id
next_cursor (u ∷ v ∷ rest) = next_cursor (v ∷ rest)

-- The cursor is sent only where there is one.
abbrev after_cursor : Text → List (Text × Text)
after_cursor cursor = if is_empty cursor then [] else (codes "id_after", cursor) ∷ []

unfoldable pub list_users :
    Client (List GitlabUser) → Context → RateLimit → Text → ℕ → Result UsersPage × RateLimit
unfolding send to_user next_cursor itoa is_empty check_status update_rate_limit
list_users client ctx limit cursor page_size =
    decoded (λ users. ok (record { users = map to_user users; next_cursor = next_cursor users }))
      (send client handlers ctx limit (record {
        path = codes "/users";
        query =
            (codes "per_page", itoa page_size)
            ∷ (codes "order_by", codes "id")
            ∷ (codes "sort", codes "asc")
            ∷ after_cursor cursor;
      }))

abbrev pub first_user : List GitlabUser → Result FetchedUser
first_user [] = err user_not_found
first_user (u ∷ _) = ok (to_user u)

unfoldable pub fetch_user :
    Client (List GitlabUser) → Context → RateLimit → Text → Result FetchedUser × RateLimit
unfolding send to_user check_status update_rate_limit
fetch_user client ctx limit username = decoded first_user (
    send client handlers ctx limit
      (record { path = codes "/users"; query = (codes "username", username) ∷ [] }))

module _ (digest : Digest) where
  abbrev of_key : Text → Text → Text → Text → FetchedKey
  of_key key_str algorithm comment fingerprint = record {
    key_id = [];
    key_data = key_str;
    fingerprint = fingerprint;
    algorithm = algorithm;
    comment = comment;
    key_bits = none;
    expires_at = none;
    user_ids = [];
    capabilities = [];
  }

  abbrev comment_of : Text → List Text → Text
  comment_of title rest =
      if is_empty title && not (is_nil rest) then join rest (codes " ") else title

  abbrev pub of_parts : Text → Text → List Text → FetchedKey
  of_parts key_str title [] = of_key key_str [] title []
  of_parts key_str title (algorithm ∷ []) = of_key key_str [] title []
  of_parts key_str title (algorithm ∷ material ∷ rest) =
      of_key key_str algorithm (comment_of title rest) (fingerprint_of digest material)

  unfoldable pub parse_ssh_key : Text → Text → FetchedKey
  unfolding fields is_empty join
  parse_ssh_key key_str title = of_parts key_str title (fields key_str)

  unfoldable pub to_key : GitlabKey → FetchedKey
  unfolding parse_ssh_key itoa
  to_key k = record (parse_ssh_key k.key k.title) { key_id = itoa k.id }

  unfoldable pub fetch_user_keys :
      Client (List GitlabKey)
      → Context
      → RateLimit
      → FetchedUser
      → Result (List FetchedKey) × RateLimit
  unfolding send to_key check_status update_rate_limit
  fetch_user_keys client ctx limit user =
      decoded (λ keys. ok (map to_key keys))
        (send client handlers ctx limit
          (record { path = codes "users/" ++ (user.user_id ++ codes "/keys"); query = [] }))

module _ (openpgp : Openpgp) where
  abbrev unparsed : GitlabGpgKey → FetchedKey
  unparsed k = record {
    key_id = itoa k.id;
    key_data = k.key;
    fingerprint = [];
    algorithm = [];
    comment = [];
    key_bits = none;
    expires_at = none;
    user_ids = [];
    capabilities = [];
  }

  unfoldable pub parse_gitlab_gpg_key : GitlabGpgKey → FetchedKey
  unfolding itoa Gpg.parse
  parse_gitlab_gpg_key k = elim (Gpg.parse openpgp k.key) [
    | err e ↦ unparsed k
    | ok parsed ↦ record (unparsed k) {
      fingerprint = parsed.fingerprint;
      algorithm = parsed.algorithm;
      key_bits = parsed.key_bits;
      expires_at = parsed.expires_at;
      user_ids = parsed.user_ids;
      capabilities = parsed.capabilities;
    }
  ]

  unfoldable pub fetch_user_gpg_keys :
      Client (List GitlabGpgKey)
      → Context
      → RateLimit
      → FetchedUser
      → Result (List FetchedKey) × RateLimit
  unfolding send parse_gitlab_gpg_key check_status update_rate_limit
  fetch_user_gpg_keys client ctx limit user =
      decoded (λ keys. ok (map parse_gitlab_gpg_key keys))
        (send client handlers ctx limit
          (record { path = codes "users/" ++ (user.user_id ++ codes "/gpg_keys"); query = [] }))
