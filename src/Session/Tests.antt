-- ===== src/Session/Tests.antt =====
-- The theorems on the session at concrete data.
use sshark_api.Base.{
  ◌+◌, ◌<◌, ◌≤◌, true, none, some, List, [], ◌∷◌, ◌≡◌, ◌≢◌, ◌⊎◌, ◌↔◌, refl, any, All, arith,
}
use sshark_api.Base.Int64.{two_63}
use sshark_api.Base.Text.{Text, codes, text_eq}
use sshark_api.Store.{ok}
use sshark_api.Tables.Profiles
use sshark_api.Claims.{ensure_profile}
use sshark_api.Api.{no_content}
use sshark_api.Session.{SessionUser, me}
use sshark_api.Session.Email.{me_panics_iff}
use sshark_api.Session.ApiKeys.{
  ApiKeys, CreateApiKeyRequest, deletes, delete_api_key, create_api_key,
}
use sshark_api.Session.Deletion.{delete_api_key-IsOwn}
use sshark_api.Session.Lifetime.{Expires, create_api_key-Expires}
use sshark_api.Samples.{clerk, world, key, subject, profile}

-- A user without a primary address.
abbrev visitor : SessionUser
visitor = record {
  id = subject;
  emails = record { id = codes "e"; email_address = codes "a@b" } ∷ [];
  primary_email_id = none;
  first_name = none;
  last_name = none;
  image_url = none;
  created_at = 0;
}

me_panics_iff_example :
    ((me clerk (λ s. ok visitor) (some subject) (world (key ∷ []))).0 ≡ ok none)
    ↔ ((visitor.primary_email_id ≡ none) × (visitor.emails ≢ []))
me_panics_iff_example =
    me_panics_iff clerk (λ s. ok visitor) subject visitor (world (key ∷ [])) profile refl
      (unfold ensure_profile Profiles.get_by_clerk_user_id text_eq in refl)

-- An API key is its identifier.
abbrev api : ApiKeys Text
api = record {
  list = λ s. ok (codes "k" ∷ []);
  id_of = λ k. k;
  create = λ params. ok (codes "new");
  delete = λ id. ok tt;
}

delete_api_key-IsOwn_example :
    let (answer, sent) = delete_api_key api (some subject) (codes "k") in
    ((sent ≡ []) × (answer ≢ no_content))
    ⊎ ((sent ≡ deletes (codes "k") ∷ [])
        × (keys : List Text) × (ok (codes "k" ∷ []) ≡ ok keys)
        × (any (λ key. text_eq key (codes "k")) keys ≡ true))
delete_api_key-IsOwn_example = delete_api_key-IsOwn api subject (codes "k")

abbrev req : CreateApiKeyRequest Text
req = record {
  name = codes "ci";
  description = none;
  claims = none;
  scopes = none;
  expiration = some 100;
}

create_api_key-Expires_example :
    let sent = (create_api_key api (λ c. some c) 40 (some subject) (some req)).1 in
    All (Expires 40 100) sent × ((100 < 40) ⊎ (two_63 + 40 ≤ 100) → sent ≡ [])
create_api_key-Expires_example =
    create_api_key-Expires api (λ c. some c) 40 100 subject req (omega arith) (omega arith) refl
