-- ===== src/Session/ApiKeys.antt =====
-- api/authenticated/v1/impl.go: the API keys of a signed-in user, which Clerk holds. A handler
-- returns its answer and the requests by which it changed what Clerk holds.
use sshark_api.Base.{ℕ, Option, none, some, List, [], ◌∷◌, if◌then◌else◌, any}
use sshark_api.Base.Int64.{sub64, is_negative}
use sshark_api.Base.Text.{Text, codes, text_eq}
use sshark_api.Store.{Result, ok, err}
use sshark_api.Api.{Response, json, no_content, failure, status_ok}

-- apikey.CreateParams
pub record CreateParams : Type 0 where
  pub subject : Text
  pub name : Text
  pub description : Option Text
  pub claims : Option Text
  pub scopes : List Text
  pub seconds_until_expiration : Option ℕ

-- Clerk's API keys: those of a user, the identifier of one, and the answers to the two changes.
pub record ApiKeys (K : Type 0) : Type 0 where
  pub list : Text → Result (List K)
  pub id_of : K → Text
  pub create : CreateParams → Result K
  pub delete : Text → Result (Unit {0})

pub data Request : Type 0 where
  creates : CreateParams → Request
  deletes : Text → Request

-- authenticated.CreateApiKeyRequest; an expiration is an int64, by its two's complement.
pub record CreateApiKeyRequest (C : Type 0) : Type 0 where
  pub name : Text
  pub description : Option Text
  pub claims : Option C
  pub scopes : Option (List Text)
  pub expiration : Option ℕ

-- The lifetime that is asked for, or a refusal.
unfoldable pub seconds_until : ℕ → Option ℕ → Option (Option ℕ)
unfolding sub64 is_negative
seconds_until now none = some none
seconds_until now (some expiration) =
    let seconds : ℕ = sub64 expiration now in
    if is_negative seconds then none else some (some seconds)

module _ {K : Type 0} (api : ApiKeys K) where
  unfoldable pub list_api_keys : Option Text → Response (List K)
  list_api_keys none = failure 401 (codes "unauthorized")
  list_api_keys (some subject) = elim (api.list subject) [
    | err e ↦ failure 500 (codes "failed to list API keys")
    | ok keys ↦ json status_ok keys
  ]

  unfoldable pub send_create : CreateParams → Response K × List Request
  send_create params = elim (api.create params) [
    | err e ↦ (failure 500 (codes "failed to create API key"), creates params ∷ [])
    | ok key ↦ (json 201 key, creates params ∷ [])
  ]

  unfoldable pub send_delete : Text → Response (Unit {0}) × List Request
  send_delete id = elim (api.delete id) [
    | err e ↦ (failure 500 (codes "failed to delete API key"), deletes id ∷ [])
    | ok _ ↦ (no_content, deletes id ∷ [])
  ]

  unfoldable pub delete_api_key : Option Text → Text → Response (Unit {0}) × List Request
  unfolding send_delete text_eq
  delete_api_key none id = (failure 401 (codes "unauthorized"), [])
  delete_api_key (some subject) id = elim (api.list subject) [
    | err e ↦ (failure 500 (codes "failed to verify API key ownership"), [])
    | ok keys ↦
        if any (λ key. text_eq (api.id_of key) id) keys
        then send_delete id
        else (failure 404 (codes "API key not found"), [])
  ]

  -- `marshal` is json.Marshal of the claims; the body is none where it does not bind.
  module _ {C : Type 0} (marshal : C → Option Text) where
    -- The claims to send, or a refusal.
    abbrev marshal_claims : Option C → Option (Option Text)
    marshal_claims none = some none
    marshal_claims (some claims) = elim (marshal claims) [
      | none ↦ none
      | some text ↦ some (some text)
    ]

    abbrev scopes_or_none : Option (List Text) → List Text
    scopes_or_none none = []
    scopes_or_none (some scopes) = scopes

    unfoldable pub create_api_key :
        ℕ → Option Text → Option (CreateApiKeyRequest C) → Response K × List Request
    unfolding send_create seconds_until
    create_api_key now none body = (failure 401 (codes "unauthorized"), [])
    create_api_key now (some subject) none = (failure 400 (codes "invalid request body"), [])
    create_api_key now (some subject) (some req) = elim (marshal_claims req.claims) [
      | none ↦ (failure 400 (codes "invalid claims format"), [])
      | some claims ↦ elim (seconds_until now req.expiration) [
        | none ↦ (failure 400 (codes "expiration time must be in the future"), [])
        | some seconds ↦ send_create (record {
          subject = subject;
          name = req.name;
          description = req.description;
          claims = claims;
          scopes = scopes_or_none req.scopes;
          seconds_until_expiration = seconds;
        })
      ]
    ]
