-- ===== src/Session/Deletion.antt =====
-- Which API keys a user can delete.
use sshark_api.Base.{true, some, List, [], ◌∷◌, ◌≡◌, ◌⊎◌, ◌≢◌, inl, inr, arith, any, Bool-cases}
use sshark_api.Base.Text.{Text, text_eq}
use sshark_api.Store.{ok}
use sshark_api.Store.Frame.{Result-cases}
use sshark_api.Api.{no_content}
use sshark_api.Session.ApiKeys.{ApiKeys, deletes, delete_api_key, send_delete}

-- A request to delete an API key reaches Clerk only for a key that Clerk lists as the user's own, and
-- only for the key that was asked for. Where none is sent, the answer is not the one of a deletion.
pub delete_api_key-IsOwn :
    {K : Type 0} (api : ApiKeys K) (subject id : Text)
    → let (answer, sent) = delete_api_key api (some subject) id in
      ((sent ≡ []) × (answer ≢ no_content))
      ⊎ ((sent ≡ deletes id ∷ [])
          × (keys : List K) × (api.list subject ≡ ok keys)
          × (any (λ key. text_eq (api.id_of key) id) keys ≡ true))
unfolding delete_api_key send_delete
delete_api_key-IsOwn api subject id = elim (Result-cases (api.list subject)) [
  | inr (e, failed) ↦ ground arith
  | inl (keys, listed) ↦ elim (Bool-cases (any (λ key. text_eq (api.id_of key) id) keys)) [
    | inr other ↦ ground arith
    | inl own ↦ ground arith
  ]
]
