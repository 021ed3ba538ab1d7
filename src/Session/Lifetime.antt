-- ===== src/Session/Lifetime.antt =====
-- The lifetime of an API key that is asked for until a given time.
use sshark_api.Base.{
  ℕ, ◌+◌, ◌<◌, ◌≤◌, none, some, Option, List, [], ◌∷◌, ◌≡◌, arith, All, refl, ◌⊎◌, sym, subst,
  Bool-cases, ltb, leb, ◌||◌, inl, inr,
}
use sshark_api.Base.Int64.{two_63, two_64, sub64, is_negative}
use sshark_api.Base.Text.{Text}
use sshark_api.Session.ApiKeys.{
  ApiKeys, CreateParams, CreateApiKeyRequest, Request, creates, deletes, seconds_until,
  create_api_key, send_create,
}

seconds_until_future :
    (now e : ℕ)
    → now < two_63
    → now ≤ e
    → e < two_63 + now
    → (s : ℕ) × (seconds_until now (some e) ≡ some (some s)) × (s + now ≡ e)
unfolding seconds_until sub64 is_negative
seconds_until_future now e small future fits = (sub64 e now, ground arith, omega arith)

seconds_until_past :
    (now e : ℕ)
    → now < two_63
    → e < two_64
    → (e < now) ⊎ (two_63 + now ≤ e)
    → seconds_until now (some e) ≡ none
unfolding seconds_until sub64 is_negative
seconds_until_past now e small fits past = ground arith

-- The request asks Clerk for a key that expires at the given time.
abbrev pub Expires : ℕ → ℕ → Request → Type 0
Expires now e (creates params) =
    (s : ℕ) × (params.seconds_until_expiration ≡ some s) × (s + now ≡ e)
Expires now e (deletes id) = ⊥

module _ {K C : Type 0} (api : ApiKeys K) (marshal : C → Option Text) (now : ℕ) (subject : Text)
    (req : CreateApiKeyRequest C) where
  -- Without a lifetime nothing is requested.
  requests_refused :
      seconds_until now req.expiration ≡ none
      → (create_api_key api marshal now (some subject) (some req)).1 ≡ []
  unfolding create_api_key
  requests_refused h = ground arith

  -- With one, the only request that may be sent has it.
  requests_granted :
      (seconds : Option ℕ)
      → seconds_until now req.expiration ≡ some seconds
      → let sent = (create_api_key api marshal now (some subject) (some req)).1 in
        (sent ≡ [])
        ⊎ ((params : CreateParams) × (params.seconds_until_expiration ≡ seconds)
            × (sent ≡ creates params ∷ []))
  unfolding create_api_key send_create
  requests_granted seconds h = ground arith

-- A key that is asked for with an expiration is requested for exactly the seconds from now to then, as
-- the int64 reads; and none is requested where the expiration is before now, unless it is so far
-- before 1970 that the subtraction wraps round.
pub create_api_key-Expires :
    {K C : Type 0} (api : ApiKeys K) (marshal : C → Option Text) (now e : ℕ) (subject : Text)
    (req : CreateApiKeyRequest C)
    → now < two_63
    → e < two_64
    → req.expiration ≡ some e
    → let sent = (create_api_key api marshal now (some subject) (some req)).1 in
      All (Expires now e) sent × ((e < now) ⊎ (two_63 + now ≤ e) → sent ≡ [])
create_api_key-Expires api marshal now e subject req small fits asked =
    let Fine : List Request → Type 0 =
      λ sent. All (Expires now e) sent × ((e < now) ⊎ (two_63 + now ≤ e) → sent ≡ []) in
    let nothing : Fine [] = (tt, λ _. refl) in
    elim (Bool-cases (ltb e now || leb (two_63 + now) e)) [
      | inl late ↦
          let past : (e < now) ⊎ (two_63 + now ≤ e) = ground arith in
          let refused : seconds_until now req.expiration ≡ none =
            rw asked (seconds_until_past now e small fits past) in
          subst Fine (sym (requests_refused api marshal now subject req refused)) nothing
      | inr timely ↦
          let (s, same, sum) = seconds_until_future now e small (ground arith) (ground arith) in
          elim (requests_granted api marshal now subject req (some s) (rw asked same)) [
            | inl silent ↦ subst Fine (sym silent) nothing
            | inr (params, lasts, sent) ↦
                subst Fine (sym sent) (((s, lasts, sum), tt), λ past. absurd (ground arith))
          ]
    ]
