-- ===== src/Fetchers/Unknown.antt =====
-- When the fetchers report that a provider does not know a user.
use sshark_api.Base.{
  ℕ, Option, none, some, List, [], ◌∷◌, ◌≡◌, ◌↔◌, ◌⊎◌, arith, refl, ap, ◌∙◌, subst, sym, ◌++◌, inl,
  inr,
}
use sshark_api.Base.Text.{Text, codes}
use sshark_api.Store.{Result, ok, err, other, user_not_found}
use sshark_api.Fetchers.{
  Reply, RateLimit, Request, Handlers, Client, Context, wait_for_rate_limit, send, decoded,
}
use sshark_api.Fetchers.Github
use sshark_api.Fetchers.Github.{GithubUser}
use sshark_api.Fetchers.Gitlab
use sshark_api.Fetchers.Gitlab.{GitlabUser}

-- A body that does not decode is an error of its own.
abbrev pub body_or_other : {B : Type 0} → Option B → Result B
body_or_other none = err other
body_or_other (some b) = ok b

-- The first error of the status check and the decoding, in this order and in the other. The client
-- keeps the two handlers in a map, and runs them in any order.
abbrev pub status_first : {B : Type 0} → Result (Unit {0}) → Option B → Result B
status_first (err e) body = err e
status_first (ok _) body = body_or_other body

abbrev pub body_first : {B : Type 0} → Result (Unit {0}) → Option B → Result B
body_first checked none = err other
body_first (err e) (some b) = err e
body_first (ok _) (some b) = ok b

-- The client runs the handlers on one response.
abbrev pub Answers : {B : Type 0} → Client B → Reply → Option B → Type 0
Answers client res body =
    (h : Handlers) (req : Request) (limit : RateLimit)
    → ((client h req limit).0 ≡ status_first (h.check_status res) body)
      ⊎ ((client h req limit).0 ≡ body_first (h.check_status res) body)

-- What a fetch makes of the client's result.
abbrev made : {B C : Type 0} → (B → Result C) → Result B → Result C
made f (err e) = err e
made f (ok b) = f b

decoded-made :
    {B C : Type 0} (f : B → Result C) (r : Result B) (limit : RateLimit)
    → (decoded f (r, limit)).0 ≡ made f r
decoded-made f (err e) limit = refl
decoded-made f (ok b) limit = refl

fetch-made :
    {B C : Type 0} (f : B → Result C) (client : Client B) (h : Handlers) (ctx : Context)
    (limit : RateLimit) (req : Request) (seconds : ℕ)
    → wait_for_rate_limit ctx limit ≡ ok seconds
    → (decoded f (send client h ctx limit req)).0 ≡ made f (client h req limit).0
unfolding send
fetch-made f client h ctx limit req seconds waited =
    let sent : send client h ctx limit req ≡ client h req limit = rw (send, waited) refl in
    ap (λ r. (decoded f r).0) sent ∙ decoded-made f (client h req limit).0 (client h req limit).1

abbrev HubUnknown : Reply → Option GithubUser → Type 0
HubUnknown res body = (res.status_code ≡ 200) × (u : GithubUser) × (body ≡ some u) × (u.id ≡ 0)

abbrev LabUnknown : Reply → Option (List GitlabUser) → Type 0
LabUnknown res body = ((res.status_code ≡ 200) ⊎ (res.status_code ≡ 404)) × (body ≡ some [])

github_status_first :
    (res : Reply) (body : Option GithubUser)
    → (made Github.known_user (status_first (Github.check_status res) body) ≡ err user_not_found)
      ↔ HubUnknown res body
unfolding Github.check_status
github_status_first res none = ground arith
github_status_first res (some u) = ground arith

github_body_first :
    (res : Reply) (body : Option GithubUser)
    → (made Github.known_user (body_first (Github.check_status res) body) ≡ err user_not_found)
      ↔ HubUnknown res body
unfolding Github.check_status
github_body_first res none = ground arith
github_body_first res (some u) = ground arith

gitlab_status_first :
    (res : Reply) (body : Option (List GitlabUser))
    → (made Gitlab.first_user (status_first (Gitlab.check_status res) body) ≡ err user_not_found)
      ↔ LabUnknown res body
unfolding Gitlab.check_status
gitlab_status_first res none = ground arith
gitlab_status_first res (some []) = ground arith
gitlab_status_first res (some (u ∷ users)) = ground arith

gitlab_body_first :
    (res : Reply) (body : Option (List GitlabUser))
    → (made Gitlab.first_user (body_first (Gitlab.check_status res) body) ≡ err user_not_found)
      ↔ LabUnknown res body
unfolding Gitlab.check_status
gitlab_body_first res none = ground arith
gitlab_body_first res (some []) = ground arith
gitlab_body_first res (some (u ∷ users)) = ground arith

-- A fetch's result has a property that both orders give.
either_order :
    {B C : Type 0} (P : Result C → Type 0) (f : B → Result C) (client : Client B) (res : Reply)
    (body : Option B) (h : Handlers) (ctx : Context) (limit : RateLimit) (req : Request)
    (seconds : ℕ)
    → Answers client res body
    → wait_for_rate_limit ctx limit ≡ ok seconds
    → P (made f (status_first (h.check_status res) body))
    → P (made f (body_first (h.check_status res) body))
    → P (decoded f (send client h ctx limit req)).0
either_order P f client res body h ctx limit req seconds answers waited p q =
    subst P (sym (fetch-made f client h ctx limit req seconds waited)) (elim (answers h req limit) [
      | inl e ↦ subst (λ r. P (made f r)) (sym e) p
      | inr e ↦ subst (λ r. P (made f r)) (sym e) q
    ])

-- Let each provider answer the look-up of a user with one response, and let the client run the status
-- check and the decoding of the body in any order. GitHub's fetcher reports the user as unknown exactly
-- if the status is 200 and the body is a user with the identifier 0; GitLab's exactly if the status is 200
-- or 404 and the body is an empty list. So the status 404, GitHub's own answer for an unknown name, is not
-- reported as an unknown user. The wait for the rate limit does not end with an error.
pub fetch_user_unknown_iff :
    (ctx : Context) (limit : RateLimit) (seconds : ℕ) (username : Text) (res : Reply)
    (github : Client GithubUser) (user : Option GithubUser) (gitlab : Client (List GitlabUser))
    (users : Option (List GitlabUser))
    → wait_for_rate_limit ctx limit ≡ ok seconds
    → Answers github res user
    → Answers gitlab res users
    → (((Github.fetch_user github ctx limit username).0 ≡ err user_not_found)
        ↔ ((res.status_code ≡ 200) × (u : GithubUser) × (user ≡ some u) × (u.id ≡ 0)))
      × (((Gitlab.fetch_user gitlab ctx limit username).0 ≡ err user_not_found)
          ↔ (((res.status_code ≡ 200) ⊎ (res.status_code ≡ 404)) × (users ≡ some [])))
unfolding Github.fetch_user Gitlab.fetch_user
fetch_user_unknown_iff ctx limit seconds username res github user gitlab users waited hub lab = (
  either_order (λ r. (r ≡ err user_not_found) ↔ HubUnknown res user) Github.known_user github res
      user Github.handlers ctx limit (record { path = codes "users/" ++ username; query = [] })
      seconds hub waited (github_status_first res user) (github_body_first res user),
  either_order (λ r. (r ≡ err user_not_found) ↔ LabUnknown res users) Gitlab.first_user gitlab res
      users Gitlab.handlers ctx limit
      (record { path = codes "/users"; query = (codes "username", username) ∷ [] }) seconds lab
      waited (gitlab_status_first res users) (gitlab_body_first res users),
)
