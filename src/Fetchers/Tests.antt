-- ===== src/Fetchers/Tests.antt =====
-- The look-up of a user that a provider does not know.
use sshark_api.Base.{false, Option, none, some, List, [], ◌≡◌, ◌↔◌, ◌⊎◌, inl, inr, refl}
use sshark_api.Base.Int64.{is_positive}
use sshark_api.Base.Text.{codes}
use sshark_api.Store.{err, user_not_found}
use sshark_api.Fetchers.{Reply, Client, Context, new_rate_limit, wait_for_rate_limit}
use sshark_api.Fetchers.Github
use sshark_api.Fetchers.Github.{GithubUser}
use sshark_api.Fetchers.Gitlab
use sshark_api.Fetchers.Gitlab.{GitlabUser}
use sshark_api.Fetchers.Unknown.{status_first, body_first, fetch_user_unknown_iff}

abbrev ctx : Context
ctx = record { now = 1000; done = false }

abbrev not_found : Reply
not_found = record { status_code = 404; header = λ name. [] }

abbrev no_user : Option GithubUser
no_user = none

abbrev no_users : Option (List GitlabUser)
no_users = some []

-- A client that checks the status first, and one that decodes first.
abbrev github : Client GithubUser
github h req limit =
    (status_first (h.check_status not_found) no_user, h.update_rate_limit not_found limit)

abbrev gitlab : Client (List GitlabUser)
gitlab h req limit =
    (body_first (h.check_status not_found) no_users, h.update_rate_limit not_found limit)

fetch_user_unknown_iff_example :
    (((Github.fetch_user github ctx new_rate_limit (codes "nobody")).0 ≡ err user_not_found)
      ↔ ((not_found.status_code ≡ 200) × (u : GithubUser) × (no_user ≡ some u) × (u.id ≡ 0)))
    × (((Gitlab.fetch_user gitlab ctx new_rate_limit (codes "nobody")).0 ≡ err user_not_found)
        ↔ (((not_found.status_code ≡ 200) ⊎ (not_found.status_code ≡ 404)) × (no_users ≡ some [])))
fetch_user_unknown_iff_example =
    fetch_user_unknown_iff ctx new_rate_limit 0 (codes "nobody") not_found github no_user gitlab
      no_users (unfold wait_for_rate_limit is_positive in refl) (λ h req limit. inl refl)
      (λ h req limit. inr refl)
