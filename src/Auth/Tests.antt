-- ===== src/Auth/Tests.antt =====
-- The theorem on authentication at a concrete request.
use sshark_api.Base.{true, false, none, ◌≡◌, refl}
use sshark_api.Base.Text.{codes, trim_space}
use sshark_api.Store.{ok}
use sshark_api.Auth.{
  ApiKey, Verifier, IsVouchedFor, require_auth, bearer_token, require_auth-IsVouchedFor,
}

abbrev key : ApiKey
key = record { subject = codes "user_1"; revoked = false; expired = false }

abbrev verifier : Verifier
verifier = record { verify = λ token. ok key; session = λ header. none }

require_auth-IsVouchedFor_example :
    (true ≡ true) × IsVouchedFor true verifier (codes "Bearer ak_1 ") (codes "user_1")
require_auth-IsVouchedFor_example =
    require_auth-IsVouchedFor true verifier (codes "Bearer ak_1 ") (codes "user_1")
      (unfold require_auth bearer_token trim_space in refl)
