-- ===== src/Identity/Tests.antt =====
-- The theorems on accounts at concrete data.
use sshark_api.Base.{[], ◌∷◌, ◌≡◌, refl}
use sshark_api.Base.Text.{text_eq, is_empty}
use sshark_api.Store.{provider_github}
use sshark_api.Identity.{account}
use sshark_api.Identity.Accounts.{IsProvedBy, account-IsProvedBy}
use sshark_api.Samples.{clerk, usr, subject, external, ada_account}

account-IsProvedBy_example :
    (ada_account.provider ≡ provider_github) × IsProvedBy (external ∷ []) ada_account
account-IsProvedBy_example =
    account-IsProvedBy clerk subject provider_github usr ada_account refl
      (unfold account text_eq is_empty in refl)
