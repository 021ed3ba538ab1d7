-- ===== src/Session/Email.antt =====
-- When the page of the signed-in user panics.
use sshark_api.Base.{Option, none, some, List, [], ◌∷◌, ◌≡◌, ◌≢◌, ◌↔◌, arith}
use sshark_api.Base.Text.{Text}
use sshark_api.Store.{Profile, World, Result, ok}
use sshark_api.Identity.{Clerk}
use sshark_api.Claims.{ensure_profile}
use sshark_api.Session.{EmailAddress, SessionUser, primary_email, me}

primary_email_iff :
    (primary : Option Text) (emails : List EmailAddress)
    → (primary_email primary emails ≡ none) ↔ ((primary ≡ none) × (emails ≢ []))
unfolding primary_email
primary_email_iff primary [] = ground arith
primary_email_iff none (e ∷ emails) = ground arith
primary_email_iff (some id) (e ∷ emails) = ground (arith, primary_email_iff (some id) emails)

-- With a user that Clerk knows and a profile that is there or is made, the page of the signed-in user
-- panics exactly if the user has an e-mail address and Clerk reports none as the primary one.
pub me_panics_iff :
    (clerk : Clerk) (get_user : Text → Result SessionUser) (subject : Text) (usr : SessionUser)
    (w : World) (p : Profile)
    → get_user subject ≡ ok usr
    → (ensure_profile clerk subject w).0 ≡ ok p
    → ((me clerk get_user (some subject) w).0 ≡ ok none)
      ↔ ((usr.primary_email_id ≡ none) × (usr.emails ≢ []))
unfolding me
me_panics_iff clerk get_user subject usr w p known ensured =
    ground (arith, primary_email_iff usr.primary_email_id usr.emails)
