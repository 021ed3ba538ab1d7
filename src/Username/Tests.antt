-- ===== src/Username/Tests.antt =====
-- The theorems on usernames at concrete names.
use sshark_api.Base.{◌≡◌, ◌↔◌, false}
use sshark_api.Base.Text.{codes, trim_space, to_lower}
use sshark_api.Username.{validate_username, valid, is_reserved}
use sshark_api.Username.Format.{IsWellFormed, validate_username_iff}

validate_username_iff_example : (validate_username (codes " Merlin ") ≡ valid) ↔ (
    IsWellFormed (trim_space (codes " Merlin "))
    × (is_reserved (to_lower (trim_space (codes " Merlin "))) ≡ false))
validate_username_iff_example = validate_username_iff (codes " Merlin ")
