-- ===== src/Username.antt =====
-- internal/domain/profiles/username.go: what a username may be.
pub mod Format
mod Tests
use sshark_api.Base.{
  ℕ, zero, suc, ◌-◌, Bool, true, false, not, ◌&&◌, ◌||◌, List, [], ◌∷◌, ◌==◌, if◌then◌else◌, ◌≡◌,
  refl, ltb, leb, map, any,
}
use sshark_api.Base.Text.{Text, codes, text_eq, len, trim_space, to_lower}

abbrev pub min_username_length : ℕ
min_username_length = 3

abbrev pub max_username_length : ℕ
max_username_length = 39

-- `[a-zA-Z0-9]`
unfoldable pub is_alnum : ℕ → Bool
is_alnum c = (leb b'a' c && leb c b'z') || (leb b'A' c && leb c b'Z') || (leb b'0' c && leb c b'9')

-- `[a-zA-Z0-9_-]`
abbrev pub is_name_char : ℕ → Bool
is_name_char c = is_alnum c || c == b'_' || c == b'-'

-- `[a-zA-Z0-9_-]{lo,hi}[a-zA-Z0-9]$`: stop the repetition here, if it may, or read one more character.
unfoldable pub matches_rest : ℕ → ℕ → Text → Bool
matches_rest lo hi [] = false
matches_rest lo zero (c ∷ []) = lo == 0 && is_alnum c
matches_rest lo zero (c ∷ d ∷ s) = false
matches_rest lo (suc hi) (c ∷ []) = lo == 0 && is_alnum c
matches_rest lo (suc hi) (c ∷ d ∷ s) = is_name_char c && matches_rest (lo - 1) hi (d ∷ s)

-- `^[a-zA-Z0-9][a-zA-Z0-9_-]{1,37}[a-zA-Z0-9]$`
unfoldable pub username_pattern : Text → Bool
unfolding matches_rest is_alnum
username_pattern [] = false
username_pattern (c ∷ s) = is_alnum c && matches_rest 1 37 s

unfoldable pub reserved_usernames : List Text
reserved_usernames =
    codes "about"
    ∷ codes "admin"
    ∷ codes "administrator"
    ∷ codes "api"
    ∷ codes "app"
    ∷ codes "blog"
    ∷ codes "dashboard"
    ∷ codes "docs"
    ∷ codes "documentation"
    ∷ codes "explore"
    ∷ codes "help"
    ∷ codes "home"
    ∷ codes "login"
    ∷ codes "logout"
    ∷ codes "profile"
    ∷ codes "register"
    ∷ codes "roadmap"
    ∷ codes "root"
    ∷ codes "search"
    ∷ codes "settings"
    ∷ codes "signin"
    ∷ codes "signout"
    ∷ codes "signup"
    ∷ codes "support"
    ∷ codes "terms"
    ∷ codes "privacy"
    ∷ codes "contact"
    ∷ codes "legal"
    ∷ codes "security"
    ∷ codes "status"
    ∷ codes "pricing"
    ∷ codes "features"
    ∷ codes "team"
    ∷ codes "careers"
    ∷ codes "jobs"
    ∷ codes "news"
    ∷ codes "press"
    ∷ codes "media"
    ∷ codes "public"
    ∷ codes "static"
    ∷ codes "assets"
    ∷ codes "images"
    ∷ codes "css"
    ∷ codes "js"
    ∷ codes "fonts"
    ∷ codes "sitemap"
    ∷ codes "robots"
    ∷ codes "favicon"
    ∷ codes "sources"
    ∷ codes "users"
    ∷ codes "user"
    ∷ codes "me"
    ∷ codes "sshark"
    ∷ codes "keys"
    ∷ codes "gpg"
    ∷ []

unfoldable pub is_reserved : Text → Bool
unfolding reserved_usernames
is_reserved name = any (text_eq name) reserved_usernames

-- The error values that `ValidateUsername` wraps; `valid` is a nil error.
pub data Verdict : Type 0 where
  valid username_invalid username_reserved : Verdict

unfoldable pub validate_username : Text → Verdict
unfolding username_pattern is_reserved
validate_username username =
    let trimmed = trim_space username in
    if ltb (len trimmed) min_username_length || ltb max_username_length (len trimmed)
    then username_invalid
    else if not (username_pattern trimmed)
    then username_invalid
    else if is_reserved (to_lower trimmed)
    then username_reserved
    else valid

unfoldable pub normalize_username : Text → Text
normalize_username username = trim_space username

validate_example :
    (validate_username (codes " Merlin-1 ") ≡ valid)
    × (validate_username (codes "-ab") ≡ username_invalid)
    × (validate_username (codes "Admin") ≡ username_reserved)
unfolding validate_username trim_space len text_eq to_lower
validate_example = (refl, refl, refl)
