-- ===== src/Query/Basic.antt =====
-- The basic search of api/public/v1/sshsearch.go: the text of the query that asks a term, escaped and
-- between two wildcards, of each field. The grammar reads this text afterwards: its lexer drops
-- white space, refuses a backslash before an ordinary character, and refuses other characters.
use sshark_api.Base.{
  ℕ, Bool, false, List, [], ◌∷◌, ◌++◌, ◌==◌, ◌||◌, if◌then◌else◌, ◌≡◌, ◌≢◌, refl, arith,
  append_assoc, append-nil, All, map,
}
use sshark_api.Base.Text.{Text, codes, join}
use sshark_api.Query.Value.{backslash, star, string, unescape_loop}

-- The characters that the `strings.Replacer` puts a backslash before. The backslash is not one.
abbrev is_special : ℕ → Bool
is_special c =
    c == b'{'
    || c == b'}'
    || c == b'|'
    || c == b'&'
    || c == b'('
    || c == b')'
    || c == b'@'
    || c == b':'
    || c == b'*'

unfoldable pub escape_query_value : Text → Text
escape_query_value [] = []
escape_query_value (c ∷ s) =
    if is_special c then backslash ∷ c ∷ escape_query_value s else c ∷ escape_query_value s

-- The text between the braces of `"@" + field + ":{*" + escapedTerm + "*}"`.
unfoldable pub basic_value : Text → Text
unfolding escape_query_value
basic_value term = star ∷ (escape_query_value term ++ star ∷ [])

basic_part : Text → Text → Text
unfolding basic_value
basic_part term field = b'@' ∷ (field ++ (codes ":{" ++ (basic_value term ++ codes "}")))

-- strings.Join of one part is that part.
unfoldable pub build_basic_query : Text → List Text → Text
unfolding basic_part
build_basic_query term [] = []
build_basic_query term (f ∷ fs) = join (map (basic_part term) (f ∷ fs)) (codes " | ")

build_basic_query_example :
    build_basic_query (codes "a*") (codes "x" ∷ codes "y" ∷ []) ≡ codes "@x:{*a\\**} | @y:{*a\\**}"
unfolding build_basic_query join
build_basic_query_example = refl

abbrev pub HasNoBackslash : Text → Type 0
HasNoBackslash = All (λ c. c ≢ backslash)

unescape_loop-escape :
    (s rest out : Text)
    → HasNoBackslash s
    → unescape_loop (escape_query_value s ++ rest) out false ≡ unescape_loop rest (out ++ s) false
unfolding unescape_loop escape_query_value
unescape_loop-escape [] rest out h = rw append-nil
unescape_loop-escape (c ∷ s) rest out h =
    ground (arith, unescape_loop-escape s rest (out ++ c ∷ []) h.1, append_assoc out (c ∷ []) s)

-- Reading an escaped term gives the term back, where the term holds no backslash.
pub unescape-escape :
    (s : Text) → HasNoBackslash s → string (record { raw = escape_query_value s }) ≡ s
unfolding string unescape_loop
unescape-escape s h = rw (← append-nil (escape_query_value s)) (unescape_loop-escape s [] [] h)
