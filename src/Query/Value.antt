-- ===== src/Query/Value.antt =====
-- Value.String, Value.HasWildcard and unescape of internal/domain/query/ast.go.
use sshark_api.Base.{ℕ, Bool, true, false, [], ◌∷◌, ◌++◌, ◌==◌, ◌≡◌, refl}
use sshark_api.Base.Text.{Text, codes}
use sshark_api.Query.Ast.{Value}

abbrev pub backslash : ℕ
backslash = b'\\'

abbrev pub star : ℕ
star = b'*'

-- The loop of `unescape`: the result so far, and whether the last byte was a backslash.
unfoldable pub unescape_loop : Text → Text → Bool → Text
unescape_loop [] result escaped = result
unescape_loop (c ∷ s) result true = unescape_loop s (result ++ c ∷ []) false
unescape_loop (c ∷ s) result false = elim (c == backslash) [
  | true ↦ unescape_loop s result true
  | false ↦ unescape_loop s (result ++ c ∷ []) false
]

unfoldable pub unescape : Text → Text
unfolding unescape_loop
unescape s = unescape_loop s [] false

unfoldable pub wildcard_loop : Text → Bool → Bool
wildcard_loop [] escaped = false
wildcard_loop (c ∷ s) true = wildcard_loop s false
wildcard_loop (c ∷ s) false = elim (c == backslash) [
  | true ↦ wildcard_loop s true
  | false ↦ elim (c == star) [ true ↦ true | false ↦ wildcard_loop s false ]
]

unfoldable pub string : Value → Text
unfolding unescape
string v = unescape v.raw

unfoldable pub has_wildcard : Value → Bool
unfolding wildcard_loop
has_wildcard v = wildcard_loop v.raw false

unescape_example : string (record { raw = codes "a\\*b*" }) ≡ codes "a*b*"
unfolding string
unescape_example = refl

escaped_star_is_plain : has_wildcard (record { raw = codes "a\\*b" }) ≡ false
unfolding has_wildcard
escaped_star_is_plain = refl
