-- ===== src/Base/Int64.antt =====
-- Go's int64, by its two's complement: subtraction, the sign, and strconv.Atoi.
use Prim.Native.Nat.{ℕ, ◌+◌, ◌-◌, ◌*◌, ◌%◌}
use mathlib.Core.Path.{◌≡◌, refl}
use mathlib.Core.Bool.{Bool, not, ◌&&◌}
use mathlib.Core.List.{[], ◌∷◌}
use mathlib.Core.Option.{Option, none, some}
use sshark_api.Base.Tests.{ltb, leb, ◌==◌, if◌then◌else◌}
use sshark_api.Base.Text.{Text, codes}

abbrev pub two_63 : ℕ
two_63 = 0x8000_0000_0000_0000

abbrev pub two_64 : ℕ
two_64 = 0x1_0000_0000_0000_0000

unfoldable pub sub64 : ℕ → ℕ → ℕ
sub64 a b = (a + two_64 - b) % two_64

unfoldable pub is_negative : ℕ → Bool
is_negative a = leb two_63 a

unfoldable pub is_positive : ℕ → Bool
is_positive a = not (a == 0) && ltb a two_63

abbrev is_digit : ℕ → Bool
is_digit c = leb b'0' c && leb c b'9'

-- The number that decimal digits spell after those of `n`.
abbrev digits_after : Text → ℕ → Option ℕ
digits_after [] n = some n
digits_after (c ∷ s) n =
    let rest = digits_after s (n * 10 + (c - b'0')) in if is_digit c then rest else none

abbrev unsigned : Text → Option ℕ
unsigned [] = none
unsigned (c ∷ s) = digits_after (c ∷ s) 0

abbrev in_range : Option ℕ → Option ℕ
in_range none = none
in_range (some n) = if ltb n two_63 then some n else none

abbrev negated : Option ℕ → Option ℕ
negated none = none
negated (some n) = if leb n two_63 then some (sub64 0 n) else none

-- strconv.Atoi, and strconv.ParseInt for 64 bits: a sign may stand before the digits.
unfoldable pub atoi : Text → Option ℕ
atoi [] = none
atoi (c ∷ s) =
    if c == b'-'
    then negated (unsigned s)
    else if c == b'+'
    then in_range (unsigned s)
    else in_range (unsigned (c ∷ s))

atoi_example : atoi (codes "4999") ≡ some 4999
unfolding atoi
atoi_example = refl

atoi_overflow : atoi (codes "9223372036854775808") ≡ none
unfolding atoi
atoi_overflow = refl
