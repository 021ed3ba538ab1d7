-- ===== src/Base/Text.antt =====
-- Go strings. A text is the list of its code points; `len` counts the bytes of its UTF-8 form.
-- The functions are those of the packages strings and unicode that the program calls.
use Prim.Native.Nat.{ℕ, zero, suc, ◌+◌, ◌/◌, ◌%◌}
use Prim.Native.Char.{code}
use Prim.Native.String.{String}
use mathlib.Core.Path.{◌≡◌, refl}
use mathlib.Core.Logic.{◌↔◌}
use mathlib.Core.Bool.{Bool, true, false, ◌&&◌, ◌||◌}
use mathlib.Core.List.{List, [], ◌∷◌, ◌++◌}
use mathlib.Core.Option.{Option, none, some}
use native.Mathlib.Omega.{arith}
use sshark_api.Base.Tests.{ltb, leb, ◌==◌, ==_iff, if◌then◌else◌}

abbrev pub Text : Type 0
Text = List ℕ

-- A Go literal.
abbrev pub codes : String → Text
codes String.[] = []
codes (String.◌∷◌ c s) = code c ∷ codes s

-- `a == b` on strings.
unfoldable pub text_eq : Text → Text → Bool
text_eq [] [] = true
text_eq [] (_ ∷ _) = false
text_eq (_ ∷ _) [] = false
text_eq (a ∷ s) (b ∷ t) = a == b && text_eq s t

pub text_eq_iff : (s t : Text) → (text_eq s t ≡ true) ↔ (s ≡ t)
unfolding text_eq
text_eq_iff [] [] = ground arith
text_eq_iff [] (b ∷ t) = ground arith
text_eq_iff (a ∷ s) [] = ground arith
text_eq_iff (a ∷ s) (b ∷ t) = ground (arith, text_eq_iff s t, ==_iff a b)

pub text_eq_refl : (s : Text) → text_eq s s ≡ true
text_eq_refl s = (text_eq_iff s s).1 refl

unfoldable pub is_empty : Text → Bool
is_empty [] = true
is_empty (_ ∷ _) = false

-- The bytes that UTF-8 takes for a code point.
abbrev pub rune_len : ℕ → ℕ
rune_len c = if ltb c 0x80 then 1 else if ltb c 0x800 then 2 else if ltb c 0x10000 then 3 else 4

-- Go's `len`.
unfoldable pub len : Text → ℕ
len [] = 0
len (c ∷ s) = rune_len c + len s

-- unicode.IsSpace.
unfoldable pub is_space : ℕ → Bool
is_space c =
    (leb 0x9 c && leb c 0xD)
    || c == 0x20
    || c == 0x85
    || c == 0xA0
    || c == 0x1680
    || (leb 0x2000 c && leb c 0x200A)
    || c == 0x2028
    || c == 0x2029
    || c == 0x202F
    || c == 0x205F
    || c == 0x3000

unfoldable pub trim_left : Text → Text
unfolding is_space
trim_left [] = []
trim_left (c ∷ s) = if is_space c then trim_left s else c ∷ s

-- A space is dropped where nothing but spaces follows.
unfoldable pub trim_right : Text → Text
unfolding is_empty is_space
trim_right [] = []
trim_right (c ∷ s) = let rest = trim_right s in if is_space c && is_empty rest then [] else c ∷ rest

-- strings.TrimSpace.
unfoldable pub trim_space : Text → Text
unfolding trim_left trim_right
trim_space s = trim_right (trim_left s)

-- strings.HasPrefix.
unfoldable pub has_prefix : Text → Text → Bool
has_prefix s [] = true
has_prefix [] (_ ∷ _) = false
has_prefix (c ∷ s) (p ∷ q) = c == p && has_prefix s q

-- strings.TrimPrefix: what follows the prefix, or the text itself.
abbrev drop_prefix : Text → Text → Option Text
drop_prefix s [] = some s
drop_prefix [] (_ ∷ _) = none
drop_prefix (c ∷ s) (p ∷ q) = if c == p then drop_prefix s q else none

unfoldable pub trim_prefix : Text → Text → Text
trim_prefix s p = elim (drop_prefix s p) [ none ↦ s | some r ↦ r ]

-- The ASCII part of unicode.ToLower.
abbrev pub lower : ℕ → ℕ
lower c = if leb b'A' c && leb c b'Z' then c + 32 else c

unfoldable pub to_lower : Text → Text
to_lower [] = []
to_lower (c ∷ s) = lower c ∷ to_lower s

-- strings.EqualFold, on ASCII letters.
unfoldable pub equal_fold : Text → Text → Bool
unfolding text_eq to_lower
equal_fold s t = text_eq (to_lower s) (to_lower t)

-- strings.Join.
unfoldable pub join : List Text → Text → Text
join [] sep = []
join (p ∷ []) sep = p
join (p ∷ q ∷ ps) sep = p ++ (sep ++ join (q ∷ ps) sep)

-- strings.ReplaceAll of one character by another.
unfoldable pub replace_all : Text → ℕ → ℕ → Text
replace_all [] old new = []
replace_all (c ∷ s) old new = (if c == old then new else c) ∷ replace_all s old new

-- strconv.Itoa of a number that is not negative: `n` is below the fuel's power of ten.
unfoldable pub digits : ℕ → ℕ → Text → Text
digits zero n out = out
digits (suc f) n out =
    let out' = (b'0' + n % 10) ∷ out in
    let rest = digits f (n / 10) out' in if ltb n 10 then out' else rest

unfoldable pub itoa : ℕ → Text
unfolding digits
itoa n = digits (suc n) n []

itoa_example : itoa 1203 ≡ codes "1203"
unfolding itoa
itoa_example = refl

trim_example : trim_space (codes "  a b ") ≡ codes "a b"
unfolding trim_space
trim_example = refl

-- strings.Fields: the parts between runs of white space.
fields_from : Text → Text → List Text
unfolding is_empty is_space
fields_from [] cur = if is_empty cur then [] else cur ∷ []
fields_from (c ∷ s) cur = elim (is_space c) [
  | true ↦ if is_empty cur then fields_from s [] else cur ∷ fields_from s []
  | false ↦ fields_from s (cur ++ c ∷ [])
]

unfoldable pub fields : Text → List Text
unfolding fields_from
fields s = fields_from s []
