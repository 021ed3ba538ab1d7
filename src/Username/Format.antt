-- ===== src/Username/Format.antt =====
-- Which texts `ValidateUsername` accepts.
use sshark_api.Base.{
  ℕ, zero, suc, ◌-◌, ◌≤◌, ◌<◌, Bool, true, false, not, ◌||◌, [], ◌∷◌, if◌then◌else◌, ◌≡◌, ◌↔◌, refl,
  arith, ltb, length, All,
}
use sshark_api.Base.Text.{Text, len, trim_space, to_lower}
use sshark_api.Username.{
  min_username_length, max_username_length, is_alnum, is_name_char, matches_rest, username_pattern,
  is_reserved, valid, username_invalid, username_reserved, validate_username,
}

abbrev pub IsNameChar : ℕ → Type 0
IsNameChar c = is_name_char c ≡ true

-- The last character is a letter or a digit.
abbrev pub EndsAlnum : Text → Type 0
EndsAlnum [] = ⊥
EndsAlnum (c ∷ []) = is_alnum c ≡ true
EndsAlnum (c ∷ d ∷ s) = EndsAlnum (d ∷ s)

abbrev pub StartsAlnum : Text → Type 0
StartsAlnum [] = ⊥
StartsAlnum (c ∷ s) = is_alnum c ≡ true

-- 3 to 39 letters, digits, dashes and underscores, the first and the last a letter or a digit.
pub record IsWellFormed (s : Text) : Type 0 where
  pub long_enough : min_username_length ≤ length s
  pub short_enough : length s ≤ max_username_length
  pub name_chars : All IsNameChar s
  pub starts_alnum : StartsAlnum s
  pub ends_alnum : EndsAlnum s

matches_rest_sound :
    (lo hi : ℕ) (s : Text)
    → matches_rest lo hi s ≡ true
    → (lo < length s) × (length s ≤ suc hi) × All IsNameChar s × EndsAlnum s
unfolding matches_rest
matches_rest_sound lo hi [] h = cc
matches_rest_sound lo zero (c ∷ []) h = ground arith
matches_rest_sound lo zero (c ∷ d ∷ s) h = cc
matches_rest_sound lo (suc hi) (c ∷ []) h = ground arith
matches_rest_sound lo (suc hi) (c ∷ d ∷ s) h =
    ground (arith, matches_rest_sound (lo - 1) hi (d ∷ s))

matches_rest_complete :
    (lo hi : ℕ) (s : Text)
    → lo < length s
    → length s ≤ suc hi
    → All IsNameChar s
    → EndsAlnum s
    → matches_rest lo hi s ≡ true
unfolding matches_rest
matches_rest_complete lo hi [] a b p e = absurd e
matches_rest_complete lo zero (c ∷ []) a b p e = ground arith
matches_rest_complete lo zero (c ∷ d ∷ s) a b p e = absurd (omega arith)
matches_rest_complete lo (suc hi) (c ∷ []) a b p e = ground arith
matches_rest_complete lo (suc hi) (c ∷ d ∷ s) a b p e =
    ground (arith, matches_rest_complete (lo - 1) hi (d ∷ s))

pub username_pattern_iff : (s : Text) → (username_pattern s ≡ true) ↔ IsWellFormed s
unfolding username_pattern
username_pattern_iff [] = (λ h. absurd (cc), λ w. absurd w.starts_alnum)
username_pattern_iff (c ∷ []) = (λ h. ground arith, λ w. absurd (omega (arith, w.long_enough)))
username_pattern_iff (c ∷ d ∷ s) = (
  λ h. ground (arith, matches_rest_sound 1 37 (d ∷ s)),
  λ w. ground (arith, matches_rest_complete 1 37 (d ∷ s)),
)

-- A name character is one byte of UTF-8.
pub len-eq-length : (s : Text) → All IsNameChar s → len s ≡ length s
unfolding len is_alnum
len-eq-length [] h = refl
len-eq-length (c ∷ s) h = ground (arith, len-eq-length s)

ladder_iff :
    (short long shaped taken : Bool)
    → ((if short || long
          then username_invalid
          else if not shaped
          then username_invalid
          else if taken
          then username_reserved
          else valid)
        ≡ valid)
      ↔ ((short ≡ false) × (long ≡ false) × (shaped ≡ true) × (taken ≡ false))
ladder_iff short long shaped taken = ground arith

in_range :
    (t : Text)
    → IsWellFormed t
    → (ltb (len t) min_username_length ≡ false) × (ltb max_username_length (len t) ≡ false)
in_range t w = ground (arith, len-eq-length t w.name_chars)

-- `ValidateUsername` accepts exactly the texts that, trimmed of white space, have 3 to 39
-- characters, all letters, digits, dashes or underscores, the first and the last a letter or a
-- digit, and are in no case variant a reserved name.
pub validate_username_iff :
    (username : Text)
    → (validate_username username ≡ valid) ↔ (
        IsWellFormed (trim_space username) × (is_reserved (to_lower (trim_space username)) ≡ false))
unfolding validate_username
validate_username_iff username =
    let t : Text = trim_space username in
    let ladder =
      ladder_iff (ltb (len t) min_username_length) (ltb max_username_length (len t))
        (username_pattern t) (is_reserved (to_lower t)) in
    (
      λ h. let (_, _, shaped, free) = ladder.0 h in ((username_pattern_iff t).0 shaped, free),
      λ (w, free).
          let (short, long) = in_range t w in
          ladder.1 (short, long, (username_pattern_iff t).1 w, free),
    )
