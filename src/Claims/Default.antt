-- ===== src/Claims/Default.antt =====
-- The first name of a profile: `pickDefaultUsername` and `fallbackUsername`.
use sshark_api.Base.{
  ℕ, zero, suc, ◌+◌, ◌≤◌, ◌<◌, true, false, none, some, List, [], ◌∷◌, ◌++◌, if◌then◌else◌, ◌≡◌,
  inl, inr, refl, arith, find, length, All, All-append, length-append, length-take, ap, ltb, ◌≢◌,
  ◌/◌, ◌%◌, Bool-cases, Option-cases, take, ◌∙◌,
}
use sshark_api.Base.Text.{
  digits, itoa, is_space, trim_space, trim_left, trim_right, Text, codes, text_eq_iff, equal_fold,
  len,
}
use sshark_api.Store.{Profile, no_free_username, World, ok, err}
use sshark_api.Username.Format.{IsNameChar, validate_username_iff, len-eq-length}
use sshark_api.Username.{is_name_char, is_alnum, valid, validate_username}
use sshark_api.Identity.{Account}
use sshark_api.Tables.Profiles
use sshark_api.Claims.{
  try_suffixes, pick_default_username, first_candidate, fallback_username, numbered, clerk_prefix,
  is_valid,
}
use sshark_api.Username.{max_username_length}

-- Nobody but the user holds the name, in any case variant.
abbrev pub IsFree : Text → Text → List Profile → Type 0
IsFree subject name profiles = elim (find (λ p. equal_fold p.username name) profiles) [
  | none ↦ Unit {0}
  | some holder ↦ holder.clerk_user_id ≡ subject
]

-- A name that was found available is free.
available-IsFree :
    (name subject : Text) (w : World)
    → (Profiles.is_username_available name subject w).0 ≡ ok true
    → IsFree subject name w.profiles
unfolding Profiles.is_username_available
available-IsFree name subject w h =
    elim (Option-cases (find (λ p. equal_fold p.username name) w.profiles)) [
      | inl nobody ↦ rw (nobody, IsFree) tt
      | inr (holder, held) ↦
          rw (held, IsFree) (ground (arith, text_eq_iff holder.clerk_user_id subject))
    ]

-- Asking writes nothing to the profiles.
profiles-is_username_available :
    (name subject : Text) (w : World)
    → (Profiles.is_username_available name subject w).1.profiles ≡ w.profiles
unfolding Profiles.is_username_available
profiles-is_username_available name subject w = ground arith

try_suffixes-IsFree :
    (subject candidate name : Text) (rounds suffix : ℕ) (w : World)
    → (try_suffixes subject candidate rounds suffix w).0 ≡ ok name
    → (validate_username name ≡ valid) × IsFree subject name w.profiles
unfolding try_suffixes
try_suffixes-IsFree subject candidate name zero suffix w h = absurd (cc)
try_suffixes-IsFree subject candidate name (suc rounds) suffix w h =
    let attempt : Text = numbered candidate suffix in
    let asked : World = (Profiles.is_username_available attempt subject w).1 in
    let later = try_suffixes-IsFree subject candidate name rounds (suffix + 1) asked in
    ground (
      arith,
      available-IsFree attempt subject w,
      rw (profiles-is_username_available attempt subject w) at later,
      try_suffixes-IsFree subject candidate name rounds (suffix + 1) w,
    )

-- A default name is well formed and free: `ValidateUsername` accepts it, and nobody but the user
-- holds it in the table that was read, in any case variant. This holds whichever statements fail.
pub pick_default_username-IsFree :
    (subject : Text) (accounts : List Account) (name : Text) (w : World)
    → (pick_default_username subject accounts w).0 ≡ ok name
    → (validate_username name ≡ valid) × IsFree subject name w.profiles
unfolding pick_default_username
pick_default_username-IsFree subject accounts name w h =
    try_suffixes-IsFree subject (first_candidate subject accounts) name 21 0 w h

-- A character of a name is no white space.
not-is_space : (c : ℕ) → is_name_char c ≡ true → is_space c ≡ false
unfolding is_space is_alnum
not-is_space c h = ground arith

-- A text of name characters is its own trim.
trim_space-eq : (s : Text) → All IsNameChar s → trim_space s ≡ s
unfolding trim_space
trim_space-eq s h = rw (left s h) (right s h)
  where
    left : (s : Text) → All IsNameChar s → trim_left s ≡ s
    left [] h = refl
    left (c ∷ s) (hc, hs) = rw (not-is_space c hc)

    right : (s : Text) → All IsNameChar s → trim_right s ≡ s
    right [] h = refl
    right (c ∷ s) (hc, hs) = rw (not-is_space c hc) (ap (λ r. c ∷ r) (right s hs))

digits-IsNameChar : (f n : ℕ) (out : Text) → All IsNameChar out → All IsNameChar (digits f n out)
unfolding digits is_alnum
digits-IsNameChar zero n out h = h
digits-IsNameChar (suc f) n out h =
    let digit : IsNameChar (b'0' + n % 10) = ground arith in
    elim (Bool-cases (ltb n 10)) [
      | inl last ↦ rw last (digit, h)
      | inr more ↦ rw more (digits-IsNameChar f (n / 10) ((b'0' + n % 10) ∷ out) (digit, h))
    ]

numbered-IsNameChar :
    (candidate : Text) (n : ℕ)
    → All IsNameChar candidate
    → All IsNameChar (numbered candidate n) × (length candidate ≤ length (numbered candidate n))
unfolding numbered itoa
numbered-IsNameChar candidate zero h = (h, omega arith)
numbered-IsNameChar candidate (suc n) h = (
  All-append IsNameChar candidate _ h
      (unfold is_alnum in refl, digits-IsNameChar (suc (suc n + 1)) (suc n + 1) [] tt),
  omega (arith, length-append candidate (b'-' ∷ itoa (suc n + 1))),
)

-- A long text of name characters is refused.
validate_username_long : (s : Text) → All IsNameChar s → 39 < length s → validate_username s ≢ valid
validate_username_long s h long ok_verdict =
    let (w, _) = (validate_username_iff s).0 ok_verdict in
    let short : length s ≤ 39 = rw (trim_space-eq s h) at w.short_enough in omega arith

try_suffixes_long :
    (subject candidate : Text) (rounds suffix : ℕ) (w : World)
    → All IsNameChar candidate
    → 39 < length candidate
    → try_suffixes subject candidate rounds suffix w ≡ (err no_free_username, w)
unfolding try_suffixes
try_suffixes_long subject candidate zero suffix w h long = refl
try_suffixes_long subject candidate (suc rounds) suffix w h long =
    let (chars, longer) = numbered-IsNameChar candidate suffix h in
    ground (
      arith,
      validate_username_long (numbered candidate suffix) chars (omega arith),
      try_suffixes_long subject candidate rounds (suffix + 1) w h long,
    )

take-All : (n : ℕ) (s : Text) → All IsNameChar s → All IsNameChar (take n s)
take-All zero s h = tt
take-All (suc n) [] h = tt
take-All (suc n) (c ∷ s) (hc, hs) = (hc, take-All n s hs)

-- The prefix is dropped.
fallback_username-prefix :
    (id : Text)
    → 0 < len id
    → fallback_username (clerk_prefix ++ id)
      ≡ codes "user-"
        ++ (if ltb max_username_length (len id) then take max_username_length id else id)
unfolding fallback_username
fallback_username-prefix id h =
    let longer : ltb 5 (1 + (1 + (1 + (1 + (1 + len id))))) ≡ true = ground arith in rw longer

fallback_username_long :
    (id : Text)
    → All IsNameChar id
    → 34 < length id
    → All IsNameChar (fallback_username (clerk_prefix ++ id))
      × (39 < length (fallback_username (clerk_prefix ++ id)))
fallback_username_long id h long =
    let bytes = len-eq-length id h in
    rw (fallback_username-prefix id (omega arith))
      (elim (Bool-cases (ltb max_username_length (len id))) [
        | inl cut ↦ rw cut (
          All-append IsNameChar (codes "user-") (take 39 id) user_chars (take-All 39 id h),
          ground (arith, length-take 39 id),
        )
        | inr whole ↦ rw whole (All-append IsNameChar (codes "user-") id user_chars h, omega arith)
      ])
  where
    user_chars : All IsNameChar (codes "user-")
    user_chars = unfold is_alnum in (refl, (refl, (refl, (refl, (refl, tt)))))

unusable :
    (accounts : List Account)
    → All (λ a. validate_username a.username ≢ valid) accounts
    → find (λ a. is_valid (validate_username a.username)) accounts ≡ none
unusable [] h = refl
unusable (a ∷ accounts) h = ground (arith, h.0, unusable accounts h.1)

first_candidate-fallback :
    (subject : Text) (accounts : List Account)
    → All (λ a. validate_username a.username ≢ valid) accounts
    → first_candidate subject accounts ≡ fallback_username subject
unfolding first_candidate
first_candidate-fallback subject accounts unnamed =
    rw (first_candidate, unusable accounts unnamed) refl

-- For a user none of whose accounts has a name that `ValidateUsername` accepts, and whose Clerk identifier
-- has more than 34 characters behind `user_`, all of them letters, digits, dashes or underscores, no
-- default name is found, and nothing is asked: the fallback is too long, and so are its numbered variants.
pub pick_default_username_long :
    (id : Text) (accounts : List Account) (w : World)
    → All IsNameChar id
    → 34 < length id
    → All (λ a. validate_username a.username ≢ valid) accounts
    → pick_default_username (clerk_prefix ++ id) accounts w ≡ (err no_free_username, w)
unfolding pick_default_username
pick_default_username_long id accounts w h long unnamed =
    let (chars, longer) = fallback_username_long id h long in
    let subject : Text = clerk_prefix ++ id in
    ap (λ name. try_suffixes subject name 21 0 w)
      (first_candidate-fallback subject accounts unnamed)
    ∙ try_suffixes_long subject (fallback_username subject) 21 0 w chars longer
