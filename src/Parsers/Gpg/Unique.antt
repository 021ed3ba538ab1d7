-- ===== src/Parsers/Gpg/Unique.antt =====
-- The capabilities of a key are listed once.
use sshark_api.Base.{
  Bool, true, false, none, some, Option, List, [], ◌∷◌, ◌++◌, ◌≡◌, any, arith, Bool-cases, inl, inr,
  ◌||◌, ◌&&◌, ap, ◌∙◌, subst,
}
use sshark_api.Base.Text.{Text, codes, text_eq, text_eq_iff}
use sshark_api.Parsers.Gpg.{
  Signature, Entity, append_unique, append_if, add_flags, first_signature, primary_capabilities,
  subkey_capabilities, extract_capabilities,
}

-- No text stands twice.
abbrev pub IsUnique : List Text → Type 0
IsUnique [] = Unit {0}
IsUnique (s ∷ rest) = (any (λ v. text_eq v s) rest ≡ false) × IsUnique rest

any-append : (p : Text → Bool) (xs ys : List Text) → any p (xs ++ ys) ≡ (any p xs || any p ys)
any-append p [] ys = ground arith
any-append p (x ∷ xs) ys = ground (arith, any-append p xs ys)

IsUnique-snoc :
    (slice : List Text) (s : Text)
    → IsUnique slice
    → any (λ v. text_eq v s) slice ≡ false
    → IsUnique (slice ++ s ∷ [])
IsUnique-snoc [] s unique fresh = ground arith
IsUnique-snoc (v ∷ slice) s unique fresh = (
  ground (arith, any-append (λ u. text_eq u v) slice (s ∷ []), text_eq_iff s v, text_eq_iff v s),
  IsUnique-snoc slice s unique.1 (ground arith),
)

append_if-IsUnique :
    (flag : Bool) (s : Text) (slice : List Text)
    → IsUnique slice
    → IsUnique (append_if flag s slice)
unfolding append_unique
append_if-IsUnique false s slice unique = unique
append_if-IsUnique true s slice unique = elim (Bool-cases (any (λ v. text_eq v s) slice)) [
  | inl there ↦ rw there unique
  | inr fresh ↦ rw fresh (IsUnique-snoc slice s unique fresh)
]

add_flags-IsUnique :
    (sig : Signature) (caps : List Text) → IsUnique caps → IsUnique (add_flags sig caps)
unfolding add_flags
add_flags-IsUnique sig caps unique =
    append_if-IsUnique sig.flag_encrypt_storage (codes "encrypt_storage") _ (
      append_if-IsUnique sig.flag_encrypt_communications (codes "encrypt_comms") _ (
        append_if-IsUnique sig.flag_certify (codes "certify") _
          (append_if-IsUnique sig.flag_sign (codes "sign") caps unique)))

primary-IsUnique : (sig : Option Signature) → IsUnique (primary_capabilities sig)
primary-IsUnique none = tt
primary-IsUnique (some sig) = add_flags-IsUnique sig [] tt

subkey_capabilities-IsUnique :
    (subkeys : List (Option Signature)) (caps : List Text)
    → IsUnique caps
    → IsUnique (subkey_capabilities subkeys caps)
unfolding subkey_capabilities
subkey_capabilities-IsUnique [] caps unique = unique
subkey_capabilities-IsUnique (none ∷ subkeys) caps unique =
    subkey_capabilities-IsUnique subkeys caps unique
subkey_capabilities-IsUnique (some sig ∷ subkeys) caps unique =
    subkey_capabilities-IsUnique subkeys _ (
      append_if-IsUnique sig.flag_authenticate (codes "authenticate") _
        (add_flags-IsUnique sig caps unique))

-- How the flags of one signature are collected into one test.
regroup_four : (a b c d e : Bool) → ((((a || b) || c) || d) || e) ≡ (a || (b || c || d || e))
regroup_four a b c d e = ground arith

regroup_two : (a b c d : Bool) → (((a || b) || c) || d) ≡ (a || ((b || c) || d))
regroup_two a b c d = ground arith

-- The text is listed.
abbrev pub lists : List Text → Text → Bool
lists caps s = any (λ v. text_eq v s) caps

lists-append_if :
    (flag : Bool) (t : Text) (caps : List Text) (s : Text)
    → lists (append_if flag t caps) s ≡ (lists caps s || (flag && text_eq t s))
unfolding append_unique
lists-append_if false t caps s = ground arith
lists-append_if true t caps s = elim (Bool-cases (lists caps t)) [
  | inr fresh ↦ rw fresh (any-append (λ v. text_eq v s) caps (t ∷ []) ∙ ground arith)
  | inl there ↦ rw there (elim (Bool-cases (text_eq t s)) [
    | inr other ↦ ground arith
    | inl same ↦
        let t_is_s : t ≡ s = (text_eq_iff t s).0 same in
        let listed : lists caps s ≡ true = subst (λ u. lists caps u ≡ true) t_is_s there in
        ground arith
  ])
]

-- A signature's flag of the name is set, among the four that both loops look at.
abbrev pub flags : Signature → Text → Bool
flags sig s =
    (sig.flag_sign && text_eq (codes "sign") s)
    || (sig.flag_certify && text_eq (codes "certify") s)
    || (sig.flag_encrypt_communications && text_eq (codes "encrypt_comms") s)
    || (sig.flag_encrypt_storage && text_eq (codes "encrypt_storage") s)

lists-add_flags :
    (sig : Signature) (caps : List Text) (s : Text)
    → lists (add_flags sig caps) s ≡ (lists caps s || flags sig s)
unfolding add_flags
lists-add_flags sig caps s =
    let signs : List Text = append_if sig.flag_sign (codes "sign") caps in
    let certifies : List Text = append_if sig.flag_certify (codes "certify") signs in
    let encrypts : List Text =
      append_if sig.flag_encrypt_communications (codes "encrypt_comms") certifies in
    rw
      (
        lists-append_if sig.flag_encrypt_storage (codes "encrypt_storage") encrypts s,
        lists-append_if sig.flag_encrypt_communications (codes "encrypt_comms") certifies s,
        lists-append_if sig.flag_certify (codes "certify") signs s,
        lists-append_if sig.flag_sign (codes "sign") caps s,
      )
      (regroup_four (lists caps s) (sig.flag_sign && text_eq (codes "sign") s)
        (sig.flag_certify && text_eq (codes "certify") s)
        (sig.flag_encrypt_communications && text_eq (codes "encrypt_comms") s)
        (sig.flag_encrypt_storage && text_eq (codes "encrypt_storage") s))

-- The primary key's signature grants the capability.
abbrev pub primary_grants : Option Signature → Text → Bool
primary_grants none s = false
primary_grants (some sig) s = flags sig s

-- The signature of one of the subkeys does.
abbrev pub subkeys_grant : List (Option Signature) → Text → Bool
subkeys_grant [] s = false
subkeys_grant (none ∷ subkeys) s = subkeys_grant subkeys s
subkeys_grant (some sig ∷ subkeys) s =
    (flags sig s || (sig.flag_authenticate && text_eq (codes "authenticate") s))
    || subkeys_grant subkeys s

lists-subkeys :
    (subkeys : List (Option Signature)) (caps : List Text) (s : Text)
    → lists (subkey_capabilities subkeys caps) s ≡ (lists caps s || subkeys_grant subkeys s)
unfolding subkey_capabilities
lists-subkeys [] caps s = ground arith
lists-subkeys (none ∷ subkeys) caps s = lists-subkeys subkeys caps s
lists-subkeys (some sig ∷ subkeys) caps s =
    rw
      (
        lists-subkeys subkeys
            (append_if sig.flag_authenticate (codes "authenticate") (add_flags sig caps)) s,
        lists-append_if sig.flag_authenticate (codes "authenticate") (add_flags sig caps) s,
        lists-add_flags sig caps s,
      )
      (regroup_two (lists caps s) (flags sig s)
        (sig.flag_authenticate && text_eq (codes "authenticate") s) (subkeys_grant subkeys s))

lists-primary :
    (sig : Option Signature) (s : Text) → lists (primary_capabilities sig) s ≡ primary_grants sig s
lists-primary none s = ground arith
lists-primary (some sig) s = lists-add_flags sig [] s

-- The capabilities that are read off a key have no duplicates, and a text is among them exactly if it
-- names a flag that is set: one of four in the signature of the first identity that has one, or one of
-- five in the signature of some subkey.
pub extract_capabilities-IsUnique :
    (entity : Entity)
    → IsUnique (extract_capabilities entity)
      × ((s : Text)
          → lists (extract_capabilities entity) s ≡ (
              primary_grants (first_signature (entity.identities 1)) s
              || subkeys_grant entity.subkeys s))
unfolding extract_capabilities
extract_capabilities-IsUnique entity =
    let primary : Option Signature = first_signature (entity.identities 1) in
    (
      subkey_capabilities-IsUnique entity.subkeys _ (primary-IsUnique primary),
      λ s.
          lists-subkeys entity.subkeys (primary_capabilities primary) s
          ∙ ap (λ b. b || subkeys_grant entity.subkeys s) (lists-primary primary s),
    )
