-- ===== src/Parsers/Gpg.antt =====
-- internal/infra/fetchers/gpgparse/parser.go: what is read off an armored OpenPGP key.
pub mod Unique
mod Tests
use sshark_api.Base.{
  ℕ, ◌+◌, Bool, true, false, not, Option, none, some, List, [], ◌∷◌, ◌++◌, if◌then◌else◌, any, ◌==◌,
}
use sshark_api.Base.Text.{Text, codes, text_eq, itoa}
use sshark_api.Store.{Result, ok, err, other}

-- What the program reads of a signature, an identity, a subkey and an entity of go-crypto. The
-- identities are a Go map: `identities n` is the order in which the loop numbered n meets them. The
-- fingerprint is its upper-case hexadecimal spelling, and a lifetime is in seconds.
pub record Signature : Type 0 where
  pub flag_sign : Bool
  pub flag_certify : Bool
  pub flag_encrypt_communications : Bool
  pub flag_encrypt_storage : Bool
  pub flag_authenticate : Bool
  pub key_lifetime_secs : Option ℕ

pub record Identity : Type 0 where
  pub user_id : Option Text
  pub self_signature : Option Signature

pub record Entity : Type 0 where
  pub fingerprint : Text
  pub pub_key_algo : ℕ
  pub bit_length : Option ℕ
  pub creation_time : ℕ
  pub identities : ℕ → List Identity
  pub subkeys : List (Option Signature)

-- armor.Decode, whose block has a type, and openpgp.ReadKeyRing.
pub record Openpgp : Type 1 where
  pub Body : Type 0
  pub decode : Text → Option (Text × Body)
  pub read_key_ring : Body → Option (List Entity)

pub record ParsedKey : Type 0 where
  pub fingerprint : Text
  pub algorithm : Text
  pub key_bits : Option ℕ
  pub expires_at : Option ℕ
  pub user_ids : List Text
  pub capabilities : List Text

-- The numbers of the algorithms are those of RFC 9580.
abbrev algorithm_names : List (ℕ × Text)
algorithm_names =
    (1, codes "RSA")
    ∷ (2, codes "RSA")
    ∷ (3, codes "RSA")
    ∷ (17, codes "DSA")
    ∷ (16, codes "ELGAMAL")
    ∷ (19, codes "ECDSA")
    ∷ (22, codes "EDDSA")
    ∷ (18, codes "ECDH")
    ∷ (25, codes "X25519")
    ∷ (26, codes "X448")
    ∷ (27, codes "ED25519")
    ∷ (28, codes "ED448")
    ∷ []

abbrev name_in : ℕ → List (ℕ × Text) → Text
name_in algo [] = codes "UNKNOWN(" ++ (itoa algo ++ codes ")")
name_in algo ((n, name) ∷ rest) = if n == algo then name else name_in algo rest

unfoldable pub algorithm_name : ℕ → Text
unfolding itoa
algorithm_name algo = name_in algo algorithm_names

unfoldable pub append_unique : List Text → Text → List Text
unfolding text_eq
append_unique slice s = if any (λ v. text_eq v s) slice then slice else slice ++ s ∷ []

abbrev pub append_if : Bool → Text → List Text → List Text
append_if flag s caps = if flag then append_unique caps s else caps

-- The four flags that both loops look at, in their order.
unfoldable pub add_flags : Signature → List Text → List Text
unfolding append_unique
add_flags sig caps = append_if sig.flag_encrypt_storage (codes "encrypt_storage") (
    append_if sig.flag_encrypt_communications (codes "encrypt_comms")
      (append_if sig.flag_certify (codes "certify") (append_if sig.flag_sign (codes "sign") caps)))

-- The first identity that has a self-signature: the loop stops there.
unfoldable pub first_signature : List Identity → Option Signature
first_signature [] = none
first_signature (identity ∷ rest) = elim identity.self_signature [
  | none ↦ first_signature rest
  | some sig ↦ some sig
]

abbrev pub primary_capabilities : Option Signature → List Text
primary_capabilities none = []
primary_capabilities (some sig) = add_flags sig []

-- The loop over the subkeys.
unfoldable pub subkey_capabilities : List (Option Signature) → List Text → List Text
unfolding add_flags
subkey_capabilities [] caps = caps
subkey_capabilities (none ∷ subkeys) caps = subkey_capabilities subkeys caps
subkey_capabilities (some sig ∷ subkeys) caps =
    subkey_capabilities subkeys
      (append_if sig.flag_authenticate (codes "authenticate") (add_flags sig caps))

unfoldable pub extract_capabilities : Entity → List Text
unfolding first_signature subkey_capabilities
extract_capabilities entity =
    subkey_capabilities entity.subkeys
      (primary_capabilities (first_signature (entity.identities 1)))

unfoldable pub extract_expiration : Entity → Option ℕ
unfolding first_signature
extract_expiration entity = elim (first_signature (entity.identities 2)) [
  | none ↦ none
  | some sig ↦ elim sig.key_lifetime_secs [
    | none ↦ none
    | some lifetime ↦ some (entity.creation_time + lifetime)
  ]
]

unfoldable pub user_ids_of : List Identity → List Text
user_ids_of [] = []
user_ids_of (identity ∷ rest) = elim identity.user_id [
  | none ↦ user_ids_of rest
  | some id ↦ id ∷ user_ids_of rest
]

unfoldable pub parsed_of : Entity → ParsedKey
unfolding algorithm_name user_ids_of extract_capabilities extract_expiration
parsed_of entity = record {
  fingerprint = entity.fingerprint;
  algorithm = algorithm_name entity.pub_key_algo;
  key_bits = entity.bit_length;
  expires_at = extract_expiration entity;
  user_ids = user_ids_of (entity.identities 0);
  capabilities = extract_capabilities entity;
}

abbrev public_key_type : Text
public_key_type = codes "PGP PUBLIC KEY BLOCK"

abbrev of_first : Option (List Entity) → Result ParsedKey
of_first none = err other
of_first (some []) = err other
of_first (some (entity ∷ _)) = ok (parsed_of entity)

unfoldable pub parse : Openpgp → Text → Result ParsedKey
unfolding parsed_of text_eq
parse openpgp armored_key = elim (openpgp.decode armored_key) [
  | none ↦ err other
  | some block ↦
      if text_eq block.0 public_key_type
      then of_first (openpgp.read_key_ring block.1)
      else err other
]
