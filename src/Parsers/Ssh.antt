-- ===== src/Parsers/Ssh.antt =====
-- internal/infra/fetchers/sshparse/parser.go: a line of the format of authorized_keys.
use sshark_api.Base.{Option, none, some, List, [], ◌∷◌, ◌++◌}
use sshark_api.Base.Text.{Text, codes, fields, join}

pub record Key : Type 0 where
  pub algorithm : Text
  pub comment : Text
  pub fingerprint : Text

abbrev pub zero_key : Key
zero_key = record { algorithm = []; comment = []; fingerprint = [] }

-- The standard base64 decoding, and the SHA-256 hash in base64 without padding.
pub record Digest : Type 1 where
  pub Bytes : Type 0
  pub decode : Text → Option Bytes
  pub hash : Bytes → Text

module _ (digest : Digest) where
  abbrev pub fingerprint_of : Text → Text
  fingerprint_of material = elim (digest.decode material) [
    | none ↦ []
    | some decoded ↦ codes "SHA256:" ++ digest.hash decoded
  ]

  abbrev pub of_parts : List Text → Key
  of_parts [] = zero_key
  of_parts (algorithm ∷ []) = zero_key
  of_parts (algorithm ∷ material ∷ rest) = record {
    algorithm = algorithm;
    comment = join rest (codes " ");
    fingerprint = fingerprint_of material;
  }

  unfoldable pub parse : Text → Key
  unfolding fields join
  parse key_line = of_parts (fields key_line)

  unfoldable pub fingerprint : Text → Text
  unfolding parse
  fingerprint key_line = (parse key_line).fingerprint
