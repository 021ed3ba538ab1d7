-- ===== src/Parsers/Gpg/Tests.antt =====
-- The capabilities of a concrete key.
use sshark_api.Base.{true, false, none, some, [], ◌∷◌, ◌≡◌, ◌||◌}
use sshark_api.Base.Text.{Text, codes}
use sshark_api.Parsers.Gpg.{Signature, Entity, extract_capabilities, first_signature}
use sshark_api.Parsers.Gpg.Unique.{
  IsUnique, lists, primary_grants, subkeys_grant, extract_capabilities-IsUnique,
}

abbrev signing : Signature
signing = record {
  flag_sign = true;
  flag_certify = true;
  flag_encrypt_communications = false;
  flag_encrypt_storage = false;
  flag_authenticate = false;
  key_lifetime_secs = none;
}

abbrev entity : Entity
entity = record {
  fingerprint = codes "AB";
  pub_key_algo = 22;
  bit_length = some 256;
  creation_time = 7;
  identities = λ n. record { user_id = some (codes "ada"); self_signature = some signing } ∷ [];
  subkeys = some (record signing { flag_authenticate = true }) ∷ none ∷ [];
}

extract_capabilities-IsUnique_example :
    IsUnique (extract_capabilities entity)
    × ((s : Text)
        → lists (extract_capabilities entity) s ≡ (
            primary_grants (first_signature (entity.identities 1)) s
            || subkeys_grant entity.subkeys s))
extract_capabilities-IsUnique_example = extract_capabilities-IsUnique entity
