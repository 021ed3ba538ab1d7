-- ===== src/MyKeys/View.antt =====
-- The answers of api/authenticated/v1/keys.go, and the keys in them.
use sshark_api.Base.{ℕ, Bool, Option, none, some, List}
use sshark_api.Base.Text.{Text}
use sshark_api.Store.{PublicKey}
use sshark_api.Tables.Sources.{Joined}
use sshark_api.Public.{PublicSource, public_source}

-- authenticated.ConnectedAccount
pub record ConnectedAccount : Type 0 where
  pub provider : Text
  pub username : Text
  pub can_revoke : Bool
  pub missing_scopes : Option (List Text)

-- authenticated.MySSHKey
pub record MySshKey : Type 0 where
  pub id : ℕ
  pub key_data : Text
  pub fingerprint : Text
  pub verified : Bool
  pub revocable : Bool
  pub created_at : ℕ
  pub updated_at : ℕ
  pub published_by : PublicSource
  pub algorithm : Option Text
  pub comment : Option Text
  pub key_bits : Option ℕ

-- authenticated.MyGPGKey
pub record MyGpgKey : Type 0 where
  pub id : ℕ
  pub key_data : Text
  pub fingerprint : Text
  pub verified : Bool
  pub revocable : Bool
  pub created_at : ℕ
  pub updated_at : ℕ
  pub published_by : PublicSource
  pub algorithm : Option Text
  pub key_bits : Option ℕ
  pub expires_at : Option ℕ
  pub user_ids : Option (List Text)
  pub capabilities : Option (List Text)

-- authenticated.MyKeysResponse
pub record MyKeysResponse : Type 0 where
  pub accounts : List ConnectedAccount
  pub ssh_keys : List MySshKey
  pub gpg_keys : List MyGpgKey

-- The callers pass a source.
unfoldable pub to_my_ssh_key : Joined → Bool → Bool → PublicKey → MySshKey
to_my_ssh_key source verified revocable entity = record {
  id = entity.id;
  key_data = entity.key_data;
  fingerprint = entity.fingerprint;
  verified = verified;
  revocable = revocable;
  created_at = entity.created_at;
  updated_at = entity.updated_at;
  published_by = public_source source;
  algorithm = elim entity.ssh_metadata [ none ↦ none | some m ↦ some m.algorithm ];
  comment = elim entity.ssh_metadata [ none ↦ none | some m ↦ some m.comment ];
  key_bits = elim entity.ssh_metadata [ none ↦ none | some m ↦ m.key_bits ];
}

unfoldable pub to_my_gpg_key : Joined → Bool → Bool → PublicKey → MyGpgKey
to_my_gpg_key source verified revocable entity = record {
  id = entity.id;
  key_data = entity.key_data;
  fingerprint = entity.fingerprint;
  verified = verified;
  revocable = revocable;
  created_at = entity.created_at;
  updated_at = entity.updated_at;
  published_by = public_source source;
  algorithm = elim entity.gpg_metadata [ none ↦ none | some m ↦ some m.algorithm ];
  key_bits = elim entity.gpg_metadata [ none ↦ none | some m ↦ m.key_bits ];
  expires_at = elim entity.gpg_metadata [ none ↦ none | some m ↦ m.expires_at ];
  user_ids = elim entity.gpg_metadata [ none ↦ none | some m ↦ some m.user_ids ];
  capabilities = elim entity.gpg_metadata [ none ↦ none | some m ↦ some m.capabilities ];
}
