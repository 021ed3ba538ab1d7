-- ===== src/KeyManagers/Tests.antt =====
-- A stored key found again at the provider.
use sshark_api.Base.{none, some, [], ◌∷◌, ◌≡◌, inl, refl}
use sshark_api.Base.Text.{Text, codes, itoa, is_empty, fields}
use sshark_api.Store.{PublicKey, ssh, ok}
use sshark_api.KeyOps.{resolve_provider_key_id}
use sshark_api.Parsers.Ssh.{Digest}
use sshark_api.Parsers.Gpg.{Openpgp}
use sshark_api.Fetchers.Gitlab
use sshark_api.KeyManagers.{
  Client, ListedKey, get_keys, with_response, status_error, fingerprint_of, gitlab_manager,
  github_manager,
}
use sshark_api.KeyManagers.Fingerprints.{Stands, resolve_finds_scraped}
use sshark_api.Samples.{key}

-- The bytes are the text, and their own hash.
abbrev digest : Digest
digest = record { Bytes = Text; decode = λ t. some t; hash = λ b. b }

abbrev openpgp : Openpgp
openpgp = record { Body = Text; decode = λ t. none; read_key_ring = λ b. none }

abbrev listed : ListedKey
listed = record { id = 12; key = codes "ssh-ed25519 AAAA ada" }

abbrev client : Client
client = record { get = λ path. some (200, some (listed ∷ [])); delete = λ path. some 204 }

abbrev stored : PublicKey
stored = record key { fingerprint = codes "SHA256:AAAA" }

resolve_finds_scraped_example :
    (j : ListedKey) × Stands digest openpgp j (listed ∷ [])
    × (fingerprint_of digest openpgp ssh j.key ≡ codes "SHA256:AAAA")
    × (resolve_provider_key_id (gitlab_manager digest openpgp client (codes "t")) stored
        ≡ ok (itoa j.id))
    × (resolve_provider_key_id (github_manager digest openpgp client (codes "t")) stored
        ≡ ok (itoa j.id))
resolve_finds_scraped_example =
    resolve_finds_scraped digest openpgp client (codes "t") stored (listed ∷ []) refl
      (unfold get_keys with_response status_error in refl)
      (listed, inl refl, inl ([], (unfold Gitlab.parse_ssh_key fields in refl)))
      (unfold is_empty in refl)
