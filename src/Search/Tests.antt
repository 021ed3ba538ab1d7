-- ===== src/Search/Tests.antt =====
-- A search at concrete tables.
use sshark_api.Base.{
  true, none, some, List, [], ◌∷◌, ◌≡◌, ◌≤◌, inr, refl, All, length, keep, descending,
}
use sshark_api.Base.Text.{Text, codes, text_eq, is_empty}
use sshark_api.Store.{PublicKey, provider_github, World}
use sshark_api.Tables.Keys
use sshark_api.Tables.Sources
use sshark_api.Tables.Keys.Query.{Sql, selects}
use sshark_api.Query.Ast.{or_expr, and_expr, field, no_and, no_unary}
use sshark_api.Query.Parse.{Parser}
use sshark_api.Query.Builder.{lookup}
use sshark_api.Query.Value.{has_wildcard}
use sshark_api.Public.{SshPublicKey, entity_to_ssh_public_key}
use sshark_api.Search.{SearchParams, SearchResponse, ssh_kind, search_keys, where_of, default_value}
use sshark_api.Search.Shown.{IsShown, search_keys-IsShown}
use sshark_api.Samples.{world, key}

-- Every text is read as the query of one field.
abbrev parser : Parser
parser t = inr (record {
  expression =
      or_expr
        (and_expr
          (field (record { name = codes "fingerprint"; value = record { raw = codes "fp" } }))
          no_unary)
        no_and;
})

abbrev sql : Sql
sql = record {
  accepts = λ statement args. true;
  holds = λ clause args k s. text_eq (k.fingerprint) (codes "fp");
}

abbrev params : SearchParams
params = record {
  q = some (codes "@fingerprint:{fp}");
  query = none;
  fields = none;
  limit = some 5;
  offset = none;
}

abbrev with_metadata : PublicKey
with_metadata = record key {
  ssh_metadata =
      some (record { algorithm = codes "ssh-rsa"; comment = []; options = []; key_bits = none });
}

abbrev tables : World
tables = world (with_metadata ∷ key ∷ [])

abbrev shown : SearchResponse SshPublicKey
shown = record {
  entities =
      record {
        id = 2;
        key_data = codes "k";
        fingerprint = codes "fp";
        created_at = 6;
        updated_at = 6;
        published_by = record {
          id = 1;
          provider = provider_github;
          username = codes "ada";
          uri = [];
          user_id = codes "1";
          profile_username = none;
        };
        algorithm = some (codes "ssh-rsa");
        comment = some [];
        key_bits = none;
      }
      ∷ [];
  query = codes "@fingerprint:{fp}";
  total = 1;
  limit = 5;
  offset = 0;
}

search_keys-IsShown_example :
    (clause : Text × List Text) × ((where_of ssh_kind parser params).1 ≡ inr clause)
    × All (IsShown ssh_kind sql clause tables.public_keys tables.sources) shown.entities
    × (length shown.entities ≤ default_value params.limit 10)
    × (1
        ≡ length (
            keep
              (selects sql ssh_kind.key_type clause.0 clause.1 tables.sources)
              tables.public_keys))
unfolding lookup has_wildcard Keys.scan_public_keys descending
search_keys-IsShown_example =
    search_keys-IsShown ssh_kind parser sql params tables 200 shown
      (unfold search_keys Sources.get text_eq is_empty entity_to_ssh_public_key in refl)
