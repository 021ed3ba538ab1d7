-- ===== src/Search.antt =====
-- api/public/v1/sshsearch.go and gpgsearch.go: the search endpoints. The two handlers are one code with
-- different names in it, so they are one function of a `SearchKind`. The duration and the metrics are
-- left out; a limit and an offset are int64.
pub mod Shown
mod Tests
use sshark_api.Base.{ℕ, Bool, Option, none, some, List, [], ◌∷◌, ◌++◌, ◌⊎◌, inl, inr, if◌then◌else◌}
use sshark_api.Base.Text.{Text, codes}
use sshark_api.Store.{KeyType, ssh, gpg, PublicKey, M, Result, ok, err, pure, attempt, ◌>>=◌}
use sshark_api.Tables.Sources
use sshark_api.Tables.Sources.{Joined}
use sshark_api.Tables.Keys.{SearchResult}
use sshark_api.Tables.Keys.Query.{Sql, search_with_query}
use sshark_api.Query.Ast.{Query}
use sshark_api.Query.Parse.{Parser, parse}
use sshark_api.Query.Builder.{
  FieldMappings, built, unknown_field, build, ssh_field_mapping, gpg_field_mapping,
}
use sshark_api.Query.Basic.{build_basic_query}
use sshark_api.Api.{ApiError, Response, json, problem, status_ok, internal_error}
use sshark_api.Public.{
  SshPublicKey, GpgPublicKey, entity_to_ssh_public_key, entity_to_gpg_public_key,
}

-- public.SearchSSHKeysParams and SearchGPGKeysParams
pub record SearchParams : Type 0 where
  pub q : Option Text
  pub query : Option Text
  pub fields : Option (List Text)
  pub limit : Option ℕ
  pub offset : Option ℕ

-- public.SSHSearchResponse and GPGSearchResponse
pub record SearchResponse (K : Type 0) : Type 0 where
  pub entities : List K
  pub query : Text
  pub total : ℕ
  pub limit : ℕ
  pub offset : ℕ

-- In what the two handlers differ: the type, the field mapping, the two hints, and the entity shown.
pub record SearchKind (K : Type 0) : Type 0 where
  pub key_type : KeyType
  pub mappings : FieldMappings
  pub hint : Text
  pub basic_hint : Text
  pub to_public : Joined → PublicKey → K

abbrev pub default_value : Option ℕ → ℕ → ℕ
default_value none d = d
default_value (some n) d = n

unfoldable pub invalid_search_query : Text → Text → Text → ApiError
invalid_search_query message details suggestion = record {
  status_code = 400;
  code = codes "INVALID_SEARCH_QUERY";
  message = message;
  details = details;
  suggestion = suggestion;
}

-- A parameter that is given and not empty.
abbrev pub given : Option Text → Option Text
given none = none
given (some []) = none
given (some (c ∷ t)) = some (c ∷ t)

abbrev pub default_fields : List Text
default_fields = codes "source.username" ∷ codes "source.provider" ∷ []

abbrev pub fields_or_default : Option (List Text) → List Text
fields_or_default none = default_fields
fields_or_default (some []) = default_fields
fields_or_default (some (f ∷ fs)) = f ∷ fs

-- The clause and the arguments of a tree, or the problem.
unfoldable pub build_where : FieldMappings → Text → Option Query → ApiError ⊎ Text × List Text
unfolding build
build_where mappings hint none = inr ([], [])
build_where mappings hint (some tree) = elim (build mappings (some tree)) [
  | unknown_field n ↦
      inl (invalid_search_query (codes "Invalid query") (codes "unknown field: @" ++ n) hint)
  | built clause _ ↦ inr clause
]

module _ {K : Type 0} (kind : SearchKind K) (parser : Parser) where
  unfoldable pub advanced_where : Text → ApiError ⊎ Text × List Text
  unfolding build_where parse
  advanced_where q = elim (parse parser q) [
    | inl e ↦ inl (
        invalid_search_query (codes "Invalid query syntax") e
          (codes "Use @field:{value} syntax, e.g., @user:{torvalds}"))
    | inr tree ↦ build_where kind.mappings kind.hint tree
  ]

  unfoldable pub basic_where : Text → List Text → ApiError ⊎ Text × List Text
  unfolding build_where parse build_basic_query
  basic_where term fields = elim (parse parser (build_basic_query term fields)) [
    | inl e ↦ inl (
        invalid_search_query (codes "Invalid query") e
          (codes "Basic search term contains invalid characters"))
    | inr tree ↦ build_where kind.mappings kind.basic_hint tree
  ]

  -- The text that the answer repeats, and the clause with its arguments; or the problem.
  unfoldable pub where_of : SearchParams → Text × (ApiError ⊎ Text × List Text)
  unfolding advanced_where basic_where
  where_of params = elim (given params.q) [
    | some q ↦ (q, advanced_where q)
    | none ↦ elim (given params.query) [
      | some term ↦ (term, basic_where term (fields_or_default params.fields))
      | none ↦ ([], inr ([], []))
    ]
  ]

  -- The loop over the result: a key whose source cannot be read is left out.
  unfoldable pub with_sources : List PublicKey → M (List K)
  with_sources [] = pure []
  with_sources (entity ∷ entities) = do
    found ← attempt (Sources.get entity.source_id)
    rest ← with_sources entities
    pure (elim found [ err e ↦ rest | ok source ↦ kind.to_public source entity ∷ rest ])

  module _ (sql : Sql) where
    unfoldable pub run_search : Text → Text × List Text → ℕ → ℕ → M (Response (SearchResponse K))
    unfolding with_sources search_with_query
    run_search text clause limit offset = do
      found ← attempt (search_with_query sql kind.key_type clause.0 clause.1 limit offset)
      elim found [
        | err e ↦ pure (problem internal_error)
        | ok result ↦ do
          entities ← with_sources result.entities
          pure (
              json status_ok (record {
                entities = entities;
                query = text;
                total = result.total;
                limit = limit;
                offset = offset;
              }))
      ]

    -- The rest of the handler, by the clause or the problem.
    abbrev pub search_where :
        Text → ApiError ⊎ Text × List Text → ℕ → ℕ → M (Response (SearchResponse K))
    search_where text (inl p) limit offset = pure (problem p)
    search_where text (inr clause) limit offset = run_search text clause limit offset

    unfoldable pub search_keys : SearchParams → M (Response (SearchResponse K))
    unfolding where_of run_search
    search_keys params =
        let (text, clause) = where_of params in
        search_where text clause (default_value params.limit 10) (default_value params.offset 0)

abbrev pub ssh_kind : SearchKind SshPublicKey
ssh_kind = record {
  key_type = ssh;
  mappings = ssh_field_mapping;
  hint = codes "Check field names: user, provider, algorithm, fingerprint, comment, key_bits";
  basic_hint = codes "Check field names: user, provider, algorithm, fingerprint, comment";
  to_public = entity_to_ssh_public_key;
}

abbrev pub gpg_kind : SearchKind GpgPublicKey
gpg_kind = record {
  key_type = gpg;
  mappings = gpg_field_mapping;
  hint = codes "Check field names: user, provider, algorithm, fingerprint, key_bits, user_id";
  basic_hint = codes "Check field names: user, provider, algorithm, fingerprint, user_id";
  to_public = entity_to_gpg_public_key;
}

unfoldable pub search_ssh_keys :
    Parser → Sql → SearchParams → M (Response (SearchResponse SshPublicKey))
unfolding search_keys
search_ssh_keys parser sql params = search_keys ssh_kind parser sql params

unfoldable pub search_gpg_keys :
    Parser → Sql → SearchParams → M (Response (SearchResponse GpgPublicKey))
unfolding search_keys
search_gpg_keys parser sql params = search_keys gpg_kind parser sql params
