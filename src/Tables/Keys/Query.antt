-- ===== src/Tables/Keys/Query.antt =====
-- `SearchWithQuery` of internal/infra/publickeys/postgres/repository.go: the keys of a type that a
-- clause of the search language selects. What PostgreSQL makes of a statement is a parameter.
pub mod Selected
use sshark_api.Base.{
  ℕ, ◌+◌, Bool, true, false, not, ◌&&◌, ◌||◌, Option, none, some, List, ◌++◌, ◌==◌, if◌then◌else◌,
  find, keep, length,
}
use sshark_api.Base.Int64.{is_negative}
use sshark_api.Base.Text.{Text, codes, is_empty, itoa}
use sshark_api.Store.{
  KeyType, ssh, gpg, PublicKey, Source, database, World, M, Result, ok, err, pure, ◌>>=◌, statement,
}
use sshark_api.Tables.Keys
use sshark_api.Tables.Keys.{key_type_eq, SearchResult}

-- Whether the database runs a statement with arguments, and whether a clause holds of a key and its
-- source.
pub record Sql : Type 0 where
  pub accepts : Text → List Text → Bool
  pub holds : Text → List Text → PublicKey → Source → Bool

unfoldable pub build_search_base : KeyType → Text × Text
build_search_base ssh = (
  codes
      "public_keys pk\n\t\t\tJOIN sources s ON pk.source_id = s.id\n\t\t\tJOIN ssh_key_metadata sm ON pk.id = sm.key_id",
  codes " WHERE pk.key_type = 'ssh'",
)
build_search_base gpg = (
  codes
      "public_keys pk\n\t\t\tJOIN sources s ON pk.source_id = s.id\n\t\t\tJOIN gpg_key_metadata gm ON pk.id = gm.key_id",
  codes " WHERE pk.key_type = 'gpg'",
)

unfoldable pub full_where : KeyType → Text → Text
unfolding build_search_base is_empty
full_where type clause =
    let base : Text = (build_search_base type).1 in
    if is_empty clause then base else base ++ (codes " AND " ++ clause)

unfoldable pub count_query : KeyType → Text → Text
unfolding full_where
count_query type clause =
    codes "SELECT COUNT(*) FROM " ++ ((build_search_base type).0 ++ full_where type clause)

-- The two placeholders after those of the clause are the limit and the offset.
unfoldable pub select_query : KeyType → Text → ℕ → Text
unfolding full_where itoa
select_query type clause args =
    codes
      "\n\t\tSELECT pk.id, pk.source_id, pk.key_type, pk.key_data, pk.provider_key_id, pk.fingerprint,\n\t\t       pk.created_at, pk.updated_at\n\t\tFROM "
    ++ ((build_search_base type).0
        ++ (full_where type clause
            ++ (codes " ORDER BY pk.created_at DESC LIMIT $"
                ++ (itoa (args + 1) ++ (codes " OFFSET $" ++ itoa (args + 2))))))

-- The row of the metadata table that the key is joined with.
abbrev has_metadata : KeyType → PublicKey → Bool
has_metadata ssh k = elim k.ssh_metadata [ none ↦ false | some _ ↦ true ]
has_metadata gpg k = elim k.gpg_metadata [ none ↦ false | some _ ↦ true ]

module _ (sql : Sql) (type : KeyType) (clause : Text) (args : List Text) where
  -- The rows that the joins and the WHERE clause keep.
  unfoldable pub selects : List Source → PublicKey → Bool
  unfolding key_type_eq is_empty
  selects sources k =
      key_type_eq k.key_type type
      && has_metadata type k
      && elim (find (λ s. s.id == k.source_id) sources) [
        | none ↦ false
        | some s ↦ is_empty clause || sql.holds clause args k s
      ]

  abbrev pub chosen : World → List PublicKey
  chosen w = keep (selects w.sources) w.public_keys

  abbrev pub count : World → Result ℕ × World
  count w =
      if sql.accepts (count_query type clause) args
      then (ok (length (chosen w)), w)
      else (err database, w)

  -- The limit and the offset are int64; PostgreSQL refuses a negative one.
  abbrev pub select : ℕ → ℕ → World → Result (List PublicKey) × World
  select limit offset w =
      if sql.accepts (select_query type clause (length args)) args
        && not (is_negative limit)
        && not (is_negative offset)
      then (ok (Keys.page limit offset (chosen w)), w)
      else (err database, w)

  unfoldable pub search_with_query : ℕ → ℕ → M SearchResult
  unfolding statement selects count_query select_query is_negative
  search_with_query limit offset = do
    total ← statement count
    rows ← statement (select limit offset)
    entities ← Keys.scan_public_keys 8 rows
    pure (record { entities = entities; total = total })
