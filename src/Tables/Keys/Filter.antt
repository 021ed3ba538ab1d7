-- ===== src/Tables/Keys/Filter.antt =====
-- `buildFilterClause` of internal/infra/publickeys/postgres/repository.go.
use sshark_api.Base.{
  ℕ, ◌+◌, Bool, true, false, ◌&&◌, ◌||◌, Option, none, some, List, [], ◌∷◌, ◌++◌, ◌==◌,
}
use sshark_api.Base.Text.{Text, codes, text_eq, itoa}
use sshark_api.Store.{KeyType, ssh, gpg, PublicKey}

unfoldable pub key_type_eq : KeyType → KeyType → Bool
key_type_eq ssh ssh = true
key_type_eq gpg gpg = true
key_type_eq ssh gpg = false
key_type_eq gpg ssh = false

-- publickeys.SearchFilter
pub record SearchFilter : Type 0 where
  pub source_id : Option ℕ
  pub key_type : Option KeyType
  pub algorithm : Option Text

abbrev pub has_algorithm : Text → PublicKey → Bool
has_algorithm a k =
    elim k.ssh_metadata [ none ↦ false | some m ↦ text_eq m.algorithm a ]
    || elim k.gpg_metadata [ none ↦ false | some m ↦ text_eq m.algorithm a ]

-- The rows that the WHERE clause of `buildFilterClause` selects.
unfoldable pub passes : SearchFilter → PublicKey → Bool
unfolding key_type_eq
passes f k =
    elim f.source_id [ none ↦ true | some s ↦ k.source_id == s ]
    && elim f.key_type [ none ↦ true | some t ↦ key_type_eq k.key_type t ]
    && elim f.algorithm [ none ↦ true | some a ↦ has_algorithm a k ]

-- The arguments of `buildFilterClause`, and the clause with their placeholders.
pub data FilterArg : Type 0 where
  source_arg : ℕ → FilterArg
  type_arg : KeyType → FilterArg
  algorithm_arg : Text → FilterArg

abbrev pub algorithm_clause : Text → Text
algorithm_clause n =
    codes
      " AND EXISTS (SELECT 1 FROM ssh_key_metadata sm WHERE sm.key_id = pk.id AND sm.algorithm = $"
    ++ (n
        ++ (codes
              " UNION SELECT 1 FROM gpg_key_metadata gm WHERE gm.key_id = pk.id AND gm.algorithm = $"
            ++ (n ++ codes ")")))

unfoldable pub build_filter_clause : SearchFilter → Text × List FilterArg
build_filter_clause f =
    let by_source : Text × List FilterArg × ℕ = elim f.source_id [
      | none ↦ (codes " WHERE 1=1", [], 1)
      | some s ↦ (codes " WHERE 1=1 AND pk.source_id = $" ++ itoa 1, source_arg s ∷ [], 2)
    ] in
    let by_type : Text × List FilterArg × ℕ = elim f.key_type [
      | none ↦ by_source
      | some t ↦ (
        by_source.0 ++ (codes " AND pk.key_type = $" ++ itoa by_source.2),
        by_source.1 ++ type_arg t ∷ [],
        by_source.2 + 1,
      )
    ] in
    elim f.algorithm [
      | none ↦ (by_type.0, by_type.1)
      | some a ↦ (by_type.0 ++ algorithm_clause (itoa by_type.2), by_type.1 ++ algorithm_arg a ∷ [])
    ]
