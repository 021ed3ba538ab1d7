-- ===== src/Query/Builder.antt =====
-- internal/infra/query/postgres: the field mappings and the builder that turns a query into a WHERE
-- clause with numbered placeholders.
use sshark_api.Base.{
  ℕ, suc, ◌+◌, Bool, true, false, Option, none, some, List, [], ◌∷◌, ◌++◌, if◌then◌else◌, ◌≡◌, refl,
}
use sshark_api.Base.Text.{Text, codes, text_eq, itoa, join, replace_all}
use sshark_api.Query.Ast.{
  Value, Field, OrExpr, nil, or_expr, AndExpr, nil_and, and_expr, Unary, nil_unary, sub_expr, field,
  nil_field, AndExprs, no_and, more_and, Unaries, no_unary, more_unary, Query,
}
use sshark_api.Query.Value.{star, string, has_wildcard}
pub mod Refines
pub mod Values

pub record FieldMapping : Type 0 where
  pub column : Text
  pub is_array : Bool

-- A Go map from field names.
abbrev pub FieldMappings : Type 0
FieldMappings = List (Text × FieldMapping)

unfoldable pub lookup : Text → FieldMappings → Option FieldMapping
lookup k [] = none
lookup k ((j, v) ∷ m) = if text_eq j k then some v else lookup k m

abbrev scalar : Text → FieldMapping
scalar c = record { column = c; is_array = false }

abbrev array : Text → FieldMapping
array c = record { column = c; is_array = true }

abbrev pub ssh_field_mapping : FieldMappings
ssh_field_mapping =
    (codes "id", scalar (codes "pk.id"))
    ∷ (codes "fingerprint", scalar (codes "pk.fingerprint"))
    ∷ (codes "algorithm", scalar (codes "sm.algorithm"))
    ∷ (codes "comment", scalar (codes "sm.comment"))
    ∷ (codes "key_bits", scalar (codes "sm.key_bits"))
    ∷ (codes "source.username", scalar (codes "s.username"))
    ∷ (codes "source.provider", scalar (codes "s.provider"))
    ∷ (codes "source.user_id", scalar (codes "s.user_id"))
    ∷ (codes "source.uri", scalar (codes "s.uri"))
    ∷ []

abbrev pub gpg_field_mapping : FieldMappings
gpg_field_mapping =
    (codes "id", scalar (codes "pk.id"))
    ∷ (codes "fingerprint", scalar (codes "pk.fingerprint"))
    ∷ (codes "algorithm", scalar (codes "gm.algorithm"))
    ∷ (codes "key_bits", scalar (codes "gm.key_bits"))
    ∷ (codes "user_ids", array (codes "gm.user_ids"))
    ∷ (codes "capabilities", array (codes "gm.capabilities"))
    ∷ (codes "source.username", scalar (codes "s.username"))
    ∷ (codes "source.provider", scalar (codes "s.provider"))
    ∷ (codes "source.user_id", scalar (codes "s.user_id"))
    ∷ (codes "source.uri", scalar (codes "s.uri"))
    ∷ []

-- `buildContext` without its map, which no method changes.
pub record BuildContext : Type 0 where
  pub args : List Text
  pub arg_index : ℕ

-- A method's result: a value and the context after it, or the error `unknown field: @name`.
pub data Built (A : Type 0) : Type 0 where
  built : A → BuildContext → Built A
  unknown_field : Text → Built A

abbrev pub Build : Type 0 → Type 0
Build A = BuildContext → Built A

infixl 5 ◌>>=◌
abbrev pub ◌>>=◌ : {A B : Type 0} → Build A → (A → Build B) → Build B
◌>>=◌ m f c = elim (m c) [ built a c' ↦ f a c' | unknown_field n ↦ unknown_field n ]

abbrev pub pure : {A : Type 0} → A → Build A
pure a c = built a c

unfoldable pub add_arg : Text → Build Text
add_arg value c =
    built (b'$' ∷ itoa c.arg_index)
      (record { args = c.args ++ value ∷ []; arg_index = c.arg_index + 1 })

unfoldable pub build_scalar_condition : Text → Text → Bool → Build Text
unfolding add_arg
build_scalar_condition column value wildcard = elim wildcard [
  | true ↦ do
    placeholder ← add_arg (replace_all value star b'%')
    pure (column ++ (codes " LIKE " ++ placeholder))
  | false ↦ do placeholder ← add_arg value; pure (column ++ (codes " = " ++ placeholder))
]

unfoldable pub build_array_condition : Text → Text → Bool → Build Text
unfolding add_arg
build_array_condition column value wildcard = elim wildcard [
  | true ↦ do
    placeholder ← add_arg (replace_all value star b'%')
    pure (
        codes "EXISTS (SELECT 1 FROM unnest("
        ++ (column ++ (codes ") AS elem WHERE elem LIKE " ++ (placeholder ++ codes ")"))))
  | false ↦ do
    placeholder ← add_arg value
    pure (placeholder ++ (codes " = ANY(" ++ (column ++ codes ")")))
]

-- `strings.Join(parts, " OR ")` in parentheses, where there is more than one part.
abbrev pub group : Text → Text → List Text → Text
group sep left [] = left
group sep left (p ∷ ps) = codes "(" ++ (join (left ∷ p ∷ ps) sep ++ codes ")")

module _ (fields : FieldMappings) where
  unfoldable pub build_field : Field → Build Text
  unfolding build_array_condition build_scalar_condition
  build_field f c = elim (lookup f.name fields) [
    | none ↦ unknown_field f.name
    | some mapping ↦
        if mapping.is_array
        then build_array_condition mapping.column (string f.value) (has_wildcard f.value) c
        else build_scalar_condition mapping.column (string f.value) (has_wildcard f.value) c
  ]

  unfoldable mutual
    unfolding build_field

    pub build_or_expr : OrExpr → Build Text
    build_or_expr nil = pure []
    build_or_expr (or_expr l r) = do
      left ← build_and_expr l
      parts ← build_and_exprs r
      pure (group (codes " OR ") left parts)

    pub build_and_expr : AndExpr → Build Text
    build_and_expr nil_and = pure []
    build_and_expr (and_expr l r) = do
      left ← build_unary l
      parts ← build_unaries r
      pure (group (codes " AND ") left parts)

    pub build_unary : Unary → Build Text
    build_unary nil_unary = pure []
    build_unary (sub_expr e) = build_or_expr e
    build_unary (field f) = build_field f
    build_unary nil_field = pure []

    pub build_and_exprs : AndExprs → Build (List Text)
    build_and_exprs no_and = pure []
    build_and_exprs (more_and a r) = do
      part ← build_and_expr a
      parts ← build_and_exprs r
      pure (part ∷ parts)

    pub build_unaries : Unaries → Build (List Text)
    build_unaries no_unary = pure []
    build_unaries (more_unary u r) = do
      part ← build_unary u
      parts ← build_unaries r
      pure (part ∷ parts)

  -- `Build`: the clause and the arguments, or the name of the unknown field.
  unfoldable pub build : Option Query → Built (Text × List Text)
  unfolding build_or_expr
  build none = built ([], []) (record { args = []; arg_index = 1 })
  build (some q) =
      (do clause ← build_or_expr q.expression; λ c. built (clause, c.args) c)
        (record { args = []; arg_index = 1 })
