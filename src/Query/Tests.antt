-- ===== src/Query/Tests.antt =====
-- The theorems on queries at a concrete query.
use sshark_api.Base.{some, List, [], ◌∷◌, ◌≡◌, refl, arith, map, length, none, ◌+◌}
use sshark_api.Base.Text.{Text, codes, replace_all, text_eq, itoa, join}
use sshark_api.Query.Ast.{
  or_expr, AndExpr, and_expr, sub_expr, field, no_and, more_and, no_unary, more_unary, Query,
  fields_or, Field,
}
use sshark_api.Query.Value.{string, has_wildcard}
use sshark_api.Query.Builder.{built, unknown_field, ssh_field_mapping, build, lookup}
use sshark_api.Query.Builder.Refines.{first_unknown, argument, render_or, build_lem}
use sshark_api.Query.Builder.Values.{clause_of, blank_query, build-blank}
use sshark_api.Query.Basic.{escape_query_value, unescape-escape}

abbrev cond : Field → AndExpr
cond f = and_expr (field f) no_unary

-- @algorithm:{rsa*} & (@id:{7} | @source.username:{o'b})
abbrev sample : Query
sample = record {
  expression =
      or_expr
        (and_expr
          (field (record { name = codes "algorithm"; value = record { raw = codes "rsa*" } }))
          (more_unary
            (sub_expr (
              or_expr (cond (record { name = codes "id"; value = record { raw = codes "7" } })) (
                more_and
                  (cond (record {
                    name = codes "source.username";
                    value = record { raw = codes "o'b" };
                  }))
                  no_and)))
            no_unary))
        no_and;
}

build_lem_example :
    build ssh_field_mapping (some sample)
    ≡ elim (first_unknown ssh_field_mapping (fields_or sample.expression)) [
      | some n ↦ unknown_field n
      | none ↦
          let args : List Text = map argument (fields_or sample.expression) in
          built
            (render_or ssh_field_mapping sample.expression 1, args)
            (record { args = args; arg_index = 1 + length (fields_or sample.expression) })
    ]
build_lem_example = build_lem ssh_field_mapping sample

build-blank_example :
    clause_of (build ssh_field_mapping (some sample))
    ≡ clause_of (build ssh_field_mapping (some (blank_query sample)))
build-blank_example = build-blank ssh_field_mapping sample

unescape-escape_example :
    string (record { raw = escape_query_value (codes "a{b}*") }) ≡ codes "a{b}*"
unescape-escape_example = unescape-escape (codes "a{b}*") (omega arith)

build_example :
    build ssh_field_mapping (
      some (record {
        expression =
            or_expr
              (and_expr
                (field (record { name = codes "algorithm"; value = record { raw = codes "rsa*" } }))
                no_unary)
              (more_and
                (and_expr
                  (field (record { name = codes "id"; value = record { raw = codes "7" } }))
                  no_unary)
                no_and);
      }))
    ≡ built
        (codes "(sm.algorithm LIKE $1 OR pk.id = $2)", codes "rsa%" ∷ codes "7" ∷ [])
        (record { args = codes "rsa%" ∷ codes "7" ∷ []; arg_index = 3 })
unfolding build lookup text_eq itoa join replace_all string has_wildcard
build_example = refl
