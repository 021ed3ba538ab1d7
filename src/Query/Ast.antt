-- ===== src/Query/Ast.antt =====
-- internal/domain/query/ast.go: the tree that the parser fills in. A nil pointer is `nil`.
use sshark_api.Base.{List, [], ◌∷◌, ◌++◌}
use sshark_api.Base.Text.{Text}

-- `Value.Raw` is the text between the braces, escapes included.
pub record Value : Type 0 where
  pub raw : Text

pub record Field : Type 0 where
  pub name : Text
  pub value : Value

-- `( '|' @@ )*` and `( '&' @@ )*` are lists of the block's own types.
mutual
  pub data OrExpr : Type 0 where
    nil : OrExpr
    or_expr : AndExpr → AndExprs → OrExpr

  pub data AndExpr : Type 0 where
    nil_and : AndExpr
    and_expr : Unary → Unaries → AndExpr

  pub data Unary : Type 0 where
    nil_unary : Unary
    sub_expr : OrExpr → Unary
    field : Field → Unary
    nil_field : Unary

  pub data AndExprs : Type 0 where
    no_and : AndExprs
    more_and : AndExpr → AndExprs → AndExprs

  pub data Unaries : Type 0 where
    no_unary : Unaries
    more_unary : Unary → Unaries → Unaries

pub record Query : Type 0 where
  pub expression : OrExpr

-- The fields of a query, from left to right.
unfoldable mutual
  pub fields_or : OrExpr → List Field
  fields_or nil = []
  fields_or (or_expr l r) = fields_and l ++ fields_ands r

  pub fields_and : AndExpr → List Field
  fields_and nil_and = []
  fields_and (and_expr l r) = fields_unary l ++ fields_unaries r

  pub fields_unary : Unary → List Field
  fields_unary nil_unary = []
  fields_unary (sub_expr e) = fields_or e
  fields_unary (field f) = f ∷ []
  fields_unary nil_field = []

  pub fields_ands : AndExprs → List Field
  fields_ands no_and = []
  fields_ands (more_and a r) = fields_and a ++ fields_ands r

  pub fields_unaries : Unaries → List Field
  fields_unaries no_unary = []
  fields_unaries (more_unary u r) = fields_unary u ++ fields_unaries r
