-- ===== src/Query/Builder/Values.antt =====
-- The clause of internal/infra/query/postgres/builder.go, and the text between the braces of a query.
use sshark_api.Base.{
  ℕ, some, List, [], ◌∷◌, if◌then◌else◌, ◌≡◌, refl, ap, arith, length, map, map-append, suc, ◌⊎◌,
  inl, inr, Bool-cases,
}
use sshark_api.Base.Text.{Text, codes}
use sshark_api.Query.Ast.{
  Field, OrExpr, nil, or_expr, AndExpr, nil_and, and_expr, Unary, nil_unary, sub_expr, field,
  nil_field, AndExprs, no_and, more_and, Unaries, no_unary, more_unary, Query, fields_or,
}
use sshark_api.Query.Ast.{fields_and, fields_unary, fields_ands, fields_unaries}
use sshark_api.Query.Value.{has_wildcard}
use sshark_api.Query.Builder.{FieldMappings, Built, built, unknown_field, build, lookup}
use sshark_api.Query.Builder.Refines.{
  render_field, render_or, render_and, render_unary, render_ands, render_unaries, first_unknown,
  build_lem,
}

-- A field with its value rubbed out: only whether it holds a wildcard is left.
unfoldable pub blank : Field → Field
blank f = record f { value = record { raw = if has_wildcard f.value then codes "*" else [] } }

-- A query with every value rubbed out, but for whether it holds a wildcard.
unfoldable mutual
  pub blank_or : OrExpr → OrExpr
  blank_or nil = nil
  blank_or (or_expr l r) = or_expr (blank_and l) (blank_ands r)

  pub blank_and : AndExpr → AndExpr
  blank_and nil_and = nil_and
  blank_and (and_expr l r) = and_expr (blank_unary l) (blank_unaries r)

  pub blank_unary : Unary → Unary
  blank_unary nil_unary = nil_unary
  blank_unary (sub_expr e) = sub_expr (blank_or e)
  blank_unary (field f) = field (blank f)
  blank_unary nil_field = nil_field

  pub blank_ands : AndExprs → AndExprs
  blank_ands no_and = no_and
  blank_ands (more_and a r) = more_and (blank_and a) (blank_ands r)

  pub blank_unaries : Unaries → Unaries
  blank_unaries no_unary = no_unary
  blank_unaries (more_unary u r) = more_unary (blank_unary u) (blank_unaries r)

has_wildcard-blank : (f : Field) → has_wildcard (blank f).value ≡ has_wildcard f.value
unfolding blank
has_wildcard-blank f = elim (Bool-cases (has_wildcard f.value)) [
  | inl w ↦ rw w (unfold has_wildcard in refl)
  | inr w ↦ rw w (unfold has_wildcard in refl)
]

name-blank : (f : Field) → (blank f).name ≡ f.name
unfolding blank
name-blank f = refl

length-map-blank : (fs : List Field) → length (map blank fs) ≡ length fs
length-map-blank [] = refl
length-map-blank (f ∷ fs) = ap suc (length-map-blank fs)

mutual
  unfolding fields_or blank_or

  fields_or-blank : (e : OrExpr) → fields_or (blank_or e) ≡ map blank (fields_or e)
  fields_or-blank nil = refl
  fields_or-blank (or_expr l r) =
      cc (map-append blank (fields_and l) (fields_ands r), fields_and-blank l, fields_ands-blank r)

  fields_and-blank : (e : AndExpr) → fields_and (blank_and e) ≡ map blank (fields_and e)
  fields_and-blank nil_and = refl
  fields_and-blank (and_expr l r) = cc (
    map-append blank (fields_unary l) (fields_unaries r),
    fields_unary-blank l,
    fields_unaries-blank r,
  )

  fields_unary-blank : (u : Unary) → fields_unary (blank_unary u) ≡ map blank (fields_unary u)
  fields_unary-blank nil_unary = refl
  fields_unary-blank (sub_expr e) = fields_or-blank e
  fields_unary-blank (field f) = refl
  fields_unary-blank nil_field = refl

  fields_ands-blank : (r : AndExprs) → fields_ands (blank_ands r) ≡ map blank (fields_ands r)
  fields_ands-blank no_and = refl
  fields_ands-blank (more_and a r) =
      cc (map-append blank (fields_and a) (fields_ands r), fields_and-blank a, fields_ands-blank r)

  fields_unaries-blank :
      (r : Unaries) → fields_unaries (blank_unaries r) ≡ map blank (fields_unaries r)
  fields_unaries-blank no_unary = refl
  fields_unaries-blank (more_unary u r) = cc (
    map-append blank (fields_unary u) (fields_unaries r),
    fields_unary-blank u,
    fields_unaries-blank r,
  )

length-fields_and : (e : AndExpr) → length (fields_and (blank_and e)) ≡ length (fields_and e)
length-fields_and e = rw (fields_and-blank e) (length-map-blank (fields_and e))

length-fields_unary : (u : Unary) → length (fields_unary (blank_unary u)) ≡ length (fields_unary u)
length-fields_unary u = rw (fields_unary-blank u) (length-map-blank (fields_unary u))

module _ (m : FieldMappings) where
  first_unknown-blank : (fs : List Field) → first_unknown m (map blank fs) ≡ first_unknown m fs
  unfolding first_unknown
  first_unknown-blank [] = refl
  first_unknown-blank (f ∷ fs) = rw name-blank (ground (arith, first_unknown-blank fs))

  render_field-blank : (f : Field) (k : ℕ) → render_field m (blank f) k ≡ render_field m f k
  unfolding render_field
  render_field-blank f k =
      ground (arith, name-blank f, has_wildcard-blank f, ap (λ n. lookup n m) (name-blank f))

  mutual
    unfolding blank_or render_or

    render_or-blank : (e : OrExpr) (k : ℕ) → render_or m (blank_or e) k ≡ render_or m e k
    render_or-blank nil k = refl
    render_or-blank (or_expr l r) k =
        rw (length-fields_and l, render_and-blank l k, render_ands-blank r _)

    render_and-blank : (e : AndExpr) (k : ℕ) → render_and m (blank_and e) k ≡ render_and m e k
    render_and-blank nil_and k = refl
    render_and-blank (and_expr l r) k =
        rw (length-fields_unary l, render_unary-blank l k, render_unaries-blank r _)

    render_unary-blank : (u : Unary) (k : ℕ) → render_unary m (blank_unary u) k ≡ render_unary m u k
    render_unary-blank nil_unary k = refl
    render_unary-blank (sub_expr e) k = render_or-blank e k
    render_unary-blank (field f) k = render_field-blank f k
    render_unary-blank nil_field k = refl

    render_ands-blank : (r : AndExprs) (k : ℕ) → render_ands m (blank_ands r) k ≡ render_ands m r k
    render_ands-blank no_and k = refl
    render_ands-blank (more_and a r) k =
        rw (length-fields_and a, render_and-blank a k, render_ands-blank r _)

    render_unaries-blank :
        (r : Unaries) (k : ℕ) → render_unaries m (blank_unaries r) k ≡ render_unaries m r k
    render_unaries-blank no_unary k = refl
    render_unaries-blank (more_unary u r) k =
        rw (length-fields_unary u, render_unary-blank u k, render_unaries-blank r _)

-- The clause of a result, or the name in its error.
abbrev pub clause_of : Built (Text × List Text) → Text ⊎ Text
clause_of (built (clause, _) _) = inl clause
clause_of (unknown_field n) = inr n

abbrev pub blank_query : Query → Query
blank_query q = record { expression = blank_or q.expression }

-- Of the text of a value, the WHERE clause that `Build` returns, or the error that it reports, depends on
-- nothing but whether it holds a wildcard: with every value replaced by one star, if it holds one, and by
-- the empty text, if not, the clause or error is the same.
pub build-blank :
    (m : FieldMappings) (q : Query)
    → clause_of (build m (some q)) ≡ clause_of (build m (some (blank_query q)))
build-blank m q =
    let fields : List Field = fields_or q.expression in
    rw (build_lem m q, build_lem m (blank_query q))
      (ground (
        arith,
        ap (first_unknown m) (fields_or-blank q.expression),
        first_unknown-blank m fields,
        render_or-blank m q.expression 1,
      ))
