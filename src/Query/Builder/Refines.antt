-- ===== src/Query/Builder/Refines.antt =====
-- The builder against a rendering that carries no state: the field that stands n-th from the left
-- gets the placeholder `$n`, and the arguments are the values in that order.
use sshark_api.Base.{
  ℕ, ◌+◌, Bool, true, false, Option, none, some, List, [], ◌∷◌, ◌++◌, if◌then◌else◌, ◌≡◌, refl,
  arith, append_assoc, append-nil, length, map, length-append, map-append,
}
use sshark_api.Base.Text.{Text, codes, itoa, replace_all}
use sshark_api.Query.Ast.{
  Field, OrExpr, nil, or_expr, AndExpr, nil_and, and_expr, Unary, nil_unary, sub_expr, field,
  nil_field, AndExprs, no_and, more_and, Unaries, no_unary, more_unary, Query, fields_or,
}
use sshark_api.Query.Ast.{fields_and, fields_unary, fields_ands, fields_unaries}
use sshark_api.Query.Value.{star, string, has_wildcard}
use sshark_api.Query.Builder.{
  FieldMapping, FieldMappings, lookup, BuildContext, Built, built, unknown_field, group,
  build_field, build_or_expr, build_and_expr, build_unary, build_and_exprs, build_unaries, build,
  Build, ◌>>=◌, pure,
}

-- What a field's value becomes as an argument.
unfoldable pub argument : Field → Text
argument f = if has_wildcard f.value then replace_all (string f.value) star b'%' else string f.value

-- The condition of one column, with its placeholder.
unfoldable pub condition : FieldMapping → Bool → Text → Text
condition m true p =
    if m.is_array
    then codes "EXISTS (SELECT 1 FROM unnest("
      ++ (m.column ++ (codes ") AS elem WHERE elem LIKE " ++ (p ++ codes ")")))
    else m.column ++ (codes " LIKE " ++ p)
condition m false p =
    if m.is_array
    then p ++ (codes " = ANY(" ++ (m.column ++ codes ")"))
    else m.column ++ (codes " = " ++ p)

module _ (mappings : FieldMappings) where
  -- The first field, from the left, that the map does not hold.
  unfoldable pub first_unknown : List Field → Option Text
  first_unknown [] = none
  first_unknown (f ∷ fs) = elim (lookup f.name mappings) [
    | none ↦ some f.name
    | some _ ↦ first_unknown fs
  ]

  first_unknown-append :
      (xs ys : List Field)
      → first_unknown (xs ++ ys)
        ≡ elim (first_unknown xs) [ none ↦ first_unknown ys | some n ↦ some n ]
  unfolding first_unknown
  first_unknown-append [] ys = refl
  first_unknown-append (f ∷ xs) ys = ground (arith, first_unknown-append xs ys)

  unfoldable pub render_field : Field → ℕ → Text
  render_field f k = elim (lookup f.name mappings) [
    | none ↦ []
    | some m ↦ condition m (has_wildcard f.value) (b'$' ∷ itoa k)
  ]

  unfoldable mutual
    unfolding render_field

    pub render_or : OrExpr → ℕ → Text
    render_or nil k = []
    render_or (or_expr l r) k =
        group (codes " OR ") (render_and l k) (render_ands r (k + length (fields_and l)))

    pub render_and : AndExpr → ℕ → Text
    render_and nil_and k = []
    render_and (and_expr l r) k =
        group (codes " AND ") (render_unary l k) (render_unaries r (k + length (fields_unary l)))

    pub render_unary : Unary → ℕ → Text
    render_unary nil_unary k = []
    render_unary (sub_expr e) k = render_or e k
    render_unary (field f) k = render_field f k
    render_unary nil_field k = []

    pub render_ands : AndExprs → ℕ → List Text
    render_ands no_and k = []
    render_ands (more_and a r) k = render_and a k ∷ render_ands r (k + length (fields_and a))

    pub render_unaries : Unaries → ℕ → List Text
    render_unaries no_unary k = []
    render_unaries (more_unary u r) k =
        render_unary u k ∷ render_unaries r (k + length (fields_unary u))

  -- What a builder method must return at a context, for its fields and its rendering.
  abbrev Outcome : {A : Type 0} → List Field → (ℕ → A) → BuildContext → Built A
  Outcome fs render c = elim (first_unknown fs) [
    | some n ↦ unknown_field n
    | none ↦
        built (render c.arg_index)
          (record { args = c.args ++ map argument fs; arg_index = c.arg_index + length fs })
  ]

  build_field-Outcome :
      (f : Field) (c : BuildContext)
      → build_field mappings f c ≡ Outcome (f ∷ []) (render_field f) c
  unfolding build_field render_field first_unknown condition argument
  build_field-Outcome f c = ground arith

  -- Two methods one after the other, under any function of the two results.
  pair-Outcome :
      {A B C : Type 0} (xs ys : List Field) (m : Build A) (n : Build B) (f : ℕ → A) (g : ℕ → B)
      (h : A → B → C)
      → ((c : BuildContext) → m c ≡ Outcome xs f c)
      → ((c : BuildContext) → n c ≡ Outcome ys g c)
      → (c : BuildContext)
      → (m >>= λ a. n >>= λ b. pure (h a b)) c
        ≡ Outcome (xs ++ ys) (λ k. h (f k) (g (k + length xs))) c
  pair-Outcome xs ys m n f g h hm hn c =
      let c' : BuildContext = record {
        args = c.args ++ map argument xs;
        arg_index = c.arg_index + length xs;
      } in
      ground (
        arith,
        hm c,
        hn c',
        first_unknown-append xs ys,
        length-append xs ys,
        map-append argument xs ys,
        append_assoc c.args (map argument xs) (map argument ys),
      )

  none-Outcome : {A : Type 0} (a : A) (c : BuildContext) → pure a c ≡ Outcome [] (λ _. a) c
  unfolding first_unknown
  none-Outcome a c = rw append-nil (ground arith)

  mutual
    unfolding fields_or build_or_expr render_or

    or-Outcome :
        (e : OrExpr) (c : BuildContext)
        → build_or_expr mappings e c ≡ Outcome (fields_or e) (render_or e) c
    or-Outcome nil c = none-Outcome [] c
    or-Outcome (or_expr l r) c =
        pair-Outcome (fields_and l) (fields_ands r) (build_and_expr mappings l)
          (build_and_exprs mappings r) (render_and l) (render_ands r) (group (codes " OR "))
          (and-Outcome l) (ands-Outcome r) c

    and-Outcome :
        (e : AndExpr) (c : BuildContext)
        → build_and_expr mappings e c ≡ Outcome (fields_and e) (render_and e) c
    and-Outcome nil_and c = none-Outcome [] c
    and-Outcome (and_expr l r) c =
        pair-Outcome (fields_unary l) (fields_unaries r) (build_unary mappings l)
          (build_unaries mappings r) (render_unary l) (render_unaries r) (group (codes " AND "))
          (unary-Outcome l) (unaries-Outcome r) c

    unary-Outcome :
        (u : Unary) (c : BuildContext)
        → build_unary mappings u c ≡ Outcome (fields_unary u) (render_unary u) c
    unary-Outcome nil_unary c = none-Outcome [] c
    unary-Outcome (sub_expr e) c = or-Outcome e c
    unary-Outcome (field f) c = build_field-Outcome f c
    unary-Outcome nil_field c = none-Outcome [] c

    ands-Outcome :
        (r : AndExprs) (c : BuildContext)
        → build_and_exprs mappings r c ≡ Outcome (fields_ands r) (render_ands r) c
    ands-Outcome no_and c = none-Outcome [] c
    ands-Outcome (more_and a r) c =
        pair-Outcome (fields_and a) (fields_ands r) (build_and_expr mappings a)
          (build_and_exprs mappings r) (render_and a) (render_ands r) (λ p ps. p ∷ ps)
          (and-Outcome a) (ands-Outcome r) c

    unaries-Outcome :
        (r : Unaries) (c : BuildContext)
        → build_unaries mappings r c ≡ Outcome (fields_unaries r) (render_unaries r) c
    unaries-Outcome no_unary c = none-Outcome [] c
    unaries-Outcome (more_unary u r) c =
        pair-Outcome (fields_unary u) (fields_unaries r) (build_unary mappings u)
          (build_unaries mappings r) (render_unary u) (render_unaries r) (λ p ps. p ∷ ps)
          (unary-Outcome u) (unaries-Outcome r) c

-- Without an unknown field, `Build` returns the rendering of the expression numbered from 1, and
-- the fields' arguments from left to right; otherwise the first unknown field from the left is
-- the error.
pub build_lem :
    (mappings : FieldMappings) (q : Query)
    → build mappings (some q) ≡ elim (first_unknown mappings (fields_or q.expression)) [
      | some n ↦ unknown_field n
      | none ↦
          let args : List Text = map argument (fields_or q.expression) in
          built
            (render_or mappings q.expression 1, args)
            (record { args = args; arg_index = 1 + length (fields_or q.expression) })
    ]
unfolding build
build_lem mappings q =
    ground (arith, or-Outcome mappings q.expression (record { args = []; arg_index = 1 }))
