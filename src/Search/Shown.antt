-- ===== src/Search/Shown.antt =====
-- What the search endpoints answer with.
use sshark_api.Base.{
  ℕ, suc, ◌≤◌, Option, none, some, List, [], ◌∷◌, ◌==◌, ◌≡◌, ◌⊎◌, inl, inr, refl, ap, ◌∙◌, arith,
  find, keep, length, All, Option-cases, ==_iff,
}
use sshark_api.Base.Text.{Text}
use sshark_api.Store.{
  PublicKey, Source, Env, source_not_found, World, M, Result, ok, err, pure, attempt, ◌>>=◌,
}
use sshark_api.Store.Frame.{
  Ensures, Ensures-bind, Ensures-pure, Ensures-statement, Ensures-attempt, OnOk,
}
use sshark_api.Tables.Sources
use sshark_api.Tables.Sources.{Joined}
use sshark_api.Tables.Keys
use sshark_api.Tables.Keys.{SearchResult}
use sshark_api.Tables.Keys.Query.{Sql, selects, search_with_query}
use sshark_api.Tables.Keys.Query.Selected.{
  Holds, IsSelected, IsFound, IsPage, search_with_query-IsPage,
}
use sshark_api.Query.Parse.{Parser}
use sshark_api.Api.{
  ApiError, Response, json, no_content, problem, failure, status_ok, internal_error,
}
use sshark_api.Search.{
  SearchKind, SearchParams, SearchResponse, default_value, where_of, with_sources, run_search,
  search_where, search_keys,
}

source_id-own_metadata : (k : PublicKey) → (Keys.own_metadata k).source_id ≡ k.source_id
source_id-own_metadata k = ground arith

find-HasId :
    (id : ℕ) (rows : List Source) (s : Source) → find (λ s. s.id == id) rows ≡ some s → s.id ≡ id
find-HasId id [] s h = absurd (cc)
find-HasId id (r ∷ rows) s h = ground (arith, ==_iff r.id id, find-HasId id rows s)

abbrev HasId : ℕ → Joined → Type 0
HasId id j = j.source.id ≡ id

-- The source that a key is read with, in any state of the tables that a read leaves alone.
get-HasId :
    (I : World → Type 0)
    → ((w : World) (e : Env) → I w → I (record w { env = e }))
    → (id : ℕ) → Ensures I (HasId id) (Sources.get id)
unfolding Sources.get
get-HasId I stable id =
    let answer : World → Option Source → Result Joined × World =
      λ w o. elim o [ none ↦ (err source_not_found, w) | some s ↦ (ok (Sources.joined w s), w) ] in
    let select : World → Result Joined × World = λ w. answer w (find (λ s. s.id == id) w.sources) in
    Ensures-statement I stable (HasId id) select (λ w i.
      elim (Option-cases (find (λ s. s.id == id) w.sources)) [
        | inl nothing ↦ rw nothing (i, λ a same. absurd (cc))
        | inr (s, row) ↦
            rw row
              (Ensures-pure I (HasId id) (Sources.joined w s) (find-HasId id w.sources s row) w i)
      ])

module _ {K : Type 0} (kind : SearchKind K) (sql : Sql) (clause : Text × List Text)
    (keys : List PublicKey) (sources : List Source) where
  -- What is shown is a stored key that the clause selects, with its metadata and under its source.
  abbrev pub IsShown : K → Type 0
  IsShown e =
      (k : PublicKey) × (j : Joined) × IsSelected sql kind.key_type clause.0 clause.1 keys sources k
      × (j.source.id ≡ k.source_id)
      × (e ≡ kind.to_public j (Keys.own_metadata k))

  abbrev I : World → Type 0
  I = Holds sql kind.key_type clause.0 clause.1 keys sources

  abbrev Found : PublicKey → Type 0
  Found = IsFound sql kind.key_type clause.0 clause.1 keys sources

  abbrev Shown : ℕ → List K → Type 0
  Shown n es = All IsShown es × (length es ≤ n)

  abbrev added : PublicKey → Result Joined → List K → List K
  added entity found rest = elim found [
    | err e ↦ rest
    | ok source ↦ kind.to_public source entity ∷ rest
  ]

  with_source-Shown :
      (entity : PublicKey) (n : ℕ) (found : Result Joined) (rest : List K)
      → Found entity
      → OnOk (HasId entity.source_id) found
      → Shown n rest
      → Shown (suc n) (added entity found rest)
  with_source-Shown entity n (err e) rest it has shown = (shown.0, omega (arith, shown.1))
  with_source-Shown entity n (ok j) rest (k, selected, same) has shown = (
    (
      (
        k,
        j,
        selected,
        has ∙ (ap (λ e. e.source_id) same ∙ source_id-own_metadata k),
        ap (kind.to_public j) same,
      ),
      shown.0,
    ),
    omega (arith, shown.1),
  )

  with_sources-Shown :
      (parser : Parser) (entities : List PublicKey)
      → All Found entities
      → Ensures I (Shown (length entities)) (with_sources kind parser entities)
  unfolding with_sources
  with_sources-Shown parser [] found = Ensures-pure I (Shown 0) [] (tt, omega arith)
  with_sources-Shown parser (e ∷ entities) found =
      let n : ℕ = length entities in
      let Has : Result Joined → Type 0 = OnOk (HasId e.source_id) in
      Ensures-bind I Has (Shown (suc n)) (attempt (Sources.get e.source_id))
        (λ source. with_sources kind parser entities >>= λ rest. pure (added e source rest))
        (Ensures-attempt I (HasId e.source_id) (Sources.get e.source_id)
          (get-HasId I (λ w env i. i) e.source_id))
        (λ source has.
          Ensures-bind I (Shown n) (Shown (suc n)) (with_sources kind parser entities)
            (λ rest. pure (added e source rest)) (with_sources-Shown parser entities found.1)
            (λ rest shown.
              Ensures-pure I (Shown (suc n)) (added e source rest)
                (with_source-Shown e n source rest found.0 has shown)))

  -- What the search yields, from the rows of its page to the answer.
  abbrev pub Answers : ℕ → Response (SearchResponse K) → Type 0
  Answers limit (json status r) =
      All IsShown r.entities
      × (length r.entities ≤ limit)
      × (r.total ≡ length (keep (selects sql kind.key_type clause.0 clause.1 sources) keys))
  Answers limit no_content = Unit {0}
  Answers limit (problem p) = Unit {0}
  Answers limit (failure status text) = Unit {0}

  run_search-Answers :
      (parser : Parser) (text : Text) (limit offset : ℕ)
      → Ensures I (Answers limit) (run_search kind parser sql text clause limit offset)
  unfolding run_search
  run_search-Answers parser text limit offset =
      let Page : SearchResult → Type 0 =
        IsPage sql kind.key_type clause.0 clause.1 keys sources limit in
      let search : M SearchResult =
        search_with_query sql kind.key_type clause.0 clause.1 limit offset in
      let answer : SearchResult → List K → Response (SearchResponse K) = λ result entities.
        json status_ok (record {
          entities = entities;
          query = text;
          total = result.total;
          limit = limit;
          offset = offset;
        }) in
      let finish : Result SearchResult → M (Response (SearchResponse K)) = λ found. elim found [
        | err e ↦ pure (problem internal_error)
        | ok result ↦
            with_sources kind parser result.entities >>= λ entities. pure (answer result entities)
      ] in
      Ensures-bind I (OnOk Page) (Answers limit) (attempt search) finish
        (Ensures-attempt I Page search
          (search_with_query-IsPage sql kind.key_type clause.0 clause.1 keys sources limit offset))
        (λ found page.
          (elim found as (λ found. OnOk Page found → Ensures I (Answers limit) (finish found)) [
            | err e ↦ λ page. Ensures-pure I (Answers limit) (problem internal_error) tt
            | ok result ↦ λ page.
                Ensures-bind I (Shown (length result.entities)) (Answers limit)
                  (with_sources kind parser result.entities)
                  (λ entities. pure (answer result entities))
                  (with_sources-Shown parser result.entities page.0)
                  (λ entities shown.
                    Ensures-pure I (Answers limit) (answer result entities)
                      (shown.0, omega (arith, shown.1, page.1), page.2))
          ])
            page)

-- The answer, once the clause is known or refused.
finish-Answers :
    {K : Type 0} (kind : SearchKind K) (parser : Parser) (sql : Sql) (text : Text)
    (found : ApiError ⊎ Text × List Text) (limit offset : ℕ) (w : World) (status : ℕ)
    (response : SearchResponse K)
    → (search_where kind parser sql text found limit offset w).0 ≡ ok (json status response)
    → (clause : Text × List Text) × (found ≡ inr clause)
      × Answers kind sql clause w.public_keys w.sources limit (json status response)
finish-Answers kind parser sql text (inl p) limit offset w status response h = absurd (cc)
finish-Answers kind parser sql text (inr clause) limit offset w status response h = (
  clause,
  refl,
  (run_search-Answers kind sql clause w.public_keys w.sources parser text limit offset w
        (refl, refl)).1
      (json status response) h,
)

-- A search that is answered with results was given a query that parses and names known fields only.
-- Each key shown is a stored key of the endpoint's type that the query's clause selects, with its
-- metadata and under its own source. No more keys are shown than the limit that was asked for, 10 by
-- default, and the total counts all the keys that the clause selects. This holds for the search of SSH
-- keys and of GPG keys, whatever statements fail.
pub search_keys-IsShown :
    {K : Type 0} (kind : SearchKind K) (parser : Parser) (sql : Sql) (params : SearchParams)
    (w : World) (status : ℕ) (response : SearchResponse K)
    → (search_keys kind parser sql params w).0 ≡ ok (json status response)
    → (clause : Text × List Text) × ((where_of kind parser params).1 ≡ inr clause)
      × All (IsShown kind sql clause w.public_keys w.sources) response.entities
      × (length response.entities ≤ default_value params.limit 10)
      × (response.total
          ≡ length (keep (selects sql kind.key_type clause.0 clause.1 w.sources) w.public_keys))
unfolding search_keys
search_keys-IsShown kind parser sql params w status response h =
    let (text, found) = where_of kind parser params in
    let (clause, same, answer) =
      finish-Answers kind parser sql text found (default_value params.limit 10)
        (default_value params.offset 0) w status response h in
    (clause, same, answer.0, answer.1, answer.2)
