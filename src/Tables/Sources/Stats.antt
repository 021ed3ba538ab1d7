-- ===== src/Tables/Sources/Stats.antt =====
-- `GetStats` and `getValueFacet` of internal/infra/sources/postgres/repository.go.
use sshark_api.Base.{
  ℕ, ◌+◌, none, some, List, [], ◌∷◌, ◌==◌, if◌then◌else◌, find, descending, length,
}
use sshark_api.Base.Text.{Text, codes, text_eq}
use sshark_api.Store.{ssh, gpg, PublicKey, Source, World, M, ok, pure, ◌>>=◌, statement}

-- sources.FacetValue
pub record FacetValue : Type 0 where
  pub value : Text
  pub count : ℕ

-- sources.Facet
pub record Facet : Type 0 where
  pub type : Text
  pub values : List FacetValue

-- sources.Stats: the facets of each field.
pub record Stats : Type 0 where
  pub facets : List (Text × List Facet)

-- `GROUP BY`: one row for each value, with the number of its rows.
abbrev count_in : Text → List FacetValue → List FacetValue
count_in v [] = record { value = v; count = 1 } ∷ []
count_in v (g ∷ groups) =
    if text_eq g.value v
    then record { value = v; count = g.count + 1 } ∷ groups
    else g ∷ count_in v groups

unfoldable pub group_by : List Text → List FacetValue
unfolding text_eq
group_by [] = []
group_by (v ∷ values) = count_in v (group_by values)

-- `SELECT COUNT(DISTINCT …)`
unfoldable pub count_distinct : List Text → ℕ
unfolding group_by
count_distinct values = length (group_by values)

-- A column of the source of each SSH key: `public_keys pk JOIN sources s … WHERE pk.key_type = 'ssh'`.
unfoldable pub of_ssh_keys : (Source → Text) → List Source → List PublicKey → List Text
of_ssh_keys column sources [] = []
of_ssh_keys column sources (k ∷ keys) =
    let rest : List Text = of_ssh_keys column sources keys in
    elim k.key_type [
      | gpg ↦ rest
      | ssh ↦ elim (find (λ s. s.id == k.source_id) sources) [
        | none ↦ rest
        | some s ↦ column s ∷ rest
      ]
    ]

-- The column `algorithm` of `ssh_key_metadata`.
unfoldable pub ssh_algorithms : List PublicKey → List Text
ssh_algorithms [] = []
ssh_algorithms (k ∷ keys) =
    let rest : List Text = ssh_algorithms keys in
    elim k.ssh_metadata [ none ↦ rest | some m ↦ m.algorithm ∷ rest ]

-- The values that a query selects, the most frequent first.
unfoldable pub get_value_facet : (World → List Text) → M Facet
unfolding statement group_by descending
get_value_facet select = statement λ w. (
  ok (record { type = codes "value"; values = descending (λ v. v.count) (group_by (select w)) }),
  w,
)

unfoldable pub get_stats : M Stats
unfolding get_value_facet of_ssh_keys ssh_algorithms count_distinct statement
get_stats = do
  providers ← get_value_facet λ w. of_ssh_keys (λ s. s.provider) w.sources w.public_keys
  algorithms ← get_value_facet λ w. ssh_algorithms w.public_keys
  usernames ←
      statement
        λ w. (ok (count_distinct (of_ssh_keys (λ s. s.username) w.sources w.public_keys)), w)
  pure (record {
    facets =
        (codes "source.provider", providers ∷ [])
        ∷ (codes "algorithm", algorithms ∷ [])
        ∷ (
          codes "source.username",
          record {
            type = codes "value";
            values = record { value = codes "total"; count = usernames } ∷ [];
          }
              ∷ [],
        )
        ∷ [];
  })
