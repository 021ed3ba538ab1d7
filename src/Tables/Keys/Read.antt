-- ===== src/Tables/Keys/Read.antt =====
-- The queries of internal/infra/publickeys/postgres/repository.go over `public_keys`, and the rows that
-- they scan.
use sshark_api.Base.{
  ℕ, ◌&&◌, none, some, List, [], ◌∷◌, ◌==◌, if◌then◌else◌, find, keep, take, drop, descending,
  length,
}
use sshark_api.Store.{
  KeyType, ssh, gpg, PublicKey, ScrapeHistory, key_not_found, other, M, ok, err, pure, fail, ◌>>=◌,
  ◌>>◌, statement, next_row, read_rows,
}
use sshark_api.Tables.Keys.Filter.{SearchFilter, key_type_eq, passes}

-- What `loadMetadata` reads: the row of the metadata table of the key's own type.
abbrev pub own_metadata : PublicKey → PublicKey
own_metadata k = elim k.key_type [
  | ssh ↦ record k { gpg_metadata = none }
  | gpg ↦ record k { ssh_metadata = none }
]

unfoldable pub load_metadata : PublicKey → M PublicKey
unfolding statement
load_metadata k = statement λ w. (ok (own_metadata k), w)

-- The row that `WHERE id = $1` selects, then its metadata.
unfoldable pub get : ℕ → M PublicKey
unfolding load_metadata statement
get id = do
  row ← statement λ w. elim (find (λ k. k.id == id) w.public_keys) [
    | none ↦ (err key_not_found, w)
    | some k ↦ (ok k, w)
  ]
  load_metadata row

-- The destinations that `scanPublicKeys` passes to `Scan`. The driver refuses a row that has another
-- number of columns.
abbrev pub scanned_columns : ℕ
scanned_columns = 8

-- The rows of a query that selects so many columns. A failure between two rows ends the loop without an
-- error, since `rows.Err` is not asked.
unfoldable pub scan_public_keys : ℕ → List PublicKey → M (List PublicKey)
unfolding load_metadata next_row
scan_public_keys columns [] = pure []
scan_public_keys columns (row ∷ rows) =
    let scan_row : M (List PublicKey) = (do
      if columns == scanned_columns then pure tt else fail other
      entity ← load_metadata row
      entities ← scan_public_keys columns rows
      pure (entity ∷ entities)) in
    next_row >>= λ more. if more then scan_row else pure []

-- publickeys.SearchResult
pub record SearchResult : Type 0 where
  pub entities : List PublicKey
  pub total : ℕ

abbrev pub page : ℕ → ℕ → List PublicKey → List PublicKey
page limit offset rows = take limit (drop offset (descending (λ k. k.created_at) rows))

-- The count, the page, and the metadata of each row of the page.
unfoldable pub search : SearchFilter → ℕ → ℕ → M SearchResult
unfolding statement scan_public_keys passes descending
search filter limit offset = do
  total ← statement λ w. (ok (length (keep (passes filter) w.public_keys)), w)
  rows ← statement λ w. (ok (page limit offset (keep (passes filter) w.public_keys)), w)
  entities ← scan_public_keys 8 rows
  pure (record { entities = entities; total = total })

-- This query leaves out `provider_key_id`: it selects seven columns.
unfoldable pub list_by_source_id : ℕ → KeyType → M (List PublicKey)
unfolding statement scan_public_keys key_type_eq descending
list_by_source_id source type = do
  rows ← statement λ w. (
    ok (
        descending (λ k. k.created_at)
          (keep (λ k. k.source_id == source && key_type_eq k.key_type type) w.public_keys)),
    w,
  )
  scan_public_keys 7 rows

unfoldable pub get_scrape_history : ℕ → ℕ → ℕ → M (List ScrapeHistory)
unfolding statement read_rows descending
get_scrape_history key limit offset = do
  rows ← statement λ w. (
    ok (
        take limit (
          drop offset
            (descending (λ h. h.scraped_at) (keep (λ h. h.key_id == key) w.scrape_history)))),
    w,
  )
  read_rows rows
