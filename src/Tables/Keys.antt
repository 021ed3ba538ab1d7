-- ===== src/Tables/Keys.antt =====
-- internal/infra/publickeys/postgres/repository.go over `public_keys`, the two metadata tables and
-- `scrape_history`. A key's row carries its metadata row, if there is one.
mod Filter
mod Read
pub mod Frame
pub mod Pages
pub mod Found
pub mod Hold
pub mod Scanned
pub mod Reliable
pub mod Columns
pub mod Query
use sshark_api.Base.{
  ℕ, ◌+◌, Bool, true, false, not, ◌&&◌, ◌||◌, Option, none, some, List, [], ◌∷◌, ◌++◌, ◌==◌,
  if◌then◌else◌, ◌≡◌, refl, find, any, keep, take, drop, descending, length,
}
use sshark_api.Base.Text.{Text, codes, text_eq, is_empty, itoa}
use sshark_api.Store.{
  KeyType, ssh, gpg, PublicKey, SshMetadata, GpgMetadata, ScrapeHistory, Source, Error, database,
  unique_violation, key_not_found, other, World, M, Result, ok, err, pure, fail, ◌>>=◌, ◌>>◌,
  statement, transaction, new_id, attempt,
}
unfoldable pub use Filter.*
unfoldable pub use Read.*

-- `INSERT INTO public_keys`: the row needs its source, a new identifier, and a fingerprint that no
-- other key of the source has.
unfoldable pub conflicts : PublicKey → List PublicKey → Bool
conflicts k rows =
    any (λ j. j.id == k.id || (j.source_id == k.source_id && text_eq j.fingerprint k.fingerprint))
      rows

unfoldable pub insert_row : PublicKey → M (Unit {0})
unfolding statement conflicts
insert_row k = statement λ w.
    if not (any (λ s. s.id == k.source_id) w.sources)
    then (err database, w)
    else if conflicts k w.public_keys
    then (err unique_violation, w)
    else (
      ok tt,
      record w {
        public_keys =
            record k {
              created_at = w.env.now;
              updated_at = w.env.now;
              ssh_metadata = none;
              gpg_metadata = none;
            }
            ∷ w.public_keys;
      },
    )

-- `UPDATE public_keys SET … WHERE id = $1`
abbrev pub update_row : ℕ → (PublicKey → PublicKey) → List PublicKey → List PublicKey
update_row id f [] = []
update_row id f (k ∷ ks) = (if k.id == id then f k else k) ∷ update_row id f ks

unfoldable pub save_metadata : PublicKey → M (Unit {0})
unfolding statement
save_metadata k = elim k.key_type [
  | ssh ↦ elim k.ssh_metadata [
    | none ↦ pure tt
    | some m ↦ statement λ w. (
      ok tt,
      record w {
        public_keys = update_row k.id (λ r. record r { ssh_metadata = some m }) w.public_keys;
      },
    )
  ]
  | gpg ↦ elim k.gpg_metadata [
    | none ↦ pure tt
    | some m ↦ statement λ w. (
      ok tt,
      record w {
        public_keys = update_row k.id (λ r. record r { gpg_metadata = some m }) w.public_keys;
      },
    )
  ]
]

abbrev pub with_id : PublicKey → M PublicKey
with_id k = do id ← if k.id == 0 then new_id else pure k.id; pure (record k { id = id })

-- The stored row's identifier is returned, since `Create` writes it into the entity.
unfoldable pub create : PublicKey → M ℕ
unfolding new_id transaction insert_row save_metadata
create entity = do k ← with_id entity; transaction (insert_row k >> save_metadata k); pure k.id

unfoldable pub create_all : List PublicKey → M (Unit {0})
unfolding new_id insert_row save_metadata
create_all [] = pure tt
create_all (entity ∷ entities) = do
  k ← with_id entity
  insert_row k
  save_metadata k
  create_all entities

unfoldable pub create_batch : List PublicKey → M (Unit {0})
unfolding transaction create_all
create_batch entities = transaction (create_all entities)

abbrev pub coalesce : Option Text → Option Text → Option Text
coalesce none b = b
coalesce (some a) b = some a

abbrev pub set_columns : PublicKey → ℕ → PublicKey → PublicKey
set_columns k now row = record row {
  key_data = k.key_data;
  fingerprint = k.fingerprint;
  provider_key_id = coalesce k.provider_key_id row.provider_key_id;
  updated_at = now;
}

-- The new fingerprint is another key's of the same source.
unfoldable pub has_twin : PublicKey → List PublicKey → Bool
has_twin k rows = elim (find (λ r. r.id == k.id) rows) [
  | none ↦ false
  | some row ↦
      any
        (λ j.
          not (j.id == k.id)
          && (j.source_id == row.source_id && text_eq j.fingerprint k.fingerprint))
        rows
]

unfoldable pub update_columns : PublicKey → M (Unit {0})
unfolding statement has_twin
update_columns k = statement λ w.
    if has_twin k w.public_keys
    then (err unique_violation, w)
    else if not (any (λ r. r.id == k.id) w.public_keys)
    then (err key_not_found, w)
    else (ok tt, record w { public_keys = update_row k.id (set_columns k w.env.now) w.public_keys })

-- The two DELETE statements. A failed one aborts the transaction, so that the next one fails too.
unfoldable pub delete_ssh_metadata : ℕ → M (Unit {0})
unfolding statement
delete_ssh_metadata id = statement λ w. (
  ok tt,
  record w { public_keys = update_row id (λ r. record r { ssh_metadata = none }) w.public_keys },
)

unfoldable pub delete_gpg_metadata : ℕ → M (Unit {0})
unfolding statement
delete_gpg_metadata id = statement λ w. (
  ok tt,
  record w { public_keys = update_row id (λ r. record r { gpg_metadata = none }) w.public_keys },
)

unfoldable pub delete_metadata : ℕ → M (Unit {0})
unfolding delete_ssh_metadata delete_gpg_metadata
delete_metadata id = delete_ssh_metadata id >> delete_gpg_metadata id

unfoldable pub update : PublicKey → M (Unit {0})
unfolding transaction update_columns delete_metadata save_metadata
update k = transaction (do update_columns k; delete_metadata k.id; save_metadata k)

-- The row goes, and by ON DELETE CASCADE its history.
unfoldable pub delete : ℕ → M (Unit {0})
unfolding statement
delete id = statement λ w.
    if any (λ k. k.id == id) w.public_keys
    then (
      ok tt,
      record w {
        public_keys = keep (λ k. not (k.id == id)) w.public_keys;
        scrape_history = keep (λ h. not (h.key_id == id)) w.scrape_history;
      },
    )
    else (err key_not_found, w)

unfoldable pub delete_by_source_id : ℕ → M (Unit {0})
unfolding statement
delete_by_source_id source = statement λ w. (
  ok tt,
  record w {
    public_keys = keep (λ k. not (k.source_id == source)) w.public_keys;
    scrape_history =
        keep (λ h. not (any (λ k. k.id == h.key_id && k.source_id == source) w.public_keys))
          w.scrape_history;
  },
)

unfoldable pub add_scrape_history : ScrapeHistory → M (Unit {0})
unfolding statement
add_scrape_history h = statement λ w.
    if any (λ k. k.id == h.key_id) w.public_keys
    then (ok tt, record w { scrape_history = h ∷ w.scrape_history })
    else (err database, w)
