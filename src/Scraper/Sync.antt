-- ===== src/Scraper/Sync.antt =====
-- `syncKeys` of internal/infra/scraper/service.go: the stored keys of one source and type against
-- those just fetched.
pub mod Owned
pub mod Frame
pub mod Index
pub mod Stored
pub mod Removed
pub mod Loaded
pub mod Current
use sshark_api.Base.{
  ℕ, ◌+◌, Bool, true, false, not, ◌&&◌, ◌||◌, Option, none, some, List, [], ◌∷◌, ◌++◌, ◌==◌,
  if◌then◌else◌, ◌≡◌, refl, any,
}
use sshark_api.Base.Text.{Text, codes, text_eq, is_empty}
use sshark_api.Store.{
  KeyType, ssh, gpg, PublicKey, SshMetadata, GpgMetadata, Error, World, M, Result, ok, err, pure,
  fail, attempt, ignore, ◌>>=◌, ◌>>◌, new_id, get_now,
}
use sshark_api.Tables.Keys
use sshark_api.Tables.Keys.{SearchResult}
use sshark_api.Scraper.{FetchedKey, ScrapeResult}

unfoldable pub record_scrape_history : ℕ → Bool → Bool → M (Unit {0})
unfolding new_id
record_scrape_history key success changed = do
  id ← new_id
  now ← get_now
  ignore (
      Keys.add_scrape_history
        (record { key_id = key; scraped_at = now; success = success; key_changed = changed }))

unfoldable pub provider_key_id : FetchedKey → Option Text
unfolding is_empty
provider_key_id fetched = if is_empty fetched.key_id then none else some fetched.key_id

unfoldable pub ssh_metadata_changed : Option SshMetadata → FetchedKey → Bool
unfolding text_eq
ssh_metadata_changed none fetched = false
ssh_metadata_changed (some meta) fetched =
    if not (text_eq meta.algorithm fetched.algorithm)
    then true
    else not (text_eq meta.comment fetched.comment)

-- The two times differ, or only one of them is there.
abbrev pub expiry_changed : Option ℕ → Option ℕ → Bool
expiry_changed none none = false
expiry_changed none (some _) = true
expiry_changed (some _) none = true
expiry_changed (some a) (some b) = not (a == b)

unfoldable pub gpg_metadata_changed : Option GpgMetadata → FetchedKey → Bool
unfolding text_eq
gpg_metadata_changed none fetched = false
gpg_metadata_changed (some meta) fetched =
    if not (text_eq meta.algorithm fetched.algorithm)
    then true
    else expiry_changed meta.expires_at fetched.expires_at

unfoldable pub key_needs_update : PublicKey → FetchedKey → KeyType → Bool
unfolding ssh_metadata_changed gpg_metadata_changed text_eq
key_needs_update existing fetched ssh =
    if not (text_eq existing.key_data fetched.key_data)
    then true
    else ssh_metadata_changed existing.ssh_metadata fetched
key_needs_update existing fetched gpg =
    if not (text_eq existing.key_data fetched.key_data)
    then true
    else gpg_metadata_changed existing.gpg_metadata fetched

abbrev pub ssh_metadata_of : FetchedKey → SshMetadata
ssh_metadata_of f = record {
  algorithm = f.algorithm;
  comment = f.comment;
  options = [];
  key_bits = f.key_bits;
}

abbrev pub gpg_metadata_of : FetchedKey → GpgMetadata
gpg_metadata_of f = record {
  algorithm = f.algorithm;
  key_bits = f.key_bits;
  expires_at = f.expires_at;
  user_ids = f.user_ids;
  capabilities = f.capabilities;
}

-- The stored entity with what was fetched written over it.
unfoldable pub refreshed : PublicKey → FetchedKey → KeyType → PublicKey
unfolding provider_key_id
refreshed existing fetched ssh = record existing {
  key_data = fetched.key_data;
  provider_key_id = provider_key_id fetched;
  ssh_metadata = some (ssh_metadata_of fetched);
}
refreshed existing fetched gpg = record existing {
  key_data = fetched.key_data;
  provider_key_id = provider_key_id fetched;
  gpg_metadata = some (gpg_metadata_of fetched);
}

-- The entity is shared with the map of existing keys, so it is returned as the call leaves it.
unfoldable pub update_existing_key : PublicKey → FetchedKey → KeyType → M (Bool × PublicKey)
unfolding refreshed record_scrape_history
update_existing_key existing fetched key_type =
    let entity : PublicKey = refreshed existing fetched key_type in
    if key_needs_update existing fetched key_type
    then (do
      updated ← attempt (Keys.update entity)
      elim updated [
        | err e ↦ pure (false, entity)
        | ok _ ↦ record_scrape_history existing.id true true >> pure (true, entity)
      ])
    else (record_scrape_history existing.id true false >> pure (false, existing))

unfoldable pub new_key : ℕ → ℕ → FetchedKey → KeyType → PublicKey
unfolding provider_key_id
new_key id source fetched key_type = record {
  id = id;
  source_id = source;
  key_type = key_type;
  key_data = fetched.key_data;
  provider_key_id = provider_key_id fetched;
  fingerprint = fetched.fingerprint;
  created_at = 0;
  updated_at = 0;
  ssh_metadata = elim key_type [ ssh ↦ some (ssh_metadata_of fetched) | gpg ↦ none ];
  gpg_metadata = elim key_type [ ssh ↦ none | gpg ↦ some (gpg_metadata_of fetched) ];
}

unfoldable pub create_new_key : ℕ → FetchedKey → KeyType → M Bool
unfolding new_key record_scrape_history new_id
create_new_key source fetched key_type = do
  id ← new_id
  created ← attempt (Keys.create (new_key id source fetched key_type))
  elim created [
    | err e ↦ pure false
    | ok stored ↦ record_scrape_history stored true true >> pure true
  ]

-- A Go map from fingerprints to the stored entities.
abbrev pub KeyMap : Type 0
KeyMap = List (Text × PublicKey)

abbrev pub lookup : Text → KeyMap → Option PublicKey
lookup f [] = none
lookup f ((g, k) ∷ m) = if text_eq g f then some k else lookup f m

abbrev pub insert : Text → PublicKey → KeyMap → KeyMap
insert f k [] = (f, k) ∷ []
insert f k ((g, j) ∷ m) = if text_eq g f then (f, k) ∷ m else (g, j) ∷ insert f k m

unfoldable pub by_fingerprint : List PublicKey → KeyMap → KeyMap
unfolding is_empty
by_fingerprint [] m = m
by_fingerprint (k ∷ ks) m =
    by_fingerprint ks (if is_empty k.fingerprint then m else insert k.fingerprint k m)

abbrev pub count_updated : Bool → ScrapeResult → ScrapeResult
count_updated b r = if b then record r { keys_updated = r.keys_updated + 1 } else r

abbrev pub count_added : Bool → ScrapeResult → ScrapeResult
count_added b r = if b then record r { keys_added = r.keys_added + 1 } else r

-- The loop over the fetched keys: the map and the result after it.
unfoldable pub store_keys :
    ℕ → KeyType → List FetchedKey → KeyMap → ScrapeResult → M (KeyMap × ScrapeResult)
unfolding update_existing_key create_new_key is_empty
store_keys source key_type [] m result = pure (m, result)
store_keys source key_type (fetched ∷ rest) m result =
    let skip : M (KeyMap × ScrapeResult) = store_keys source key_type rest m result in
    let known : PublicKey → M (KeyMap × ScrapeResult) = λ existing. (do
      outcome ← update_existing_key existing fetched key_type
      store_keys source key_type rest (insert fetched.fingerprint outcome.1 m)
          (count_updated outcome.0 result)) in
    let unknown : M (KeyMap × ScrapeResult) = (do
      added ← create_new_key source fetched key_type
      store_keys source key_type rest m (count_added added result)) in
    if is_empty fetched.fingerprint
    then skip
    else elim (lookup fetched.fingerprint m) [ some existing ↦ known existing | none ↦ unknown ]

abbrev pub is_seen : List FetchedKey → Text → Bool
is_seen fetched f = any (λ k. not (is_empty k.fingerprint) && text_eq k.fingerprint f) fetched

-- The loop that removes the stored keys that were not fetched. Go visits the map in any order.
unfoldable pub remove_keys : List FetchedKey → KeyMap → ScrapeResult → M ScrapeResult
unfolding is_empty
remove_keys fetched [] result = pure result
remove_keys fetched ((f, existing) ∷ m) result =
    let skip : M ScrapeResult = remove_keys fetched m result in
    let remove : M ScrapeResult = (do
      deleted ← attempt (Keys.delete existing.id)
      remove_keys fetched m (elim deleted [
        | err e ↦ result
        | ok _ ↦ record result { keys_removed = result.keys_removed + 1 }
      ])) in
    if is_seen fetched f then skip else remove

unfoldable pub sync_keys : ℕ → List FetchedKey → KeyType → ScrapeResult → M ScrapeResult
unfolding by_fingerprint store_keys remove_keys
sync_keys source fetched key_type result = do
  existing ← attempt (
      Keys.search (record { source_id = some source; key_type = some key_type; algorithm = none })
        1000 0)
  elim existing [
    | err e ↦ pure result
    | ok found ↦ do
      stored ← store_keys source key_type fetched (by_fingerprint found.entities []) result
      remove_keys fetched stored.0 stored.1
  ]
