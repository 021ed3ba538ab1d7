-- ===== src/Scraper/Sync/Frame.antt =====
-- Syncing the keys of one source and type leaves every other key alone.
use sshark_api.Base.{
  ℕ, ◌+◌, Bool, true, false, none, some, List, [], ◌∷◌, ◌≡◌, refl, sym, subst, keep, All,
  Bool-cases, inl, inr, Option-cases,
}
use sshark_api.Base.Text.{is_empty}
use sshark_api.Store.{
  KeyType, ssh, gpg, PublicKey, World, M, Result, ok, err, ◌>>=◌, ◌>>◌, pure, attempt, ignore,
  new_id, get_now,
}
use sshark_api.Store.Frame.{
  Maintains, Maintains-bind, Maintains-new_id, Ensures, Ensures-bind, Ensures-pure, Ensures-if,
  Ensures-Maintains, Maintains-Ensures, Ensures-attempt, OnOk,
}
use sshark_api.Tables.Keys
use sshark_api.Tables.Keys.{SearchResult}
use sshark_api.Tables.Keys.Frame.{
  is_other, OthersAre, IsOwn, Maintains-delete, Maintains-update, Maintains-create,
  Maintains-add_scrape_history,
}
use sshark_api.Tables.Keys.Found.{Distinct, OwnRows, passing-IsOwn, filter_of, search-IsOwn}
use sshark_api.Scraper.{FetchedKey, ScrapeResult}
use sshark_api.Scraper.Sync.{
  record_scrape_history, refreshed, key_needs_update, update_existing_key, new_key, create_new_key,
  KeyMap, lookup, insert, by_fingerprint, store_keys, count_updated, count_added, is_seen,
  remove_keys, sync_keys,
}
use sshark_api.Scraper.Sync.Owned.{
  Owns, OwnMap, lookup-OwnMap, insert-OwnMap, by_fingerprint-OwnMap,
}

id-refreshed : (k : PublicKey) (f : FetchedKey) (t : KeyType) → (refreshed k f t).id ≡ k.id
unfolding refreshed
id-refreshed k f ssh = refl
id-refreshed k f gpg = refl

module _ (source : ℕ) (type : KeyType) (others : List PublicKey) where
  abbrev I : World → Type 0
  I = OthersAre source type others

  Maintains-record_scrape_history :
      (key : ℕ) (success changed : Bool) → Maintains I (record_scrape_history key success changed)
  unfolding record_scrape_history
  Maintains-record_scrape_history key success changed =
      Maintains-bind I new_id
        (λ id. get_now >>= λ now. ignore (
          Keys.add_scrape_history
            (record { key_id = key; scraped_at = now; success = success; key_changed = changed })))
        (Maintains-new_id I (λ w e i. i))
        (λ id w i.
          Maintains-add_scrape_history source type others
            (record {
              key_id = key;
              scraped_at = w.env.now;
              success = success;
              key_changed = changed;
            })
            w i)

  noted :
      {A : Type 0} (P : A → Type 0) (key : ℕ) (changed : Bool) (a : A)
      → P a
      → Ensures I P (record_scrape_history key true changed >> pure a)
  noted P key changed a p =
      Ensures-bind I (λ u. Unit {0}) P (record_scrape_history key true changed) (λ u. pure a)
        (Ensures-Maintains I (record_scrape_history key true changed)
          (Maintains-record_scrape_history key true changed))
        (λ u _. Ensures-pure I P a p)

  -- The entity that the map holds afterwards is no other key either.
  update_existing_key-IsOwn :
      (k : PublicKey) (f : FetchedKey) (t : KeyType)
      → Owns others k
      → Ensures I (λ o. Owns others o.1) (update_existing_key k f t)
  unfolding update_existing_key
  update_existing_key-IsOwn k f t own =
      let entity : PublicKey = refreshed k f t in
      let own' : Owns others entity =
        subst (λ id. IsOwn id others) (sym (id-refreshed k f t)) own in
      let P : Bool × PublicKey → Type 0 = λ o. Owns others o.1 in
      let after : Result (Unit {0}) → M (Bool × PublicKey) = λ updated. elim updated [
        | err e ↦ pure (false, entity)
        | ok _ ↦ record_scrape_history k.id true true >> pure (true, entity)
      ] in
      Ensures-if I P (key_needs_update k f t) (attempt (Keys.update entity) >>= after)
        (record_scrape_history k.id true false >> pure (false, k))
        (Ensures-bind I (OnOk (λ u. Unit {0})) P (attempt (Keys.update entity)) after
          (Ensures-attempt I (λ u. Unit {0}) (Keys.update entity)
            (Ensures-Maintains I (Keys.update entity)
              (Maintains-update source type others entity own')))
          (λ r _. elim r as (λ r. Ensures I P (after r)) [
            | err e ↦ Ensures-pure I P (false, entity) own'
            | ok _ ↦ noted P k.id true (true, entity) own'
          ]))
        (noted P k.id false (false, k) own)

  Maintains-create_new_key : (f : FetchedKey) → Maintains I (create_new_key source f type)
  unfolding create_new_key new_key
  Maintains-create_new_key f =
      let after : Result ℕ → M Bool = λ created. elim created [
        | err e ↦ pure false
        | ok stored ↦ record_scrape_history stored true true >> pure true
      ] in
      Maintains-bind I new_id (λ id. attempt (Keys.create (new_key id source f type)) >>= after)
        (Maintains-new_id I (λ w e i. i))
        (λ id.
          Maintains-bind I (attempt (Keys.create (new_key id source f type))) after
            (Maintains-create source type others (new_key id source f type) refl refl)
            (λ r. elim r as (λ r. Maintains I (after r)) [
              | err e ↦ λ w i. i
              | ok stored ↦
                  Maintains-Ensures I (λ b. Unit {0})
                    (record_scrape_history stored true true >> pure true)
                    (noted (λ b. Unit {0}) stored true true tt)
            ]))

  store_keys-OwnMap :
      (fetched : List FetchedKey) (m : KeyMap) (result : ScrapeResult)
      → OwnMap others m
      → Ensures I (λ p. OwnMap others p.0) (store_keys source type fetched m result)
  unfolding store_keys
  store_keys-OwnMap [] m result own = Ensures-pure I (λ p. OwnMap others p.0) (m, result) own
  store_keys-OwnMap (f ∷ rest) m result own =
      let P : KeyMap × ScrapeResult → Type 0 = λ p. OwnMap others p.0 in
      let known : PublicKey → M (KeyMap × ScrapeResult) = λ existing.
        update_existing_key existing f type >>= λ outcome.
        store_keys source type rest (insert f.fingerprint outcome.1 m)
          (count_updated outcome.0 result) in
      let unknown : M (KeyMap × ScrapeResult) = create_new_key source f type >>= λ added.
      store_keys source type rest m (count_added added result) in
      Ensures-if I P (is_empty f.fingerprint) (store_keys source type rest m result)
        (elim (lookup f.fingerprint m) [ some existing ↦ known existing | none ↦ unknown ])
        (store_keys-OwnMap rest m result own)
        (elim (Option-cases (lookup f.fingerprint m)) [
          | inl missing ↦ rw missing (
              Ensures-bind I (λ b. Unit {0}) P (create_new_key source f type)
                (λ added. store_keys source type rest m (count_added added result))
                (Ensures-Maintains I (create_new_key source f type) (Maintains-create_new_key f))
                (λ added _. store_keys-OwnMap rest m (count_added added result) own))
          | inr (k, found) ↦ rw found (
              Ensures-bind I (λ o. Owns others o.1) P (update_existing_key k f type)
                (λ outcome.
                  store_keys source type rest (insert f.fingerprint outcome.1 m)
                    (count_updated outcome.0 result))
                (update_existing_key-IsOwn k f type
                  (lookup-OwnMap others f.fingerprint m k own found))
                (λ outcome owns.
                  store_keys-OwnMap rest (insert f.fingerprint outcome.1 m)
                    (count_updated outcome.0 result)
                    (insert-OwnMap others f.fingerprint outcome.1 m owns own)))
        ])

  Maintains-remove_keys :
      (fetched : List FetchedKey) (m : KeyMap) (result : ScrapeResult)
      → OwnMap others m
      → Maintains I (remove_keys fetched m result)
  unfolding remove_keys
  Maintains-remove_keys fetched [] result own = λ w i. i
  Maintains-remove_keys fetched ((g, k) ∷ m) result own =
      let count : Result (Unit {0}) → ScrapeResult = λ deleted. elim deleted [
        | err e ↦ result
        | ok _ ↦ record result { keys_removed = result.keys_removed + 1 }
      ] in
      elim (Bool-cases (is_seen fetched g)) [
        | inl seen ↦ rw seen (Maintains-remove_keys fetched m result own.1)
        | inr gone ↦ rw gone (
            Maintains-bind I (attempt (Keys.delete k.id))
              (λ deleted. remove_keys fetched m (count deleted))
              (Maintains-delete source type others k.id own.0)
              (λ deleted. Maintains-remove_keys fetched m (count deleted) own.1))
      ]

  -- `sync_keys` behind the search.
  abbrev after_search : List FetchedKey → ScrapeResult → Result SearchResult → M ScrapeResult
  after_search fetched result existing = elim existing [
    | err e ↦ pure result
    | ok found ↦
        store_keys source type fetched (by_fingerprint found.entities []) result >>= λ stored.
        remove_keys fetched stored.0 stored.1
  ]

  Maintains-after_search :
      (fetched : List FetchedKey) (result : ScrapeResult) (r : Result SearchResult)
      → OnOk (λ found. All (Owns others) found.entities) r
      → Maintains I (after_search fetched result r)
  Maintains-after_search fetched result (err e) own = λ w i. i
  Maintains-after_search fetched result (ok found) own =
      let m : KeyMap = by_fingerprint found.entities [] in
      Maintains-Ensures I (λ r. Unit {0})
        (store_keys source type fetched m result >>= λ stored.
          remove_keys fetched stored.0 stored.1)
        (Ensures-bind I (λ p. OwnMap others p.0) (λ r. Unit {0})
          (store_keys source type fetched m result)
          (λ stored. remove_keys fetched stored.0 stored.1)
          (store_keys-OwnMap fetched m result
            (by_fingerprint-OwnMap others found.entities [] own tt))
          (λ stored own.
            Ensures-Maintains I (remove_keys fetched stored.0 stored.1)
              (Maintains-remove_keys fetched stored.0 stored.1 own)))

-- Syncing the fetched keys of one source and type leaves all keys of other sources, and of the other
-- type, exactly as they were, in their order. This holds whichever statements fail, if the rows' primary keys
-- are different.
pub sync_keys-OthersAre :
    (source : ℕ) (fetched : List FetchedKey) (type : KeyType) (result : ScrapeResult) (w : World)
    → Distinct w.public_keys
    → OthersAre source type
        (keep (is_other source type) w.public_keys)
        (sync_keys source fetched type result w).1
unfolding sync_keys
sync_keys-OthersAre source fetched type result w distinct =
    let others : List PublicKey = keep (is_other source type) w.public_keys in
    let found =
      Ensures-attempt (OwnRows source type others) (λ r. All (λ k. IsOwn k.id others) r.entities)
        (Keys.search (filter_of source type) 1000 0) (search-IsOwn source type others 1000 0) w
        (refl, passing-IsOwn source type w.public_keys distinct) in
    let r : Result SearchResult = (Keys.search (filter_of source type) 1000 0 w).0 in
    let w' : World = (Keys.search (filter_of source type) 1000 0 w).1 in
    Maintains-after_search source type others fetched result r (found.1 r refl) w' found.0.0
