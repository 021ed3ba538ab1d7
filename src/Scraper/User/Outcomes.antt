-- ===== src/Scraper/User/Outcomes.antt =====
-- What syncing a list of keys counts: the result is about the same user, and no count falls.
use sshark_api.Base.{
  ℕ, ◌+◌, ◌≤◌, Bool, true, false, none, some, List, [], ◌∷◌, ◌≡◌, refl, ◌∙◌, arith,
}
use sshark_api.Base.Text.{is_empty}
use sshark_api.Store.{KeyType, PublicKey, M, Result, ok, err, ◌>>=◌, ◌>>◌, pure, attempt, new_id}
use sshark_api.Store.Returns.{Returns, Returns-bind, Returns-pure, Returns-attempt, Returns-if}
use sshark_api.Tables.Keys
use sshark_api.Tables.Keys.{SearchResult}
use sshark_api.Scraper.{FetchedKey, ScrapeResult}
use sshark_api.Scraper.Sync.{
  record_scrape_history, refreshed, key_needs_update, update_existing_key, new_key, create_new_key,
  KeyMap, lookup, insert, by_fingerprint, store_keys, count_updated, count_added, is_seen,
  remove_keys, sync_keys,
}

-- The later result is about the same user, and has counted no less.
pub record Extends (r s : ScrapeResult) : Type 0 where
  pub same_provider : s.provider ≡ r.provider
  pub same_username : s.username ≡ r.username
  pub same_error : s.error ≡ r.error
  pub added : r.keys_added ≤ s.keys_added
  pub updated : r.keys_updated ≤ s.keys_updated
  pub removed : r.keys_removed ≤ s.keys_removed

pub Extends-refl : (r : ScrapeResult) → Extends r r
Extends-refl r = record {
  same_provider = refl;
  same_username = refl;
  same_error = refl;
  added = omega arith;
  updated = omega arith;
  removed = omega arith;
}

pub Extends-trans : {r s t : ScrapeResult} → Extends r s → Extends s t → Extends r t
Extends-trans a b = record {
  same_provider = b.same_provider ∙ a.same_provider;
  same_username = b.same_username ∙ a.same_username;
  same_error = b.same_error ∙ a.same_error;
  added = omega (arith, a.added, b.added);
  updated = omega (arith, a.updated, b.updated);
  removed = omega (arith, a.removed, b.removed);
}

count_updated-Extends : (b : Bool) (r : ScrapeResult) → Extends r (count_updated b r)
count_updated-Extends true r = record {
  same_provider = refl;
  same_username = refl;
  same_error = refl;
  added = omega arith;
  updated = omega arith;
  removed = omega arith;
}
count_updated-Extends false r = Extends-refl r

count_added-Extends : (b : Bool) (r : ScrapeResult) → Extends r (count_added b r)
count_added-Extends true r = record {
  same_provider = refl;
  same_username = refl;
  same_error = refl;
  added = omega arith;
  updated = omega arith;
  removed = omega arith;
}
count_added-Extends false r = Extends-refl r

abbrev pub Any : {A : Type 0} → A → Type 0
Any a = Unit {0}

record_scrape_history-Returns :
    (key : ℕ) (success changed : Bool) → Returns Any (record_scrape_history key success changed)
unfolding record_scrape_history new_id
record_scrape_history-Returns key success changed w = (tt, refl, tt)

update_existing_key-Returns :
    (k : PublicKey) (f : FetchedKey) (t : KeyType) → Returns Any (update_existing_key k f t)
unfolding update_existing_key
update_existing_key-Returns k f t =
    let entity : PublicKey = refreshed k f t in
    let after : Result (Unit {0}) → M (Bool × PublicKey) = λ updated. elim updated [
      | err e ↦ pure (false, entity)
      | ok _ ↦ record_scrape_history k.id true true >> pure (true, entity)
    ] in
    let note : (changed : Bool) (o : Bool × PublicKey)
        → Returns Any (record_scrape_history k.id true changed >> pure o) =
      λ changed o.
        Returns-bind Any Any (record_scrape_history k.id true changed) (λ u. pure o)
          (record_scrape_history-Returns k.id true changed) (λ u _. Returns-pure Any o tt) in
    Returns-if Any (key_needs_update k f t) (attempt (Keys.update entity) >>= after)
      (record_scrape_history k.id true false >> pure (false, k))
      (Returns-bind Any Any (attempt (Keys.update entity)) after
        (Returns-attempt (Keys.update entity))
        (λ r _. elim r as (λ r. Returns Any (after r)) [
          | err e ↦ Returns-pure Any (false, entity) tt
          | ok _ ↦ note true (true, entity)
        ]))
      (note false (false, k))

create_new_key-Returns :
    (source : ℕ) (f : FetchedKey) (t : KeyType) → Returns Any (create_new_key source f t)
unfolding create_new_key new_id
create_new_key-Returns source f t =
    let after : Result ℕ → M Bool = λ created. elim created [
      | err e ↦ pure false
      | ok stored ↦ record_scrape_history stored true true >> pure true
    ] in
    Returns-bind Any Any new_id (λ id. attempt (Keys.create (new_key id source f t)) >>= after)
      (λ w. (w.env.ids w.env.drawn, refl, tt))
      (λ id _.
        Returns-bind Any Any (attempt (Keys.create (new_key id source f t))) after
          (Returns-attempt (Keys.create (new_key id source f t)))
          (λ r _. elim r as (λ r. Returns Any (after r)) [
            | err e ↦ Returns-pure Any false tt
            | ok stored ↦
                Returns-bind Any Any (record_scrape_history stored true true) (λ u. pure true)
                  (record_scrape_history-Returns stored true true) (λ u _. Returns-pure Any true tt)
          ]))

pub store_keys-Extends :
    (source : ℕ) (t : KeyType) (fetched : List FetchedKey) (m : KeyMap) (result : ScrapeResult)
    → Returns (λ p. Extends result p.1) (store_keys source t fetched m result)
unfolding store_keys
store_keys-Extends source t [] m result =
    Returns-pure (λ p. Extends result p.1) (m, result) (Extends-refl result)
store_keys-Extends source t (f ∷ rest) m result =
    let P : KeyMap × ScrapeResult → Type 0 = λ p. Extends result p.1 in
    let known : PublicKey → M (KeyMap × ScrapeResult) = λ existing.
      update_existing_key existing f t >>= λ outcome.
      store_keys source t rest (insert f.fingerprint outcome.1 m)
        (count_updated outcome.0 result) in
    let unknown : M (KeyMap × ScrapeResult) = create_new_key source f t >>= λ added.
    store_keys source t rest m (count_added added result) in
    Returns-if P (is_empty f.fingerprint) (store_keys source t rest m result)
      (elim (lookup f.fingerprint m) [ some existing ↦ known existing | none ↦ unknown ])
      (store_keys-Extends source t rest m result)
      (elim (lookup f.fingerprint m)
        as (λ o. Returns P (elim o [ some existing ↦ known existing | none ↦ unknown ])) [
          | none ↦
              Returns-bind Any P (create_new_key source f t)
                (λ added. store_keys source t rest m (count_added added result))
                (create_new_key-Returns source f t)
                (λ added _ w.
                  let (p, e, ext) =
                    store_keys-Extends source t rest m (count_added added result) w in
                  (p, e, Extends-trans (count_added-Extends added result) ext))
          | some k ↦
              Returns-bind Any P (update_existing_key k f t)
                (λ outcome.
                  store_keys source t rest (insert f.fingerprint outcome.1 m)
                    (count_updated outcome.0 result))
                (update_existing_key-Returns k f t)
                (λ outcome _ w.
                  let (p, e, ext) =
                    store_keys-Extends source t rest (insert f.fingerprint outcome.1 m)
                      (count_updated outcome.0 result) w in
                  (p, e, Extends-trans (count_updated-Extends outcome.0 result) ext))
        ])

remove_keys-Extends :
    (fetched : List FetchedKey) (m : KeyMap) (result : ScrapeResult)
    → Returns (Extends result) (remove_keys fetched m result)
unfolding remove_keys
remove_keys-Extends fetched [] result = Returns-pure (Extends result) result (Extends-refl result)
remove_keys-Extends fetched ((g, k) ∷ m) result =
    let count : Result (Unit {0}) → ScrapeResult = λ deleted. elim deleted [
      | err e ↦ result
      | ok _ ↦ record result { keys_removed = result.keys_removed + 1 }
    ] in
    let grows : (d : Result (Unit {0})) → Extends result (count d) = λ d.
      elim d as (λ d. Extends result (count d)) [
        | err e ↦ Extends-refl result
        | ok _ ↦ record {
          same_provider = refl;
          same_username = refl;
          same_error = refl;
          added = omega arith;
          updated = omega arith;
          removed = omega arith;
        }
      ] in
    Returns-if (Extends result) (is_seen fetched g) (remove_keys fetched m result)
      (attempt (Keys.delete k.id) >>= λ deleted. remove_keys fetched m (count deleted))
      (remove_keys-Extends fetched m result)
      (Returns-bind Any (Extends result) (attempt (Keys.delete k.id))
        (λ deleted. remove_keys fetched m (count deleted)) (Returns-attempt (Keys.delete k.id))
        (λ deleted _ w.
          let (r, e, ext) = remove_keys-Extends fetched m (count deleted) w in
          (r, e, Extends-trans (grows deleted) ext)))

pub sync_keys-Extends :
    (source : ℕ) (fetched : List FetchedKey) (t : KeyType) (result : ScrapeResult)
    → Returns (Extends result) (sync_keys source fetched t result)
unfolding sync_keys
sync_keys-Extends source fetched t result =
    let after : Result SearchResult → M ScrapeResult = λ existing. elim existing [
      | err e ↦ pure result
      | ok found ↦
          store_keys source t fetched (by_fingerprint found.entities []) result >>= λ stored.
          remove_keys fetched stored.0 stored.1
    ] in
    let search : M SearchResult =
      Keys.search (record { source_id = some source; key_type = some t; algorithm = none }) 1000
        0 in
    Returns-bind Any (Extends result) (attempt search) after (Returns-attempt search) (λ r _.
      elim r as (λ r. Returns (Extends result) (after r)) [
        | err e ↦ Returns-pure (Extends result) result (Extends-refl result)
        | ok found ↦
            Returns-bind (λ p. Extends result p.1) (Extends result)
              (store_keys source t fetched (by_fingerprint found.entities []) result)
              (λ stored. remove_keys fetched stored.0 stored.1)
              (store_keys-Extends source t fetched (by_fingerprint found.entities []) result)
              (λ stored ext w.
                let (r, e, more) = remove_keys-Extends fetched stored.0 stored.1 w in
                (r, e, Extends-trans ext more))
      ])
