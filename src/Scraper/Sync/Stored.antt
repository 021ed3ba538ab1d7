-- ===== src/Scraper/Sync/Stored.antt =====
-- The loop of `syncKeys` over the fetched keys, and what it keeps true of the stored ones.
use sshark_api.Base.{
  ℕ, Bool, true, false, ◌||◌, List, [], ◌∷◌, ◌≡◌, refl, ◌∙◌, ap, arith, All, All-weaken, Bool-cases,
  inl, inr, Option-cases,
}
use sshark_api.Base.Text.{text_eq_refl, is_empty}
use sshark_api.Store.{
  KeyType, ssh, gpg, PublicKey, ScrapeHistory, World, M, Result, ok, err, ◌>>=◌, ◌>>◌, pure,
  attempt, new_id, IsReliable,
}
use sshark_api.Store.Frame.{
  Maintains, Maintains-bind, Ensures, Ensures-bind, Ensures-pure, Ensures-if, Ensures-Maintains,
  Maintains-Ensures,
}
use sshark_api.Tables.Keys
use sshark_api.Tables.Keys.Frame.{is_other}
use sshark_api.Tables.Keys.Hold.{Hold-update, Hold-create, Hold-add_scrape_history}
use sshark_api.Tables.Keys.Reliable.{
  Reliable-new_id, Reliable-update, Reliable-create, Reliable-add_scrape_history,
}
use sshark_api.Scraper.{FetchedKey, ScrapeResult}
use sshark_api.Scraper.Sync.{
  record_scrape_history, refreshed, key_needs_update, update_existing_key, new_key, create_new_key,
  KeyMap, lookup, insert, store_keys, count_updated, count_added, is_seen,
}
use sshark_api.Scraper.Sync.Index.{Keyed, insert-Keyed, lookup-Keyed, unseen, unseen-insert, has_id}

fingerprint-refreshed :
    (k : PublicKey) (f : FetchedKey) (t : KeyType) → (refreshed k f t).fingerprint ≡ k.fingerprint
unfolding refreshed
fingerprint-refreshed k f ssh = refl
fingerprint-refreshed k f gpg = refl

abbrev IsFetched : List FetchedKey → FetchedKey → Type 0
IsFetched fetched f = is_empty f.fingerprint ≡ false → is_seen fetched f.fingerprint ≡ true

-- What was fetched is seen, if it has a fingerprint.
pub self-IsFetched : (fetched : List FetchedKey) → All (IsFetched fetched) fetched
self-IsFetched [] = tt
self-IsFetched (f ∷ fs) = (
  λ named. rw (named, text_eq_refl f.fingerprint) refl,
  All-weaken fs (λ g seen named. let this = seen named in ground (arith)) (self-IsFetched fs),
)

module _ (source : ℕ) (type : KeyType) (fetched : List FetchedKey) where
  -- The key is of another source or type, was fetched, or is among the entries.
  abbrev pub covered : KeyMap → PublicKey → Bool
  covered u k = is_other source type k || (is_seen fetched k.fingerprint || has_id k.id u)

  -- No statement fails, and every key is covered.
  abbrev pub Covers : KeyMap → World → Type 0
  Covers u w = IsReliable w × All (λ k. covered u k ≡ true) w.public_keys

  module _ (u : KeyMap) where
    abbrev C : PublicKey → Type 0
    C k = covered u k ≡ true

    both :
        {A : Type 0} (m : M A)
        → Maintains IsReliable m
        → Maintains (λ w. All C w.public_keys) m
        → Maintains (Covers u) m
    both m hr hc w i = (hr w i.0, hc w i.1)

    Covers-record_scrape_history :
        (key : ℕ) (success changed : Bool)
        → Maintains (Covers u) (record_scrape_history key success changed)
    unfolding record_scrape_history new_id
    Covers-record_scrape_history key success changed w i =
        let h : ScrapeHistory = record {
          key_id = key;
          scraped_at = w.env.now;
          success = success;
          key_changed = changed;
        } in
        let w' : World = (new_id w).1 in
        (
          Reliable-add_scrape_history h w' i.0,
          Hold-add_scrape_history C (λ k m c. c) (λ k m c. c) h w' i.1,
        )

    noted :
        {A : Type 0} (P : A → Type 0) (key : ℕ) (changed : Bool) (a : A)
        → P a
        → Ensures (Covers u) P (record_scrape_history key true changed >> pure a)
    noted P key changed a p =
        Ensures-bind (Covers u) (λ u. Unit {0}) P (record_scrape_history key true changed)
          (λ u. pure a)
          (Ensures-Maintains (Covers u) (record_scrape_history key true changed)
            (Covers-record_scrape_history key true changed))
          (λ u' _. Ensures-pure (Covers u) P a p)

    Covers-update :
        (k : PublicKey)
        → is_seen fetched k.fingerprint ≡ true
        → Maintains (Covers u) (Keys.update k)
    Covers-update k seen =
        both (Keys.update k) (Reliable-update k)
          (Hold-update C (λ k m c. c) (λ k m c. c) k (λ now row c. rw seen (ground arith)))

    -- The entity that is returned still has the fingerprint.
    update_existing_key-Covers :
        (k : PublicKey) (f : FetchedKey)
        → k.fingerprint ≡ f.fingerprint
        → is_seen fetched f.fingerprint ≡ true
        → Ensures (Covers u) (λ o. o.1.fingerprint ≡ f.fingerprint) (update_existing_key k f type)
    unfolding update_existing_key
    update_existing_key-Covers k f same seen =
        let entity : PublicKey = refreshed k f type in
        let same' : entity.fingerprint ≡ f.fingerprint = fingerprint-refreshed k f type ∙ same in
        let P : Bool × PublicKey → Type 0 = λ o. o.1.fingerprint ≡ f.fingerprint in
        let after : Result (Unit {0}) → M (Bool × PublicKey) = λ updated. elim updated [
          | err e ↦ pure (false, entity)
          | ok _ ↦ record_scrape_history k.id true true >> pure (true, entity)
        ] in
        Ensures-if (Covers u) P (key_needs_update k f type) (attempt (Keys.update entity) >>= after)
          (record_scrape_history k.id true false >> pure (false, k))
          (Ensures-bind (Covers u) (λ r. Unit {0}) P (attempt (Keys.update entity)) after
            (Ensures-Maintains (Covers u) (attempt (Keys.update entity))
              (Covers-update entity (ap (is_seen fetched) same' ∙ seen)))
            (λ r _. elim r as (λ r. Ensures (Covers u) P (after r)) [
              | err e ↦ Ensures-pure (Covers u) P (false, entity) same'
              | ok _ ↦ noted P k.id true (true, entity) same'
            ]))
          (noted P k.id false (false, k) same)

    Covers-create_new_key :
        (f : FetchedKey)
        → is_seen fetched f.fingerprint ≡ true
        → Maintains (Covers u) (create_new_key source f type)
    unfolding create_new_key new_key
    Covers-create_new_key f seen =
        let after : Result ℕ → M Bool = λ created. elim created [
          | err e ↦ pure false
          | ok stored ↦ record_scrape_history stored true true >> pure true
        ] in
        Maintains-bind (Covers u) new_id
          (λ id. attempt (Keys.create (new_key id source f type)) >>= after)
          (both new_id Reliable-new_id (unfold new_id in λ w i. i))
          (λ id.
            Maintains-bind (Covers u) (attempt (Keys.create (new_key id source f type))) after
              (both (Keys.create (new_key id source f type))
                (Reliable-create (new_key id source f type))
                (Hold-create C (λ k m c. c) (λ k m c. c) (new_key id source f type)
                  (λ id now. rw seen (ground arith))))
              (λ r. elim r as (λ r. Maintains (Covers u) (after r)) [
                | err e ↦ λ w i. i
                | ok stored ↦
                    Maintains-Ensures (Covers u) (λ b. Unit {0})
                      (record_scrape_history stored true true >> pure true)
                      (noted (λ b. Unit {0}) stored true true tt)
              ]))

    -- The map afterwards has the same entries that were not fetched.
    abbrev pub Kept : KeyMap → Type 0
    Kept m = Keyed m × (unseen fetched m ≡ u)

    pub store_keys-Kept :
        (fs : List FetchedKey) (m : KeyMap) (result : ScrapeResult)
        → All (IsFetched fetched) fs
        → Kept m
        → Ensures (Covers u) (λ p. Kept p.0) (store_keys source type fs m result)
    unfolding store_keys
    store_keys-Kept [] m result seen kept = Ensures-pure (Covers u) (λ p. Kept p.0) (m, result) kept
    store_keys-Kept (f ∷ rest) m result seen kept =
        let P : KeyMap × ScrapeResult → Type 0 = λ p. Kept p.0 in
        let next : Bool × PublicKey → M (KeyMap × ScrapeResult) = λ outcome.
          store_keys source type rest (insert f.fingerprint outcome.1 m)
            (count_updated outcome.0 result) in
        let more : Bool → M (KeyMap × ScrapeResult) =
          λ added. store_keys source type rest m (count_added added result) in
        elim (Bool-cases (is_empty f.fingerprint)) [
          | inl blank ↦ rw blank (store_keys-Kept rest m result seen.1 kept)
          | inr named ↦
              let here : is_seen fetched f.fingerprint ≡ true = seen.0 named in
              rw named (elim (Option-cases (lookup f.fingerprint m)) [
                | inl missing ↦ rw missing (
                    Ensures-bind (Covers u) (λ b. Unit {0}) P (create_new_key source f type) more
                      (Ensures-Maintains (Covers u) (create_new_key source f type)
                        (Covers-create_new_key f here))
                      (λ added _. store_keys-Kept rest m (count_added added result) seen.1 kept))
                | inr (k, found) ↦ rw found (
                    Ensures-bind (Covers u) (λ o. o.1.fingerprint ≡ f.fingerprint) P
                      (update_existing_key k f type) next
                      (update_existing_key-Covers k f (lookup-Keyed f.fingerprint m k kept.0 found)
                        here)
                      (λ outcome same.
                        store_keys-Kept rest (insert f.fingerprint outcome.1 m)
                          (count_updated outcome.0 result) seen.1
                          (
                            insert-Keyed f.fingerprint outcome.1 m same kept.0,
                            unseen-insert fetched f.fingerprint outcome.1 m here ∙ kept.1,
                          )))
              ])
        ]
