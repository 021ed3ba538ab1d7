-- ===== src/Scraper/Sync/Current.antt =====
-- After a reliable `syncKeys` of internal/infra/scraper/service.go, no key is stored that was not
-- fetched.
use sshark_api.Base.{
  ℕ, true, false, List, [], ◌≡◌, refl, sym, ap, subst, length, ◌≤◌, arith, All, All-weaken,
  Bool-cases, inl, inr,
}
use sshark_api.Base.Text.{is_empty}
use sshark_api.Store.{KeyType, World, M, Result, ok, err, ◌>>=◌, pure, IsReliable, bind-ok}
use sshark_api.Tables.Keys
use sshark_api.Tables.Keys.{SearchResult}
use sshark_api.Tables.Keys.Frame.{is_other}
use sshark_api.Tables.Keys.Found.{filter_of}
use sshark_api.Tables.Keys.Reliable.{search_reliable}
use sshark_api.Scraper.{FetchedKey, ScrapeResult}
use sshark_api.Scraper.Sync.{KeyMap, by_fingerprint, store_keys, is_seen, remove_keys, sync_keys}
use sshark_api.Scraper.Sync.Index.{indexed, OneEach, by_fingerprint-Keyed, unseen, indexed-unseen}
use sshark_api.Scraper.User.Outcomes.{store_keys-Extends}
use sshark_api.Scraper.Sync.Stored.{self-IsFetched, covered, Covers, Kept, store_keys-Kept}
use sshark_api.Scraper.Sync.Removed.{remove_keys-Covers}
use sshark_api.Scraper.Sync.Loaded.{own, found, found-indexed, All-own-back}

module _ (source : ℕ) (type : KeyType) (fetched : List FetchedKey) (w : World)
    (named : All (λ k. is_empty k.fingerprint ≡ false) (own source type w.public_keys))
    (one : OneEach (own source type w.public_keys))
    (small : length (own source type w.public_keys) ≤ 1000) where
  abbrev known : KeyMap
  known = by_fingerprint (found source type w.public_keys) []

  covers-known :
      All (λ k. covered source type fetched (unseen fetched known) k ≡ true) w.public_keys
  covers-known =
      All-weaken w.public_keys
        (λ k (i : is_other source type k ≡ false → indexed k.fingerprint k.id known ≡ true).
          elim (Bool-cases (is_other source type k)) [
            | inl e ↦ rw e refl
            | inr e ↦ elim (Bool-cases (is_seen fetched k.fingerprint)) [
              | inl seen ↦ rw (e, seen) refl
              | inr gone ↦
                  rw (e, gone, indexed-unseen fetched k.fingerprint k.id known gone (i e)) refl
            ]
          ])
        (All-own-back source type w.public_keys (λ k. indexed k.fingerprint k.id known ≡ true)
          w.public_keys (found-indexed source type w.public_keys named one small))

  -- What follows the search, from a world with the same keys.
  after_search-Covers :
      (result : ScrapeResult) (r : SearchResult) (v : World)
      → r.entities ≡ found source type w.public_keys
      → IsReliable v
      → v.public_keys ≡ w.public_keys
      → Covers source type fetched []
          ((store_keys source type fetched (by_fingerprint r.entities []) result >>= λ stored.
              remove_keys fetched stored.0 stored.1)
            v).1
  after_search-Covers result r v same reliable keys =
      let m : KeyMap = by_fingerprint r.entities [] in
      let store : M (KeyMap × ScrapeResult) = store_keys source type fetched m result in
      let remove : KeyMap × ScrapeResult → M ScrapeResult =
        λ stored. remove_keys fetched stored.0 stored.1 in
      let (p, e, _) = store_keys-Extends source type fetched m result v in
      let u : KeyMap = unseen fetched known in
      let kept : Kept source type fetched u m = (
        by_fingerprint-Keyed r.entities [] tt,
        ap (λ ks. unseen fetched (by_fingerprint ks [])) same,
      ) in
      let before : Covers source type fetched u v = (
        reliable,
        subst (λ rows. All (λ k. covered source type fetched u k ≡ true) rows) (sym keys)
            covers-known,
      ) in
      let (covers, returned) =
        store_keys-Kept source type fetched u fetched m result (self-IsFetched fetched) kept v
          before in
      subst (λ t. Covers source type fetched [] t.1) (sym (bind-ok store remove v e))
        (remove_keys-Covers source type fetched p.0 p.1 (store v).1
          (subst (λ n. Covers source type fetched n (store v).1) (sym (returned p e).1) covers))

-- After a sync of one source and type in which no statement fails, every stored key of that source and
-- type has a fingerprint that was fetched: no other key is left. The source has at most 1000 keys of
-- the type, each with a fingerprint, and no two with the same.
pub sync_keys-IsCurrent :
    (source : ℕ) (fetched : List FetchedKey) (type : KeyType) (result : ScrapeResult) (w : World)
    → IsReliable w
    → All (λ k. is_empty k.fingerprint ≡ false) (own source type w.public_keys)
    → OneEach (own source type w.public_keys)
    → length (own source type w.public_keys) ≤ 1000
    → All
        (λ k. is_other source type k ≡ false → is_seen fetched k.fingerprint ≡ true)
        (sync_keys source fetched type result w).1.public_keys
unfolding sync_keys
sync_keys-IsCurrent source fetched type result w reliable named one small =
    let (r, e, searched, same, after) = search_reliable (filter_of source type) 1000 0 w reliable in
    let step : Result SearchResult → M ScrapeResult = λ existing. elim existing [
      | err e ↦ pure result
      | ok r ↦ store_keys source type fetched (by_fingerprint r.entities []) result >>= λ stored.
          remove_keys fetched stored.0 stored.1
    ] in
    let next : Result SearchResult × World → World = λ s. (step s.0 s.1).1 in
    let covers =
      after_search-Covers source type fetched w named one small result r (record w { env = e }) same
        after refl in
    let end : Covers source type fetched [] (next (Keys.search (filter_of source type) 1000 0 w)) =
      subst (λ s. Covers source type fetched [] (next s)) (sym searched) covers in
    All-weaken (next (Keys.search (filter_of source type) 1000 0 w)).public_keys
      (λ k (c : covered source type fetched [] k ≡ true) mine. ground (arith)) end.1
