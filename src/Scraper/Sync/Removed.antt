-- ===== src/Scraper/Sync/Removed.antt =====
-- The loop of `syncKeys` (internal/infra/scraper/service.go) over the stored keys that were not fetched.
use sshark_api.Base.{
  ℕ, ◌+◌, true, false, not, List, [], ◌∷◌, ◌==◌, ◌≡◌, keep, arith, All, any, Bool-cases, inl, inr,
  ==_iff,
}
use sshark_api.Base.Text.{Text}
use sshark_api.Store.{KeyType, PublicKey, World, Result, ok, err, statement}
use sshark_api.Tables.Keys
use sshark_api.Tables.Keys.{SearchResult}
use sshark_api.Tables.Keys.Reliable.{Reliable-delete}
use sshark_api.Scraper.{FetchedKey, ScrapeResult}
use sshark_api.Scraper.Sync.{KeyMap, is_seen, remove_keys}
use sshark_api.Scraper.Sync.Index.{unseen}
use sshark_api.Scraper.Sync.Stored.{covered, Covers}

module _ (source : ℕ) (type : KeyType) (fetched : List FetchedKey) where
  covered-keep :
      (f : Text) (k : PublicKey) (u : KeyMap) (rows : List PublicKey)
      → All (λ j. covered source type fetched ((f, k) ∷ u) j ≡ true) rows
      → All (λ j. covered source type fetched u j ≡ true) (keep (λ j. not (j.id == k.id)) rows)
  covered-keep f k u [] h = tt
  covered-keep f k u (j ∷ rows) h = elim (Bool-cases (j.id == k.id)) [
    | inl e ↦ rw e (covered-keep f k u rows h.1)
    | inr e ↦
        let differ : (k.id == j.id) ≡ false = ground (arith, ==_iff j.id k.id, ==_iff k.id j.id) in
        rw e ((let this = h.0 in rw differ at this), covered-keep f k u rows h.1)
  ]

  covered-absent :
      (f : Text) (k : PublicKey) (u : KeyMap) (rows : List PublicKey)
      → any (λ j. j.id == k.id) rows ≡ false
      → All (λ j. covered source type fetched ((f, k) ∷ u) j ≡ true) rows
      → All (λ j. covered source type fetched u j ≡ true) rows
  covered-absent f k u [] absent h = tt
  covered-absent f k u (j ∷ rows) absent h =
      let differ : (k.id == j.id) ≡ false = ground (arith, ==_iff j.id k.id, ==_iff k.id j.id) in
      ((let this = h.0 in rw differ at this), covered-absent f k u rows (ground arith) h.1)

  delete-Covers :
      (f : Text) (k : PublicKey) (u : KeyMap) (w : World)
      → Covers source type fetched ((f, k) ∷ u) w
      → Covers source type fetched u (Keys.delete k.id w).1
  unfolding Keys.delete statement
  delete-Covers f k u w i = (
    Reliable-delete k.id w i.0,
    elim (Bool-cases (any (λ j. j.id == k.id) w.public_keys)) [
      | inl there ↦ rw (i.0 w.env.statement, there) (covered-keep f k u w.public_keys i.1)
      | inr absent ↦
          rw (i.0 w.env.statement, absent) (covered-absent f k u w.public_keys absent i.1)
    ],
  )

  pub remove_keys-Covers :
      (m : KeyMap) (result : ScrapeResult) (w : World)
      → Covers source type fetched (unseen fetched m) w
      → Covers source type fetched [] (remove_keys fetched m result w).1
  unfolding remove_keys
  remove_keys-Covers [] result w i = i
  remove_keys-Covers ((f, k) ∷ m) result w i =
      let count : Result (Unit {0}) → ScrapeResult = λ deleted. elim deleted [
        | err e ↦ result
        | ok _ ↦ record result { keys_removed = result.keys_removed + 1 }
      ] in
      let (r, w') = Keys.delete k.id w in
      elim (Bool-cases (is_seen fetched f)) [
        | inl seen ↦ rw seen (remove_keys-Covers m result w (rw seen at i))
        | inr gone ↦ rw gone (
            remove_keys-Covers m (count r) w'
              (delete-Covers f k (unseen fetched m) w (rw gone at i)))
      ]
