-- ===== src/Scraper/Sync/Loaded.antt =====
-- What the search of `syncKeys` (internal/infra/scraper/service.go) puts into the map.
use sshark_api.Base.{
  ℕ, true, false, List, [], ◌∷◌, ◌==◌, ◌≡◌, sym, subst, keep, map, length, ◌≤◌, arith, All,
  All-weaken, Bool-cases, inl, inr,
}
use sshark_api.Base.Text.{Text, text_eq, is_empty}
use sshark_api.Store.{KeyType, PublicKey}
use sshark_api.Tables.Keys
use sshark_api.Tables.Keys.{SearchResult}
use sshark_api.Tables.Keys.Frame.{is_other}
use sshark_api.Tables.Keys.Found.{filter_of, passes-own}
use sshark_api.Tables.Keys.Pages.{All-page, All-page-back}
use sshark_api.Scraper.Sync.{by_fingerprint}
use sshark_api.Scraper.Sync.Index.{indexed, OneEach, by_fingerprint-indexed}

-- The rows of the source and the type.
abbrev pub own : ℕ → KeyType → List PublicKey → List PublicKey
own source type rows = keep (Keys.passes (filter_of source type)) rows

-- `loadMetadata` changes neither the identifier nor the fingerprint.
id-own_metadata : (k : PublicKey) → (Keys.own_metadata k).id ≡ k.id
id-own_metadata k = ground arith

fingerprint-own_metadata : (k : PublicKey) → (Keys.own_metadata k).fingerprint ≡ k.fingerprint
fingerprint-own_metadata k = ground arith

-- A predicate on the two columns holds of the loaded entities as of the rows.
All-loaded :
    (P : ℕ → Text → Type 0) (rows : List PublicKey)
    → All (λ k. P k.id k.fingerprint) rows
    → All (λ k. P k.id k.fingerprint) (map Keys.own_metadata rows)
All-loaded P [] h = tt
All-loaded P (k ∷ rows) h = (
  subst (λ i. P i (Keys.own_metadata k).fingerprint) (sym (id-own_metadata k))
      (subst (P k.id) (sym (fingerprint-own_metadata k)) h.0),
  All-loaded P rows h.1,
)

All-loaded-back :
    (P : ℕ → Text → Type 0) (rows : List PublicKey)
    → All (λ k. P k.id k.fingerprint) (map Keys.own_metadata rows)
    → All (λ k. P k.id k.fingerprint) rows
All-loaded-back P [] h = tt
All-loaded-back P (k ∷ rows) h = (
  subst (P k.id) (fingerprint-own_metadata k)
      (subst (λ i. P i (Keys.own_metadata k).fingerprint) (id-own_metadata k) h.0),
  All-loaded-back P rows h.1,
)

-- Every stored key of the source and the type is in the map, if the search has room for all.
module _ (source : ℕ) (type : KeyType) (rows : List PublicKey) where
  abbrev pub found : List PublicKey
  found = map Keys.own_metadata (Keys.page 1000 0 (own source type rows))

  found-All :
      (P : ℕ → Text → Type 0)
      → All (λ k. P k.id k.fingerprint) (own source type rows)
      → All (λ k. P k.id k.fingerprint) found
  found-All P h =
      All-loaded P (Keys.page 1000 0 (own source type rows))
        (All-page (λ k. P k.id k.fingerprint) 1000 0 (own source type rows) h)

  found-OneEach : OneEach (own source type rows) → OneEach found
  found-OneEach one =
      found-All (λ id f. All (λ j. text_eq j.fingerprint f ≡ true → (j.id == id) ≡ true) found)
        (All-weaken (own source type rows)
          (λ k agree.
            found-All (λ id f. text_eq f k.fingerprint ≡ true → (id == k.id) ≡ true) agree)
          one)

  pub found-indexed :
      All (λ k. is_empty k.fingerprint ≡ false) (own source type rows)
      → OneEach (own source type rows)
      → length (own source type rows) ≤ 1000
      → All
          (λ k. indexed k.fingerprint k.id (by_fingerprint found []) ≡ true)
          (own source type rows)
  found-indexed named one small =
      let P : ℕ → Text → Type 0 = λ id f. indexed f id (by_fingerprint found []) ≡ true in
      All-page-back (λ k. P k.id k.fingerprint) 1000 (own source type rows) small
        (All-loaded-back P (Keys.page 1000 0 (own source type rows)) (
          by_fingerprint-indexed found [] (found-All (λ id f. is_empty f ≡ false) named)
            (found-OneEach one)))

  pub All-own-back :
      (P : PublicKey → Type 0) (ks : List PublicKey)
      → All P (own source type ks)
      → All (λ k. is_other source type k ≡ false → P k) ks
  All-own-back P [] h = tt
  All-own-back P (k ∷ ks) h = elim (Bool-cases (is_other source type k)) [
    | inl e ↦ ((λ mine. absurd (cc)), All-own-back P ks (rw (passes-own source type k, e) at h))
    | inr e ↦
        let h' : P k × All P (own source type ks) = rw (passes-own source type k, e) at h in
        ((λ mine. h'.0), All-own-back P ks h'.1)
  ]
