-- ===== src/Public/Proven.antt =====
-- What the pages of api/public/v1/userprofile.go and api/authenticated/v1/keys.go show of a user: stored
-- keys of sources that the user has proved to own.
use sshark_api.Base.{
  ℕ, true, List, [], ◌∷◌, ◌≡◌, refl, arith, ap, subst, sym, keep, All, All-weaken, map, ==_iff,
}
use sshark_api.Store.{KeyType, ssh, gpg, PublicKey, Source, Env, World}
use sshark_api.Store.Frame.{Ensures}
use sshark_api.Tables.Keys
use sshark_api.Tables.Keys.{SearchFilter, SearchResult}
use sshark_api.Tables.Keys.Found.{filter_of}
use sshark_api.Tables.Keys.Pages.{Member, All-keep}
use sshark_api.Tables.Keys.Scanned.{search-All}
use sshark_api.Tables.Sources.{Joined}
use sshark_api.Tables.Sources.Named.{TablesAre, IsRow}
use sshark_api.Identity.{Account, ExternalAccount}
use sshark_api.Identity.Accounts.{IsProvedBy}

key_type_eq-eq : (t u : KeyType) → Keys.key_type_eq t u ≡ true → t ≡ u
unfolding Keys.key_type_eq
key_type_eq-eq ssh ssh h = refl
key_type_eq-eq gpg gpg h = refl
key_type_eq-eq ssh gpg h = absurd (cc)
key_type_eq-eq gpg ssh h = absurd (cc)

module _ (keys : List PublicKey) (sources : List Source) where
  abbrev keeps :
      (w : World) (e : Env)
      → TablesAre keys sources w
      → TablesAre keys sources (record w { env = e })
  keeps w e i = i

  -- A row of the source and the type.
  abbrev IsRowOf : ℕ → KeyType → PublicKey → Type 0
  IsRowOf source type k = Member k keys × (k.source_id ≡ source) × (k.key_type ≡ type)

  -- Such a row, with its metadata.
  abbrev pub IsStored : ℕ → KeyType → PublicKey → Type 0
  IsStored source type e = (k : PublicKey) × IsRowOf source type k × (e ≡ Keys.own_metadata k)

  passes-IsRowOf :
      (source : ℕ) (type : KeyType) (k : PublicKey)
      → Keys.passes (filter_of source type) k ≡ true
      → (k.source_id ≡ source) × (k.key_type ≡ type)
  unfolding Keys.passes
  passes-IsRowOf source type k h =
      ground (arith, ==_iff k.source_id source, key_type_eq-eq k.key_type type)

  -- What a search by a source and a type finds.
  pub search-IsStored :
      (source : ℕ) (type : KeyType) (limit offset : ℕ)
      → Ensures
          (TablesAre keys sources)
          (λ r. All (IsStored source type) r.entities)
          (Keys.search (filter_of source type) limit offset)
  search-IsStored source type limit offset =
      let filter : SearchFilter = filter_of source type in
      search-All (TablesAre keys sources) keeps (IsRowOf source type) (IsStored source type)
        (λ k row. (k, row, refl)) filter limit offset
        (λ w i.
          subst (λ rows. All (IsRowOf source type) (keep (Keys.passes filter) rows)) (sym i.0)
            (All-weaken (keep (Keys.passes filter) keys)
              (λ k h. let own = passes-IsRowOf source type k h.1 in (h.0, own.0, own.1))
              (All-keep (Keys.passes filter) keys)))

  module _ (externals : List ExternalAccount) where
    -- The source is the row of an account that one of the user's external accounts proves.
    abbrev pub IsProvenSource : Joined → Type 0
    IsProvenSource j =
        (a : Account) × IsProvedBy externals a × IsRow keys sources a.provider a.username j

    -- What is shown is a stored key of the type, with its metadata, of such a source and under it.
    abbrev pub IsProvenKey : {K : Type 0} → KeyType → (Joined → PublicKey → K) → K → Type 0
    IsProvenKey type show shown =
        (j : Joined) × (k : PublicKey) × IsProvenSource j
        × IsRowOf j.source.id type k
        × (shown ≡ show j (Keys.own_metadata k))

    pub map-IsProvenKey :
        {K : Type 0} (type : KeyType) (show : Joined → PublicKey → K) (j : Joined)
        (es : List PublicKey)
        → IsProvenSource j
        → All (IsStored j.source.id type) es
        → All (IsProvenKey type show) (map (show j) es)
    map-IsProvenKey type show j [] proven stored = tt
    map-IsProvenKey type show j (e ∷ es) proven ((k, row, same), stored) =
        ((j, k, proven, row, ap (show j) same), map-IsProvenKey type show j es proven stored)
