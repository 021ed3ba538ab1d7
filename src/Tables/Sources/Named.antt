-- ===== src/Tables/Sources/Named.antt =====
-- The source that a look-up by names finds, while the tables stay as they are.
use sshark_api.Base.{
  ◌&&◌, none, some, List, [], ◌∷◌, ◌≡◌, inl, inr, sym, ap, Option, ◌∙◌, arith, find, Option-cases,
}
use sshark_api.Base.Text.{Text, text_eq, text_eq_iff}
use sshark_api.Store.{PublicKey, Source, Env, source_not_found, World, Result, ok, err}
use sshark_api.Store.Frame.{Ensures, Ensures-pure, Ensures-statement}
use sshark_api.Tables.Sources
use sshark_api.Tables.Sources.{Joined}

-- The first row of a provider and a user name.
abbrev pub row_named : Text → Text → List Source → Option Source
row_named provider username rows =
    find (λ s. text_eq s.provider provider && text_eq s.username username) rows

-- That row has the two names.
pub find-HasNames :
    (provider username : Text) (rows : List Source) (s : Source)
    → row_named provider username rows ≡ some s
    → (s.provider ≡ provider) × (s.username ≡ username)
find-HasNames provider username (r ∷ rows) s h = ground (
  arith,
  text_eq_iff r.provider provider,
  text_eq_iff r.username username,
  find-HasNames provider username rows s,
)
find-HasNames provider username [] s h = absurd (cc)

module _ (keys : List PublicKey) (sources : List Source) where
  -- The tables of keys and of sources are these.
  abbrev pub TablesAre : World → Type 0
  TablesAre w = (w.public_keys ≡ keys) × (w.sources ≡ sources)

  abbrev keeps : (w : World) (e : Env) → TablesAre w → TablesAre (record w { env = e })
  keeps w e i = i

  -- The source is the row of the names.
  abbrev pub IsRow : Text → Text → Joined → Type 0
  IsRow provider username j = row_named provider username sources ≡ some j.source

  pub get-IsRow :
      (provider username : Text)
      → Ensures TablesAre
          (IsRow provider username)
          (Sources.get_by_provider_and_username provider username)
  unfolding Sources.get_by_provider_and_username
  get-IsRow provider username =
      let select : World → Result Joined × World = λ w.
        elim (row_named provider username w.sources) [
          | none ↦ (err source_not_found, w)
          | some s ↦ (ok (Sources.joined w s), w)
        ] in
      Ensures-statement TablesAre keeps (IsRow provider username) select (λ w i.
        elim (Option-cases (row_named provider username w.sources)) [
          | inl nothing ↦ rw nothing (i, λ a same. absurd (cc))
          | inr (s, row) ↦ rw row (
              Ensures-pure TablesAre (IsRow provider username) (Sources.joined w s)
                (ap (row_named provider username) (sym i.1) ∙ row) w i)
        ])
