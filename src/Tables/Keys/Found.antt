-- ===== src/Tables/Keys/Found.antt =====
-- What `Search` finds by a source and a type: keys of that source and type only, so that no other
-- key has the identifier of one of them.
use sshark_api.Base.{
  ℕ, Bool, false, not, none, some, List, [], ◌∷◌, ◌==◌, ◌≡◌, refl, sym, subst, any, keep, All,
  arith, Bool-cases, inl, inr, ==_iff,
}
use sshark_api.Store.{KeyType, PublicKey, Env, World}
use sshark_api.Store.Frame.{Ensures}
use sshark_api.Tables.Keys
use sshark_api.Tables.Keys.{SearchFilter, SearchResult}
use sshark_api.Tables.Keys.Scanned.{search-All}
use sshark_api.Tables.Keys.Frame.{is_other, OthersAre, IsOwn}

-- The identifiers of the rows are different, as the primary key makes them.
abbrev pub Distinct : List PublicKey → Type 0
Distinct [] = Unit {0}
Distinct (k ∷ rows) = (any (λ j. j.id == k.id) rows ≡ false) × Distinct rows

All-both :
    {P Q R : PublicKey → Type 0} (rows : List PublicKey)
    → ((k : PublicKey) → P k → Q k → R k)
    → All P rows
    → All Q rows
    → All R rows
All-both [] f p q = tt
All-both (k ∷ rows) f p q = (f k p.0 q.0, All-both rows f p.1 q.1)

id-own_metadata : (k : PublicKey) → (Keys.own_metadata k).id ≡ k.id
id-own_metadata k = ground arith

module _ (source : ℕ) (type : KeyType) where
  abbrev pub filter_of : SearchFilter
  filter_of = record { source_id = some source; key_type = some type; algorithm = none }

  any-keep :
      (p q : PublicKey → Bool) (rows : List PublicKey)
      → any p rows ≡ false
      → any p (keep q rows) ≡ false
  any-keep p q [] h = refl
  any-keep p q (k ∷ rows) h = ground (arith, any-keep p q rows)

  -- A key that passes the filter is not another.
  pub passes-own : (k : PublicKey) → Keys.passes filter_of k ≡ not (is_other source type k)
  unfolding Keys.passes
  passes-own k = ground arith

  -- An identifier that no row has is not that of a row.
  apart :
      (k : PublicKey) (p : PublicKey → Bool) (rows : List PublicKey)
      → any (λ j. j.id == k.id) rows ≡ false
      → All (λ j. (k.id == j.id) ≡ false) (keep p rows)
  apart k p [] h = tt
  apart k p (j ∷ rows) h =
      let here : (k.id == j.id) ≡ false = ground (arith, ==_iff j.id k.id, ==_iff k.id j.id) in
      let there : any (λ j. j.id == k.id) rows ≡ false = ground arith in
      elim (Bool-cases (p j)) [
        | inl e ↦ rw e (here, apart k p rows there)
        | inr e ↦ rw e (apart k p rows there)
      ]

  pub passing-IsOwn :
      (rows : List PublicKey)
      → Distinct rows
      → All (λ k. IsOwn k.id (keep (is_other source type) rows)) (keep (Keys.passes filter_of) rows)
  passing-IsOwn [] d = tt
  passing-IsOwn (k ∷ rows) d = elim (Bool-cases (is_other source type k)) [
    | inl e ↦
        rw (passes-own k, e)
          (All-both (keep (Keys.passes filter_of) rows)
            (λ j (differ : (k.id == j.id) ≡ false)
                (own : IsOwn j.id (keep (is_other source type) rows)).
              rw (differ, own) refl)
            (apart k (Keys.passes filter_of) rows d.0) (passing-IsOwn rows d.1))
    | inr e ↦
        rw (passes-own k, e)
          (any-keep (λ j. j.id == k.id) (is_other source type) rows d.0, passing-IsOwn rows d.1)
  ]

  module _ (others : List PublicKey) where
    -- Also the keys that the search selects are none of the others.
    abbrev pub OwnRows : World → Type 0
    OwnRows w =
        OthersAre source type others w
        × All (λ k. IsOwn k.id others) (keep (Keys.passes filter_of) w.public_keys)

    abbrev Owns : PublicKey → Type 0
    Owns k = IsOwn k.id others

    abbrev keeps : (w : World) (e : Env) → OwnRows w → OwnRows (record w { env = e })
    keeps w e i = i

    -- The keys that the search finds are none of the others.
    pub search-IsOwn :
        (limit offset : ℕ)
        → Ensures OwnRows (λ r. All Owns r.entities) (Keys.search filter_of limit offset)
    search-IsOwn limit offset =
        search-All OwnRows keeps Owns Owns
          (λ k own. subst (λ id. IsOwn id others) (sym (id-own_metadata k)) own) filter_of limit
          offset (λ w i. i.1)
