-- ===== src/Scraper/Sync/Index.antt =====
-- The map from fingerprints to stored keys in `syncKeys` of internal/infra/scraper/service.go.
use sshark_api.Base.{
  ℕ, Bool, true, false, not, ◌&&◌, some, List, [], ◌∷◌, ◌==◌, ◌≡◌, refl, sym, ◌∙◌, ap, subst, any,
  keep, arith, All, All-weaken, Bool-cases, inl, inr, ==_refl, and_elim,
}
use sshark_api.Base.Text.{Text, text_eq, text_eq_iff, text_eq_refl, is_empty}
use sshark_api.Store.{PublicKey}
use sshark_api.Scraper.{FetchedKey}
use sshark_api.Scraper.Sync.{KeyMap, lookup, insert, by_fingerprint, is_seen}

-- The map has the identifier under the fingerprint.
abbrev pub indexed : Text → ℕ → KeyMap → Bool
indexed f id m = any (λ e. text_eq e.0 f && e.1.id == id) m

-- A key of the fingerprint has the identifier.
abbrev pub Agrees : Text → ℕ → PublicKey → Type 0
Agrees f id k = text_eq k.fingerprint f ≡ true → (k.id == id) ≡ true

-- No two of the keys share a fingerprint.
abbrev pub OneEach : List PublicKey → Type 0
OneEach ks = All (λ k. All (Agrees k.fingerprint k.id) ks) ks

indexed-insert :
    (f : Text) (id : ℕ) (g : Text) (k : PublicKey) (m : KeyMap)
    → (text_eq g f ≡ true → (k.id == id) ≡ true)
    → indexed f id m ≡ true
    → indexed f id (insert g k m) ≡ true
indexed-insert f id g k ((h, j) ∷ m) agrees i = elim (Bool-cases (text_eq h g)) [
  | inl hit ↦
      let same : h ≡ g = (text_eq_iff h g).0 hit in
      rw (hit, sym same)
        (elim (Bool-cases (text_eq h f)) [
          | inl e ↦ let this : (k.id == id) ≡ true = agrees (rw (sym same) e) in rw (e, this) refl
          | inr e ↦ ground (arith)
        ])
  | inr miss ↦ rw miss (ground (arith, indexed-insert f id g k m agrees))
]
indexed-insert f id g k [] agrees i = absurd (cc)

insert-indexed : (g : Text) (k : PublicKey) (m : KeyMap) → indexed g k.id (insert g k m) ≡ true
insert-indexed g k [] = rw (text_eq_refl g, ==_refl k.id) refl
insert-indexed g k ((h, j) ∷ m) = elim (Bool-cases (text_eq h g)) [
  | inl hit ↦ rw (hit, text_eq_refl g, ==_refl k.id) refl
  | inr miss ↦ rw miss (ground (arith, insert-indexed g k m))
]

indexed-by_fingerprint :
    (f : Text) (id : ℕ) (ks : List PublicKey) (m : KeyMap)
    → All (Agrees f id) ks
    → indexed f id m ≡ true
    → indexed f id (by_fingerprint ks m) ≡ true
unfolding by_fingerprint
indexed-by_fingerprint f id [] m agree i = i
indexed-by_fingerprint f id (k ∷ ks) m agree i = elim (Bool-cases (is_empty k.fingerprint)) [
  | inl e ↦ rw e (indexed-by_fingerprint f id ks m agree.1 i)
  | inr e ↦ rw e (
      indexed-by_fingerprint f id ks (insert k.fingerprint k m) agree.1
        (indexed-insert f id k.fingerprint k m agree.0 i))
]

-- Every key is in the map under its fingerprint, if no two share one.
pub by_fingerprint-indexed :
    (ks : List PublicKey) (m : KeyMap)
    → All (λ k. is_empty k.fingerprint ≡ false) ks
    → OneEach ks
    → All (λ k. indexed k.fingerprint k.id (by_fingerprint ks m) ≡ true) ks
unfolding by_fingerprint
by_fingerprint-indexed [] m named one = tt
by_fingerprint-indexed (k ∷ ks) m named one =
    let m' : KeyMap = insert k.fingerprint k m in
    let step : by_fingerprint (k ∷ ks) m ≡ by_fingerprint ks m' = rw (named.0) refl in
    subst (λ r. All (λ k. indexed k.fingerprint k.id r ≡ true) (k ∷ ks)) (sym step)
      (
        indexed-by_fingerprint k.fingerprint k.id ks m' one.0.1 (insert-indexed k.fingerprint k m),
        by_fingerprint-indexed ks m' named.1 (All-weaken ks (λ j agree. agree.1) one.1),
      )

-- Every entry stands under its key's fingerprint.
abbrev pub Keyed : KeyMap → Type 0
Keyed m = All (λ e. e.1.fingerprint ≡ e.0) m

pub insert-Keyed :
    (f : Text) (k : PublicKey) (m : KeyMap) → k.fingerprint ≡ f → Keyed m → Keyed (insert f k m)
insert-Keyed f k [] same keyed = (same, tt)
insert-Keyed f k ((g, j) ∷ m) same keyed = elim (Bool-cases (text_eq g f)) [
  | inl hit ↦ rw hit (same, keyed.1)
  | inr miss ↦ rw miss (keyed.0, insert-Keyed f k m same keyed.1)
]

pub by_fingerprint-Keyed :
    (ks : List PublicKey) (m : KeyMap) → Keyed m → Keyed (by_fingerprint ks m)
unfolding by_fingerprint
by_fingerprint-Keyed [] m keyed = keyed
by_fingerprint-Keyed (k ∷ ks) m keyed = elim (Bool-cases (is_empty k.fingerprint)) [
  | inl e ↦ rw e (by_fingerprint-Keyed ks m keyed)
  | inr e ↦ rw e (
      by_fingerprint-Keyed ks (insert k.fingerprint k m)
        (insert-Keyed k.fingerprint k m refl keyed))
]

pub lookup-Keyed :
    (f : Text) (m : KeyMap) (k : PublicKey) → Keyed m → lookup f m ≡ some k → k.fingerprint ≡ f
lookup-Keyed f [] k keyed h = absurd (cc)
lookup-Keyed f ((g, j) ∷ m) k keyed h = elim (Bool-cases (text_eq g f)) [
  | inl hit ↦
      let found : j ≡ k = cc in
      ap (λ k. k.fingerprint) (sym found) ∙ keyed.0 ∙ (text_eq_iff g f).0 hit
  | inr miss ↦ lookup-Keyed f m k keyed.1 (rw miss at h)
]

-- The key is that of an entry.
abbrev pub has_id : ℕ → KeyMap → Bool
has_id id m = any (λ e. e.1.id == id) m

module _ (fetched : List FetchedKey) where
  -- The entries that were not fetched.
  abbrev pub unseen : KeyMap → KeyMap
  unseen m = keep (λ e. not (is_seen fetched e.0)) m

  pub indexed-unseen :
      (f : Text) (id : ℕ) (m : KeyMap)
      → is_seen fetched f ≡ false
      → indexed f id m ≡ true
      → has_id id (unseen m) ≡ true
  indexed-unseen f id [] missing i = absurd (cc)
  indexed-unseen f id ((g, k) ∷ m) missing i = elim (Bool-cases (text_eq g f && k.id == id)) [
    | inl hit ↦
        let (same, is_id) = and_elim (text_eq g f) (k.id == id) hit in
        let gone : is_seen fetched g ≡ false =
          ap (is_seen fetched) ((text_eq_iff g f).0 same) ∙ missing in
        rw (gone, is_id) refl
    | inr miss ↦
        let later : has_id id (unseen m) ≡ true = indexed-unseen f id m missing (rw miss at i) in
        elim (Bool-cases (is_seen fetched g)) [ inl e ↦ rw e later | inr e ↦ rw e (ground (arith)) ]
  ]

  pub unseen-insert :
      (f : Text) (k : PublicKey) (m : KeyMap)
      → is_seen fetched f ≡ true
      → unseen (insert f k m) ≡ unseen m
  unseen-insert f k [] seen = rw seen refl
  unseen-insert f k ((g, j) ∷ m) seen = elim (Bool-cases (text_eq g f)) [
    | inl hit ↦
        let also : is_seen fetched g ≡ true =
          ap (is_seen fetched) ((text_eq_iff g f).0 hit) ∙ seen in
        rw (hit, seen, also) refl
    | inr miss ↦ rw (miss, unseen-insert f k m seen) refl
  ]
