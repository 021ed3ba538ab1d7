-- ===== src/Scraper/Sync/Owned.antt =====
-- The map of `syncKeys` (internal/infra/scraper/service.go) holds none of the other keys.
use sshark_api.Base.{some, List, [], ◌∷◌, ◌≡◌, subst, All, Bool-cases, inl, inr}
use sshark_api.Base.Text.{Text, text_eq, is_empty}
use sshark_api.Store.{PublicKey}
use sshark_api.Tables.Keys.Frame.{IsOwn}
use sshark_api.Scraper.Sync.{KeyMap, lookup, insert, by_fingerprint}

module _ (others : List PublicKey) where
  abbrev pub Owns : PublicKey → Type 0
  Owns k = IsOwn k.id others

  abbrev pub OwnMap : KeyMap → Type 0
  OwnMap m = All (λ e. Owns e.1) m

  pub lookup-OwnMap :
      (f : Text) (m : KeyMap) (k : PublicKey) → OwnMap m → lookup f m ≡ some k → Owns k
  lookup-OwnMap f [] k own h = absurd (cc)
  lookup-OwnMap f ((g, j) ∷ m) k own h = elim (Bool-cases (text_eq g f)) [
    | inl hit ↦ let same : j ≡ k = cc in subst Owns same own.0
    | inr miss ↦ lookup-OwnMap f m k own.1 (rw miss at h)
  ]

  pub insert-OwnMap :
      (f : Text) (k : PublicKey) (m : KeyMap) → Owns k → OwnMap m → OwnMap (insert f k m)
  insert-OwnMap f k [] own h = (own, tt)
  insert-OwnMap f k ((g, j) ∷ m) own h = elim (Bool-cases (text_eq g f)) [
    | inl hit ↦ rw hit (own, h.1)
    | inr miss ↦ rw miss (h.0, insert-OwnMap f k m own h.1)
  ]

  pub by_fingerprint-OwnMap :
      (ks : List PublicKey) (m : KeyMap) → All Owns ks → OwnMap m → OwnMap (by_fingerprint ks m)
  unfolding by_fingerprint
  by_fingerprint-OwnMap [] m owns h = h
  by_fingerprint-OwnMap (k ∷ ks) m owns h = elim (Bool-cases (is_empty k.fingerprint)) [
    | inl e ↦ rw e (by_fingerprint-OwnMap ks m owns.1 h)
    | inr e ↦ rw e (
        by_fingerprint-OwnMap ks (insert k.fingerprint k m) owns.1
          (insert-OwnMap k.fingerprint k m owns.0 h))
  ]
