-- ===== src/KeyOps/Owners.antt =====
-- Which sources a profile owns once its ownership was rebuilt.
pub mod Rebuild
use sshark_api.Base.{
  ℕ, Bool, true, false, ◌&&◌, none, some, List, [], ◌∷◌, ◌==◌, ◌≡◌, inl, inr, refl, sym, ap, ◌∙◌,
  subst, arith, any, find, All, Bool-cases, Option-cases, ==_iff,
}
use sshark_api.Base.Text.{Text, text_eq, text_eq_iff}
use sshark_api.Store.{
  Source, Profile, Env, Error, source_not_found, World, M, Result, ok, err, fail, statement, tick,
  bind-ok, bind-err, ◌>>=◌, ◌>>◌,
}
use sshark_api.Store.Frame.{Maintains, Result-cases}
use sshark_api.Tables.Sources
use sshark_api.Tables.Profiles
use sshark_api.Tables.Sources.{Joined}
use sshark_api.Identity.{Account}
use sshark_api.KeyOps.{own_sources, sync_ownership}

-- One of the accounts has the source's provider and user name.
abbrev pub IsHeld : List Account → Source → Type 0
IsHeld list s =
    any (λ a. text_eq s.provider a.provider && text_eq s.username a.username) list ≡ true

-- The identifiers of the sources are different, as the primary key makes them.
abbrev pub DistinctSources : List Source → Type 0
DistinctSources [] = Unit {0}
DistinctSources (s ∷ rows) = (any (λ r. r.id == s.id) rows ≡ false) × DistinctSources rows

module _ (profile : ℕ) (list : List Account) where
  -- What the profile owns is held by one of the accounts.
  abbrev pub OwnsHeldOnly : List Source → Type 0
  OwnsHeldOnly rows = All (λ s. s.profile_id ≡ some profile → IsHeld list s) rows

  -- The sources with the identifier are held.
  abbrev pub IsSafe : ℕ → List Source → Type 0
  IsSafe id rows = All (λ s. s.id ≡ id → IsHeld list s) rows

  pub set_profile-OwnsHeldOnly :
      (id now : ℕ) (rows : List Source)
      → IsSafe id rows
      → OwnsHeldOnly rows
      → OwnsHeldOnly (
          Sources.update_where
            (λ s. s.id == id)
            (λ s. record s { profile_id = some profile; updated_at = now })
            rows)
  set_profile-OwnsHeldOnly id now [] safe held = tt
  set_profile-OwnsHeldOnly id now (s ∷ rows) safe held =
      let rest = set_profile-OwnsHeldOnly id now rows safe.1 held.1 in
      elim (Bool-cases (s.id == id)) [
        | inl e ↦ rw e ((λ o. safe.0 ((==_iff s.id id).0 e)), rest)
        | inr e ↦ rw e (held.0, rest)
      ]

  set_profile-IsSafe :
      (id k now : ℕ) (rows : List Source)
      → IsSafe k rows
      → IsSafe k (
          Sources.update_where
            (λ s. s.id == id)
            (λ s. record s { profile_id = some profile; updated_at = now })
            rows)
  set_profile-IsSafe id k now [] safe = tt
  set_profile-IsSafe id k now (s ∷ rows) safe =
      let rest = set_profile-IsSafe id k now rows safe.1 in
      elim (Bool-cases (s.id == id)) [ inl e ↦ rw e (safe.0, rest) | inr e ↦ rw e (safe.0, rest) ]

  pub set_profile-Distinct :
      (id now : ℕ) (rows : List Source)
      → DistinctSources rows
      → DistinctSources (
          Sources.update_where
            (λ s. s.id == id)
            (λ s. record s { profile_id = some profile; updated_at = now })
            rows)
  set_profile-Distinct id now [] d = tt
  set_profile-Distinct id now (s ∷ rows) d = elim (Bool-cases (s.id == id)) [
    | inl e ↦ rw e (rw (any_same s.id rows) d.0, set_profile-Distinct id now rows d.1)
    | inr e ↦ rw e (rw (any_same s.id rows) d.0, set_profile-Distinct id now rows d.1)
  ]
    where
      any_same :
          (k : ℕ) (rows : List Source)
          → any
              (λ r. r.id == k)
              (Sources.update_where
                (λ s. s.id == id)
                (λ s. record s { profile_id = some profile; updated_at = now })
                rows)
            ≡ any (λ r. r.id == k) rows
      any_same k [] = refl
      any_same k (r ∷ rows) = ground (arith, any_same k rows)

  pub clear-OwnsHeldOnly :
      (now : ℕ) (rows : List Source)
      → OwnsHeldOnly (
          Sources.update_where
            (Sources.is_owned_by profile)
            (λ s. record s { profile_id = none; updated_at = now })
            rows)
  clear-OwnsHeldOnly now [] = tt
  clear-OwnsHeldOnly now (s ∷ rows) = elim (Bool-cases (Sources.is_owned_by profile s)) [
    | inl e ↦ rw e ((λ o. absurd (cc)), clear-OwnsHeldOnly now rows)
    | inr e ↦
        rw e ((λ o. absurd (ground (arith, ==_iff profile profile))), clear-OwnsHeldOnly now rows)
  ]

  -- The account is in the list, up to its user.
  abbrev pub IsListed : Account → Type 0
  IsListed a = any (λ b. text_eq a.provider b.provider && text_eq a.username b.username) list ≡ true

  found_id :
      (p : Source → Bool) (rows : List Source) (s : Source)
      → find p rows ≡ some s
      → any (λ r. r.id == s.id) rows ≡ true
  found_id p [] s found = absurd (cc)
  found_id p (r ∷ rows) s found = elim (Bool-cases (p r)) [
    | inl e ↦
        let same : some r ≡ some s = rw e at found in
        let this : r ≡ s = cc in
        subst (λ s. any (λ r. r.id == s.id) (r ∷ rows) ≡ true) this
          (rw ((==_iff r.id r.id).1 refl) refl)
    | inr e ↦ let later = found_id p rows s (rw e at found) in ground (arith, later)
  ]

  none-IsSafe : (k : ℕ) (rows : List Source) → any (λ r. r.id == k) rows ≡ false → IsSafe k rows
  none-IsSafe k [] h = tt
  none-IsSafe k (r ∷ rows) h =
      ((λ same. absurd (ground (arith, ==_iff r.id k))), none-IsSafe k rows (ground arith))

  pub found-IsSafe :
      (a : Account) (rows : List Source) (s : Source)
      → IsListed a
      → DistinctSources rows
      → find (λ s. text_eq s.provider a.provider && text_eq s.username a.username) rows ≡ some s
      → IsSafe s.id rows
  found-IsSafe a [] s listed d found = tt
  found-IsSafe a (r ∷ rows) s listed d found =
      elim (Bool-cases (text_eq r.provider a.provider && text_eq r.username a.username)) [
        | inl e ↦
            let same : some r ≡ some s = rw e at found in
            let this : r ≡ s = cc in
            let provider : r.provider ≡ a.provider =
              ground (arith, text_eq_iff r.provider a.provider) in
            let username : r.username ≡ a.username =
              ground (arith, text_eq_iff r.username a.username) in
            subst (λ s. IsSafe s.id (r ∷ rows)) this
              ((λ _. rw (provider, username) listed), none-IsSafe r.id rows d.0)
        | inr e ↦
            let later = rw e at found in
            let there =
              found_id (λ s. text_eq s.provider a.provider && text_eq s.username a.username) rows s
                later in
            let other : r.id ≡ s.id → ⊥ = λ same.
              let unused : any (λ x. x.id == s.id) rows ≡ false =
                subst (λ k. any (λ x. x.id == k) rows ≡ false) same d.0 in
              cc in
            ((λ same. absurd (other same)), found-IsSafe a rows s listed d.1 later)
      ]
