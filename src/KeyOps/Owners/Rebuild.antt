-- ===== src/KeyOps/Owners/Rebuild.antt =====
-- Rebuilding the ownership of sources, statement by statement.
use sshark_api.Base.{
  ℕ, ◌&&◌, none, some, List, [], ◌∷◌, ◌==◌, ◌≡◌, inl, inr, refl, sym, ap, ◌∙◌, subst, arith, any,
  find, All, Bool-cases, Option-cases,
}
use sshark_api.Base.Text.{Text, text_eq, text_eq_iff}
use sshark_api.Store.{
  Source, Profile, Env, Error, source_not_found, World, M, Result, ok, err, fail, statement, tick,
  bind-ok, bind-err, ◌>>=◌, ◌>>◌,
}
use sshark_api.Store.Frame.{Maintains, Result-cases}
use sshark_api.Tables.Sources
use sshark_api.Tables.Profiles
use sshark_api.Tables.Sources.{Joined}
use sshark_api.Identity.{Account}
use sshark_api.KeyOps.{own_sources, sync_ownership}
use sshark_api.KeyOps.Owners.{
  DistinctSources, IsSafe, IsListed, OwnsHeldOnly, set_profile-OwnsHeldOnly, set_profile-Distinct,
  found-IsSafe, clear-OwnsHeldOnly,
}

module _ (profile : ℕ) (list : List Account) where
  -- What the sources keep once the profile has none.
  abbrev Held : World → Type 0
  Held w = OwnsHeldOnly profile list w.sources × DistinctSources w.sources

  keeps : (w : World) (e : Env) → Held w → Held (record w { env = e })
  keeps w e i = i

  Maintains-set_profile :
      (id : ℕ) (w : World)
      → IsSafe profile list id w.sources
      → Held w
      → Held (Sources.set_profile id profile w).1
  unfolding Sources.set_profile statement
  Maintains-set_profile id w safe i = elim (Bool-cases (w.env.faults w.env.statement)) [
    | inl e ↦ rw e i
    | inr e ↦ rw e (
      set_profile-OwnsHeldOnly profile list id w.env.now w.sources safe i.0,
      set_profile-Distinct profile list id w.env.now w.sources i.1,
    )
  ]

  -- The row that a search by the account's names finds, if any; the sources stay.
  get_source :
      (a : Account) (w : World)
      → ((Sources.get_by_provider_and_username a.provider a.username w).1.sources ≡ w.sources)
        × ((j : Joined)
            → (Sources.get_by_provider_and_username a.provider a.username w).0 ≡ ok j
            → find (λ s. text_eq s.provider a.provider && text_eq s.username a.username) w.sources
              ≡ some j.source)
  unfolding Sources.get_by_provider_and_username statement
  get_source a w = elim (Bool-cases (w.env.faults w.env.statement)) [
    | inl e ↦ rw e (refl, λ j h. absurd (cc))
    | inr e ↦
        rw e
          (elim (Option-cases (
            find (λ s. text_eq s.provider a.provider && text_eq s.username a.username) w.sources)) [
              | inl nothing ↦ rw nothing (refl, λ j h. absurd (cc))
              | inr (s, row) ↦ rw row (
                refl,
                λ j h.
                    let this : Sources.joined (tick w) s ≡ j = cc in ap (λ j. some j.source) this,
              )
            ])
  ]

  Maintains-own_sources :
      (accounts : List Account)
      → All (IsListed profile list) accounts
      → Maintains Held (own_sources profile accounts)
  unfolding own_sources
  Maintains-own_sources [] listed = λ w i. i
  Maintains-own_sources (a ∷ rest) listed =
      let get : M Joined = Sources.get_by_provider_and_username a.provider a.username in
      let refuse : Error → M (Unit {0}) = λ e. elim e [
        | source_not_found ↦ own_sources profile rest
        | other_error ↦ fail other_error
      ] in
      let set : Joined → M (Unit {0}) =
        λ j. Sources.set_profile j.source.id profile >> own_sources profile rest in
      let after : Result Joined → M (Unit {0}) =
        λ found. elim found [ ok joined ↦ set joined | err e ↦ refuse e ] in
      λ w i.
        let w1 : World = (get w).1 in
        let (same, row) = get_source a w in
        let held : Held w1 =
          subst (λ rows. OwnsHeldOnly profile list rows × DistinctSources rows) (sym same) i in
        let Known : Result Joined → Type 0 = λ r.
          (j : Joined)
          → r ≡ ok j
          → find (λ s. text_eq s.provider a.provider && text_eq s.username a.username) w.sources
            ≡ some j.source in
        (elim ((get w).0) as (λ r. Known r → Held (after r w1).1) [
          | err e ↦ λ known. (elim e as (λ e. Held (refuse e w1).1) [
            | source_not_found ↦ Maintains-own_sources rest listed.1 w1 held
            | other_error ↦ held
          ])
          | ok j ↦ λ known.
              let safe : IsSafe profile list j.source.id w1.sources =
                subst (λ rows. IsSafe profile list j.source.id rows) (sym same)
                  (found-IsSafe profile list a w.sources j.source listed.0 i.1 (known j refl)) in
              let set_held = Maintains-set_profile j.source.id w1 safe held in
              elim (Result-cases (Sources.set_profile j.source.id profile w1).0) [
                | inl (u, e) ↦
                    subst (λ r. Held r.1)
                      (sym (
                        bind-ok (Sources.set_profile j.source.id profile)
                          (λ u. own_sources profile rest) w1 e))
                      (Maintains-own_sources rest listed.1
                        (Sources.set_profile j.source.id profile w1).1 set_held)
                | inr (e, failed) ↦
                    subst (λ r. Held r.1)
                      (sym (
                        bind-err (Sources.set_profile j.source.id profile)
                          (λ u. own_sources profile rest) w1 failed))
                      set_held
              ]
        ])
          row

  clear-Distinct :
      (now : ℕ) (rows : List Source)
      → DistinctSources rows
      → DistinctSources (
          Sources.update_where
            (Sources.is_owned_by profile)
            (λ s. record s { profile_id = none; updated_at = now })
            rows)
  clear-Distinct now [] d = tt
  clear-Distinct now (s ∷ rows) d = elim (Bool-cases (Sources.is_owned_by profile s)) [
    | inl e ↦ rw e (rw (any_same s.id rows) d.0, clear-Distinct now rows d.1)
    | inr e ↦ rw e (rw (any_same s.id rows) d.0, clear-Distinct now rows d.1)
  ]
    where
      any_same :
          (k : ℕ) (rows : List Source)
          → any
              (λ r. r.id == k)
              (Sources.update_where
                (Sources.is_owned_by profile)
                (λ s. record s { profile_id = none; updated_at = now })
                rows)
            ≡ any (λ r. r.id == k) rows
      any_same k [] = refl
      any_same k (r ∷ rows) = elim (Bool-cases (Sources.is_owned_by profile r)) [
        | inl e ↦ rw (e, any_same k rows) refl
        | inr e ↦ rw (e, any_same k rows) refl
      ]

  clear-Held :
      (w : World) (u : Unit {0})
      → DistinctSources w.sources
      → (Sources.clear_profile profile w).0 ≡ ok u
      → Held (Sources.clear_profile profile w).1
  unfolding Sources.clear_profile statement
  clear-Held w u d h = elim (Bool-cases (w.env.faults w.env.statement)) [
    | inl e ↦ absurd (ground arith)
    | inr e ↦
        rw e (
          clear-OwnsHeldOnly profile list w.env.now w.sources,
          clear-Distinct w.env.now w.sources d,
        )
  ]

All-more :
    (profile : ℕ) (a : Account) (list items : List Account)
    → All (IsListed profile list) items
    → All (IsListed profile (a ∷ list)) items
All-more profile a list [] h = tt
All-more profile a list (b ∷ items) h = (ground arith, All-more profile a list items h.1)

All-IsListed : (profile : ℕ) (list : List Account) → All (IsListed profile list) list
All-IsListed profile [] = tt
All-IsListed profile (a ∷ list) = (
  ground (arith, text_eq_iff a.provider a.provider, text_eq_iff a.username a.username),
  All-more profile a list list (All-IsListed profile list),
)

get_profile :
    (subject : Text) (w : World) → (Profiles.get_by_clerk_user_id subject w).1.sources ≡ w.sources
unfolding Profiles.get_by_clerk_user_id
get_profile subject w = ground arith

get_profile-find :
    (subject : Text) (w : World) (p : Profile)
    → (Profiles.get_by_clerk_user_id subject w).0 ≡ ok p
    → find (λ p. text_eq p.clerk_user_id subject) w.profiles ≡ some p
unfolding Profiles.get_by_clerk_user_id
get_profile-find subject w p h =
    elim (Option-cases (find (λ p. text_eq p.clerk_user_id subject) w.profiles)) [
      | inl nothing ↦ absurd (ground arith)
      | inr (q, row) ↦ ground arith
    ]

-- Once the ownership of a user's sources was rebuilt without an error, the profile of the user owns
-- only sources that one of the accounts holds: what it owned before and no account holds now is given
-- back. The identifiers of the sources are different.
pub sync_ownership-OwnsHeldOnly :
    (subject : Text) (list : List Account) (w : World)
    → DistinctSources w.sources
    → (sync_ownership subject list w).0 ≡ ok tt
    → (p : Profile) × (find (λ p. text_eq p.clerk_user_id subject) w.profiles ≡ some p)
      × OwnsHeldOnly p.id list (sync_ownership subject list w).1.sources
unfolding sync_ownership
sync_ownership-OwnsHeldOnly subject list w distinct h =
    let get : M Profile = Profiles.get_by_clerk_user_id subject in
    let w1 : World = (get w).1 in
    let d1 : DistinctSources w1.sources =
      subst DistinctSources (sym (get_profile subject w)) distinct in
    let rest : Profile → M (Unit {0}) =
      λ p. Sources.clear_profile p.id >>= λ u. own_sources p.id list in
    elim (Result-cases (get w).0) [
      | inr (e, failed) ↦
          let ended : (get >>= rest) w ≡ (err e, w1) = bind-err get rest w failed in
          let same : ok tt ≡ err e = sym h ∙ ap (λ r. r.0) ended in absurd (cc)
      | inl (p, got) ↦
          let clear : M (Unit {0}) = Sources.clear_profile p.id in
          let own : Unit {0} → M (Unit {0}) = λ u. own_sources p.id list in
          let went : (get >>= rest) w ≡ (clear >>= own) w1 = bind-ok get rest w got in
          (
            p,
            get_profile-find subject w p got,
            elim (Result-cases (clear w1).0) [
              | inr (e, failed) ↦
                  let same : ok tt ≡ err e =
                    sym h ∙ ap (λ r. r.0) (went ∙ bind-err clear own w1 failed) in
                  absurd (cc)
              | inl (u, cleared) ↦
                  subst (λ r. OwnsHeldOnly p.id list r.1.sources)
                    (sym (went ∙ bind-ok clear own w1 cleared))
                    (Maintains-own_sources p.id list list (All-IsListed p.id list) (clear w1).1
                      (clear-Held p.id list w1 u d1 cleared)).0
            ],
          )
    ]
