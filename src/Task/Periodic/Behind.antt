-- ===== src/Task/Periodic/Behind.antt =====
-- The profiles that the walk of the periodic refresh has not come to.
use sshark_api.Base.{
  ℕ, ◌≤◌, ◌<◌, List, [], ◌∷◌, ◌≡◌, ◌⊎◌, inl, inr, refl, arith, ltb, keep, length, All, Bool-cases,
}
use sshark_api.Store.{Profile}

-- The profiles behind an identifier.
abbrev pub behind : ℕ → List Profile → ℕ
behind after ps = length (keep (λ p. ltb after p.id) ps)

-- A profile of the list, behind the identifier.
abbrev pub IsBehind : ℕ → List Profile → Profile → Type 0
IsBehind after [] q = ⊥
IsBehind after (p ∷ ps) q = ((p.id ≡ q.id) × (after < p.id)) ⊎ IsBehind after ps q

behind_mono : (after id : ℕ) (ps : List Profile) → after ≤ id → behind id ps ≤ behind after ps
behind_mono after id [] h = omega arith
behind_mono after id (p ∷ ps) h = ground (arith, behind_mono after id ps)

later : (after : ℕ) (ps : List Profile) (q : Profile) → IsBehind after ps q → after < q.id
later after [] q h = absurd h
later after (p ∷ ps) q (inl (same, behind_it)) = omega (arith, same, behind_it)
later after (p ∷ ps) q (inr h) = later after ps q h

-- Going on behind one of them leaves fewer.
pub behind_less :
    (after : ℕ) (ps : List Profile) (q : Profile)
    → IsBehind after ps q
    → behind q.id ps < behind after ps
behind_less after [] q h = absurd h
behind_less after (p ∷ ps) q (inl (same, behind_it)) = ground (arith, behind_mono after q.id ps)
behind_less after (p ∷ ps) q (inr h) = ground (arith, behind_less after ps q h, later after ps q h)

All-later :
    (after : ℕ) (p : Profile) (ps qs : List Profile)
    → All (IsBehind after ps) qs
    → All (IsBehind after (p ∷ ps)) qs
All-later after p ps [] h = tt
All-later after p ps (q ∷ qs) h = (inr h.0, All-later after p ps qs h.1)

pub keep-IsBehind :
    (after : ℕ) (ps : List Profile) → All (IsBehind after ps) (keep (λ p. ltb after p.id) ps)
keep-IsBehind after [] = tt
keep-IsBehind after (p ∷ ps) =
    let rest = All-later after p ps (keep (λ p. ltb after p.id) ps) (keep-IsBehind after ps) in
    elim (Bool-cases (ltb after p.id)) [
      | inl e ↦ rw e (inl (refl, ground arith), rest)
      | inr e ↦ rw e rest
    ]

pub behind-length : (after : ℕ) (ps : List Profile) → behind after ps ≤ length ps
behind-length after [] = omega arith
behind-length after (p ∷ ps) = ground (arith, behind-length after ps)
