-- ===== src/Tables/Keys/Pages.antt =====
-- What holds of every row of a table still holds of every row of a page of it.
use sshark_api.Base.{
  ℕ, zero, suc, Bool, true, List, [], ◌∷◌, ◌≡◌, keep, drop, All, All-take, descending,
  insert_descending, ltb, Bool-cases, inl, inr, length, ◌≤◌, arith, length-take, ◌⊎◌, refl, ap,
  take, ◌∙◌, All-weaken,
}
use sshark_api.Store.{PublicKey}
use sshark_api.Tables.Keys

-- The item stands in the list.
abbrev pub Member : PublicKey → List PublicKey → Type 0
Member k [] = ⊥
Member k (j ∷ rows) = (j ≡ k) ⊎ Member k rows

module _ (P : PublicKey → Type 0) where
  pub All-drop : (n : ℕ) (rows : List PublicKey) → All P rows → All P (drop n rows)
  All-drop zero rows h = h
  All-drop (suc n) [] h = tt
  All-drop (suc n) (k ∷ rows) h = All-drop n rows h.1

  All-insert_descending :
      (column : PublicKey → ℕ) (k : PublicKey) (rows : List PublicKey)
      → P k
      → All P rows
      → All P (insert_descending column k rows)
  unfolding insert_descending
  All-insert_descending column k [] p h = (p, tt)
  All-insert_descending column k (j ∷ rows) p h = elim (Bool-cases (ltb (column k) (column j))) [
    | inl e ↦ rw e (h.0, All-insert_descending column k rows p h.1)
    | inr e ↦ rw e (p, h)
  ]

  pub All-descending :
      (column : PublicKey → ℕ) (rows : List PublicKey) → All P rows → All P (descending column rows)
  unfolding descending
  All-descending column [] h = tt
  All-descending column (k ∷ rows) h =
      All-insert_descending column k (descending column rows) h.0 (All-descending column rows h.1)

  pub All-page :
      (limit offset : ℕ) (rows : List PublicKey) → All P rows → All P (Keys.page limit offset rows)
  All-page limit offset rows h =
      All-take P limit (drop offset (descending (λ k. k.created_at) rows)) (
        All-drop offset (descending (λ k. k.created_at) rows)
          (All-descending (λ k. k.created_at) rows h))

pub length-page :
    (limit offset : ℕ) (rows : List PublicKey) → length (Keys.page limit offset rows) ≤ limit
length-page limit offset rows =
    omega (arith, length-take limit (drop offset (descending (λ k. k.created_at) rows)))

-- The rows that are kept pass the test and stand in the table.
pub All-keep :
    (p : PublicKey → Bool) (rows : List PublicKey)
    → All (λ k. Member k rows × (p k ≡ true)) (keep p rows)
All-keep p [] = tt
All-keep p (k ∷ rows) = elim (Bool-cases (p k)) [
  | inl e ↦ rw e ((inl refl, e), All-weaken (keep p rows) (λ j h. (inr h.0, h.1)) (All-keep p rows))
  | inr e ↦ rw e (All-weaken (keep p rows) (λ j h. (inr h.0, h.1)) (All-keep p rows))
]

-- A page that has room for every row shows every row.
module _ (P : PublicKey → Type 0) where
  All-insert_descending-back :
      (column : PublicKey → ℕ) (k : PublicKey) (rows : List PublicKey)
      → All P (insert_descending column k rows)
      → P k × All P rows
  unfolding insert_descending
  All-insert_descending-back column k [] h = h
  All-insert_descending-back column k (j ∷ rows) h = elim (Bool-cases (ltb (column k) (column j))) [
    | inl e ↦
        let h' : P j × All P (insert_descending column k rows) = rw e at h in
        let (p, hs) = All-insert_descending-back column k rows h'.1 in (p, (h'.0, hs))
    | inr e ↦ let h' : P k × (P j × All P rows) = rw e at h in h'
  ]

  All-descending-back :
      (column : PublicKey → ℕ) (rows : List PublicKey) → All P (descending column rows) → All P rows
  unfolding descending
  All-descending-back column [] h = tt
  All-descending-back column (k ∷ rows) h =
      let (p, hs) = All-insert_descending-back column k (descending column rows) h in
      (p, All-descending-back column rows hs)

  All-take-back :
      (n : ℕ) (rows : List PublicKey) → length rows ≤ n → All P (take n rows) → All P rows
  All-take-back n [] small h = tt
  All-take-back zero (k ∷ rows) small h = absurd (omega (arith, small))
  All-take-back (suc n) (k ∷ rows) small h = (h.0, All-take-back n rows (omega (arith, small)) h.1)

length-insert_descending :
    (column : PublicKey → ℕ) (k : PublicKey) (rows : List PublicKey)
    → length (insert_descending column k rows) ≡ suc (length rows)
unfolding insert_descending
length-insert_descending column k [] = refl
length-insert_descending column k (j ∷ rows) =
    ground (arith, length-insert_descending column k rows)

length-descending :
    (column : PublicKey → ℕ) (rows : List PublicKey) → length (descending column rows) ≡ length rows
unfolding descending
length-descending column [] = refl
length-descending column (k ∷ rows) =
    length-insert_descending column k (descending column rows)
    ∙ ap suc (length-descending column rows)

pub All-page-back :
    (P : PublicKey → Type 0) (limit : ℕ) (rows : List PublicKey)
    → length rows ≤ limit
    → All P (Keys.page limit 0 rows)
    → All P rows
All-page-back P limit rows small h =
    let sorted : List PublicKey = descending (λ k. k.created_at) rows in
    let fits : length sorted ≤ limit =
      omega (arith, small, length-descending (λ k. k.created_at) rows) in
    All-descending-back P (λ k. k.created_at) rows (All-take-back P limit sorted fits h)
