-- ===== src/Tables/Keys/Columns.antt =====
-- `ListBySourceID` selects seven columns for the eight destinations that `scanPublicKeys` passes.
use sshark_api.Base.{
  ℕ, ◌+◌, Bool, true, false, ◌&&◌, List, [], ◌∷◌, ◌==◌, ◌≡◌, inl, inr, refl, ap, ◌∙◌, any, keep,
  descending, insert_descending, ltb, Bool-cases,
}
use sshark_api.Store.{KeyType, PublicKey, World, Result, ok, err, other, tick, next_row, statement}
use sshark_api.Tables.Keys.Reliable.{then_runs}
use sshark_api.Tables.Keys

abbrev pub is_of : ℕ → KeyType → PublicKey → Bool
is_of source type k = k.source_id == source && Keys.key_type_eq k.key_type type

abbrev is_empty_list : List PublicKey → Bool
is_empty_list [] = true
is_empty_list (_ ∷ _) = false

descending-not_empty :
    (column : PublicKey → ℕ) (rows : List PublicKey)
    → is_empty_list (descending column rows) ≡ is_empty_list rows
unfolding descending
descending-not_empty column [] = refl
descending-not_empty column (k ∷ rows) = inserted (descending column rows)
  where
    inserted : (sorted : List PublicKey) → is_empty_list (insert_descending column k sorted) ≡ false
    inserted [] = unfold insert_descending in refl
    inserted (j ∷ sorted) =
        unfold insert_descending in
        elim (Bool-cases (ltb (column k) (column j))) [ inl e ↦ rw e refl | inr e ↦ rw e refl ]

keep-not_empty :
    (p : PublicKey → Bool) (rows : List PublicKey)
    → any p rows ≡ true
    → is_empty_list (keep p rows) ≡ false
keep-not_empty p [] found = absurd (cc)
keep-not_empty p (k ∷ rows) found = elim (Bool-cases (p k)) [
  | inl e ↦ rw e refl
  | inr e ↦ rw e (keep-not_empty p rows (rw e at found))
]

refuses :
    (rows : List PublicKey) (w : World)
    → w.env.faults w.env.statement ≡ false
    → is_empty_list rows ≡ false
    → (Keys.scan_public_keys 7 rows w).0 ≡ err other
unfolding Keys.scan_public_keys next_row
refuses [] w reads some_row = absurd (cc)
refuses (k ∷ rows) w reads some_row = rw reads refl

-- `ListBySourceID` never returns a key: if the source has a key of the type, the query itself runs,
-- and its first row is read, the call ends with an error that is none of the domain's.
pub list_by_source_id_lem :
    (source : ℕ) (type : KeyType) (w : World)
    → w.env.faults w.env.statement ≡ false
    → w.env.faults (w.env.statement + 1) ≡ false
    → any (is_of source type) w.public_keys ≡ true
    → (Keys.list_by_source_id source type w).0 ≡ err other
unfolding Keys.list_by_source_id statement
list_by_source_id_lem source type w runs reads found =
    let kept : List PublicKey = keep (is_of source type) w.public_keys in
    let rows : List PublicKey = descending (λ k. k.created_at) kept in
    let some_row : is_empty_list rows ≡ false =
      rw (descending-not_empty (λ k. k.created_at) kept)
        (keep-not_empty (is_of source type) w.public_keys found) in
    let select : World → Result (List PublicKey) × World =
      λ w. (ok (descending (λ k. k.created_at) (keep (is_of source type) w.public_keys)), w) in
    let selected : statement select w ≡ (ok rows, tick w) = rw runs refl in
    ap (λ r. r.0) (then_runs (statement select) (Keys.scan_public_keys 7) w (tick w) selected)
    ∙ refuses rows (tick w) reads some_row
