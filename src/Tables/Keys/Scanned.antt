-- ===== src/Tables/Keys/Scanned.antt =====
-- What holds of the rows that a query selects, and so of the entities that are scanned from them, a
-- failure between two rows included.
use sshark_api.Base.{ℕ, ◌≤◌, List, [], ◌∷◌, ◌==◌, if◌then◌else◌, arith, keep, length, All}
use sshark_api.Store.{
  PublicKey, Env, World, M, Result, ok, ◌>>=◌, statement, next_row, pure, fail, other,
}
use sshark_api.Store.Frame.{
  Ensures, Ensures-bind, Ensures-pure, Ensures-if, Ensures-fail, Ensures-statement,
}
use sshark_api.Tables.Keys
use sshark_api.Tables.Keys.{SearchFilter, SearchResult}
use sshark_api.Tables.Keys.Pages.{All-page}

-- `P` holds of rows, and `Q` of the entities made of them.
module _ (I : World → Type 0) (keeps : (w : World) (e : Env) → I w → I (record w { env = e }))
    (P Q : PublicKey → Type 0) (lift : (k : PublicKey) → P k → Q (Keys.own_metadata k)) where
  abbrev Nothing : {A : Type 0} → A → Type 0
  Nothing a = Unit {0}

  next_row-Nothing : Ensures I Nothing next_row
  unfolding next_row
  next_row-Nothing w i = (keeps w _ i, λ more same. tt)

  load_metadata-Q : (k : PublicKey) → P k → Ensures I Q (Keys.load_metadata k)
  unfolding Keys.load_metadata
  load_metadata-Q k p =
      Ensures-statement I keeps Q (λ w. (ok (Keys.own_metadata k), w))
        (λ w i. Ensures-pure I Q (Keys.own_metadata k) (lift k p) w i)

  -- No more entities than rows.
  abbrev pub Scanned : ℕ → List PublicKey → Type 0
  Scanned n es = All Q es × (length es ≤ n)

  pub scan_public_keys-Scanned :
      (columns : ℕ) (rows : List PublicKey)
      → All P rows
      → Ensures I (Scanned (length rows)) (Keys.scan_public_keys columns rows)
  unfolding Keys.scan_public_keys
  scan_public_keys-Scanned columns [] p = Ensures-pure I (Scanned 0) [] (tt, omega arith)
  scan_public_keys-Scanned columns (k ∷ rows) p =
      let R : List PublicKey → Type 0 = Scanned (length (k ∷ rows)) in
      let right_columns : M (Unit {0}) =
        if columns == Keys.scanned_columns then pure tt else fail other in
      let tail : PublicKey → M (List PublicKey) =
        λ entity. Keys.scan_public_keys columns rows >>= λ entities. pure (entity ∷ entities) in
      let scan_row : M (List PublicKey) = right_columns >>= λ u. Keys.load_metadata k >>= tail in
      Ensures-bind I Nothing R next_row (λ more. if more then scan_row else pure [])
        next_row-Nothing
        (λ more _.
          Ensures-if I R more scan_row (pure [])
            (Ensures-bind I Nothing R right_columns (λ u. Keys.load_metadata k >>= tail)
              (Ensures-if I Nothing (columns == Keys.scanned_columns) (pure tt) (fail other)
                (Ensures-pure I Nothing tt tt) (Ensures-fail I Nothing other))
              (λ u _.
                Ensures-bind I Q R (Keys.load_metadata k) tail (load_metadata-Q k p.0) (λ entity q.
                  Ensures-bind I (Scanned (length rows)) R (Keys.scan_public_keys columns rows)
                    (λ entities. pure (entity ∷ entities))
                    (scan_public_keys-Scanned columns rows p.1)
                    (λ entities all.
                      Ensures-pure I R (entity ∷ entities) ((q, all.0), omega (arith, all.1))))))
            (Ensures-pure I R [] (tt, omega arith)))

  -- What holds of all rows that pass the filter holds of what the search finds.
  pub search-All :
      (filter : SearchFilter) (limit offset : ℕ)
      → ((w : World) → I w → All P (keep (Keys.passes filter) w.public_keys))
      → Ensures I (λ r. All Q r.entities) (Keys.search filter limit offset)
  unfolding Keys.search
  search-All filter limit offset passing =
      let chosen : World → List PublicKey = λ w. keep (Keys.passes filter) w.public_keys in
      let count : World → Result ℕ × World = λ w. (ok (length (chosen w)), w) in
      let select : World → Result (List PublicKey) × World =
        λ w. (ok (Keys.page limit offset (chosen w)), w) in
      let R : SearchResult → Type 0 = λ r. All Q r.entities in
      let pack : ℕ → List PublicKey → M SearchResult =
        λ total entities. pure (record { entities = entities; total = total }) in
      let rest : ℕ → List PublicKey → M SearchResult =
        λ total rows. Keys.scan_public_keys 8 rows >>= pack total in
      Ensures-bind I Nothing R (statement count) (λ total. (statement select) >>= rest total)
        (Ensures-statement I keeps Nothing count (λ w i. (i, λ n same. tt)))
        (λ total _.
          Ensures-bind I (All P) R (statement select) (rest total)
            (Ensures-statement I keeps (All P) select (λ w i.
              Ensures-pure I (All P) (Keys.page limit offset (chosen w))
                (All-page P limit offset (chosen w) (passing w i)) w i))
            (λ rows p.
              Ensures-bind I (Scanned (length rows)) R (Keys.scan_public_keys 8 rows) (pack total)
                (scan_public_keys-Scanned 8 rows p)
                (λ entities all.
                  Ensures-pure I R (record { entities = entities; total = total }) all.0)))
