-- ===== src/Tables/Keys/Query/Selected.antt =====
-- What `SearchWithQuery` finds: metadata and all, only keys that the clause selects.
use sshark_api.Base.{
  ℕ, ◌≤◌, Bool, true, false, not, ◌&&◌, List, if◌then◌else◌, ◌≡◌, refl, ap, sym, subst, arith, keep,
  length, All,
}
use sshark_api.Base.Int64.{is_negative}
use sshark_api.Base.Text.{Text}
use sshark_api.Store.{
  KeyType, PublicKey, Source, Env, database, World, M, Result, ok, err, ◌>>=◌, statement, pure,
}
use sshark_api.Store.Frame.{Ensures, Ensures-bind, Ensures-pure, Ensures-fail, Ensures-statement}
use sshark_api.Tables.Keys
use sshark_api.Tables.Keys.{SearchResult}
use sshark_api.Tables.Keys.Pages.{Member, All-page, length-page, All-keep}
use sshark_api.Tables.Keys.Scanned.{scan_public_keys-Scanned}
use sshark_api.Tables.Keys.Query.{
  Sql, selects, chosen, count, select, count_query, select_query, search_with_query,
}

module _ (sql : Sql) (type : KeyType) (clause : Text) (args : List Text) (keys : List PublicKey)
    (sources : List Source) where
  -- The two tables are these.
  abbrev pub Holds : World → Type 0
  Holds w = (w.public_keys ≡ keys) × (w.sources ≡ sources)

  abbrev keeps : (w : World) (e : Env) → Holds w → Holds (record w { env = e })
  keeps w e i = i

  abbrev pub IsSelected : PublicKey → Type 0
  IsSelected k = Member k keys × (selects sql type clause args sources k ≡ true)

  -- A stored key that is selected, with the metadata of its type.
  abbrev pub IsFound : PublicKey → Type 0
  IsFound e = (k : PublicKey) × IsSelected k × (e ≡ Keys.own_metadata k)

  abbrev FoundAll : ℕ → List PublicKey → Type 0
  FoundAll n es = All IsFound es × (length es ≤ n)

  scan_public_keys-IsFound :
      (columns : ℕ) (rows : List PublicKey)
      → All IsSelected rows
      → Ensures Holds (FoundAll (length rows)) (Keys.scan_public_keys columns rows)
  scan_public_keys-IsFound columns rows selected =
      scan_public_keys-Scanned Holds keeps IsSelected IsFound (λ k selected. (k, selected, refl))
        columns rows selected

  -- The keys found are selected ones, no more than the limit, and the total counts all selected.
  abbrev pub IsPage : ℕ → SearchResult → Type 0
  IsPage limit r =
      All IsFound r.entities
      × (length r.entities ≤ limit)
      × (r.total ≡ length (keep (selects sql type clause args sources) keys))

  abbrev Counted : ℕ → Type 0
  Counted n = n ≡ length (keep (selects sql type clause args sources) keys)

  abbrev Paged : ℕ → List PublicKey → Type 0
  Paged limit rows = All IsSelected rows × (length rows ≤ limit)

  chosen-lem :
      (w : World)
      → Holds w
      → chosen sql type clause args w ≡ keep (selects sql type clause args sources) keys
  chosen-lem w (same_keys, same_sources) = rw (same_keys, same_sources) refl

  -- A statement that the database may refuse.
  refused_or_found :
      {A : Type 0} (P : A → Type 0) (accepted : Bool) (a : A) (w : World)
      → Holds w
      → P a
      → let done : Result A × World = if accepted then (ok a, w) else (err database, w) in
        Holds done.1 × ((b : A) → done.0 ≡ ok b → P b)
  refused_or_found P true a w i p = Ensures-pure Holds P a p w i
  refused_or_found P false a w i p = Ensures-fail Holds P database w i

  count-Counted : Ensures Holds Counted (statement (count sql type clause args))
  count-Counted = Ensures-statement Holds keeps Counted (count sql type clause args) (λ w i.
      refused_or_found Counted (sql.accepts (count_query type clause) args)
        (length (chosen sql type clause args w)) w i (ap length (chosen-lem w i)))

  select-Paged :
      (limit offset : ℕ)
      → Ensures Holds (Paged limit) (statement (select sql type clause args limit offset))
  select-Paged limit offset =
      Ensures-statement Holds keeps (Paged limit) (select sql type clause args limit offset) (λ w i.
        let picked : List PublicKey = chosen sql type clause args w in
        let selected : All IsSelected picked =
          subst (All IsSelected) (sym (chosen-lem w i))
            (All-keep (selects sql type clause args sources) keys) in
        refused_or_found (Paged limit)
          (sql.accepts (select_query type clause (length args)) args
            && not (is_negative limit)
            && not (is_negative offset))
          (Keys.page limit offset picked) w i
          (All-page IsSelected limit offset picked selected, length-page limit offset picked))

  pub search_with_query-IsPage :
      (limit offset : ℕ)
      → Ensures Holds (IsPage limit) (search_with_query sql type clause args limit offset)
  unfolding search_with_query
  search_with_query-IsPage limit offset =
      let rest : ℕ → List PublicKey → M SearchResult = λ total rows.
        Keys.scan_public_keys 8 rows >>= λ entities.
        pure (record { entities = entities; total = total }) in
      let choose : M (List PublicKey) = statement (select sql type clause args limit offset) in
      Ensures-bind Holds Counted (IsPage limit) (statement (count sql type clause args))
        (λ total. choose >>= rest total) count-Counted
        (λ total counted.
          Ensures-bind Holds (Paged limit) (IsPage limit) choose (rest total)
            (select-Paged limit offset)
            (λ rows paged.
              Ensures-bind Holds (FoundAll (length rows)) (IsPage limit)
                (Keys.scan_public_keys 8 rows)
                (λ entities. pure (record { entities = entities; total = total }))
                (scan_public_keys-IsFound 8 rows paged.0)
                (λ entities all.
                  Ensures-pure Holds (IsPage limit) (record { entities = entities; total = total })
                    (all.0, omega (arith, all.1, paged.1), counted))))
