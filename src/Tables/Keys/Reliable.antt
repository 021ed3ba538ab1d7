-- ===== src/Tables/Keys/Reliable.antt =====
-- The operations of internal/infra/publickeys/postgres/repository.go where no statement fails.
use sshark_api.Base.{
  if◌then◌else◌, ◌==◌, true, ℕ, false, List, [], ◌∷◌, ◌≡◌, refl, ap, ◌∙◌, keep, arith, inl, inr,
  map, length,
}
use sshark_api.Store.{
  next_row, fail, other, PublicKey, ScrapeHistory, Env, World, M, Result, ok, err, pure, ◌>>=◌,
  ◌>>◌, statement, transaction, tick, new_id, IsReliable,
}
use sshark_api.Store.Frame.{Maintains, Maintains-bind, Result-cases}
use sshark_api.Tables.Keys
use sshark_api.Tables.Keys.{SearchFilter, SearchResult}

-- A reliable statement runs.
pub statement_runs :
    {A : Type 0} (run : World → Result A × World) (w : World)
    → IsReliable w
    → statement run w ≡ run (tick w)
unfolding statement
statement_runs run w reliable = rw (reliable w.env.statement) refl

Reliable-statement :
    {A : Type 0} (run : World → Result A × World)
    → Maintains IsReliable run
    → Maintains IsReliable (statement run)
Reliable-statement run h w reliable = rw (statement_runs run w reliable) (h (tick w) reliable)

Reliable-transaction :
    {A : Type 0} (m : M A) → Maintains IsReliable m → Maintains IsReliable (transaction m)
unfolding transaction
Reliable-transaction m h w reliable =
    let after = h (tick w) reliable in
    rw (reliable w.env.statement) (elim (Result-cases (m (tick w)).0) [
      | inl (a, e) ↦ rw (e, after (m (tick w)).1.env.statement) after
      | inr (x, e) ↦ rw e after
    ])

pub Reliable-new_id : Maintains IsReliable new_id
unfolding new_id
Reliable-new_id w reliable = reliable

pub Reliable-add_scrape_history :
    (h : ScrapeHistory) → Maintains IsReliable (Keys.add_scrape_history h)
unfolding Keys.add_scrape_history
Reliable-add_scrape_history h w reliable n = ground (arith, reliable n)

Reliable-save_metadata : (k : PublicKey) → Maintains IsReliable (Keys.save_metadata k)
unfolding Keys.save_metadata
Reliable-save_metadata k w reliable n = ground (arith, reliable n)

Reliable-insert_row : (k : PublicKey) → Maintains IsReliable (Keys.insert_row k)
unfolding Keys.insert_row
Reliable-insert_row k w reliable n = ground (arith, reliable n)

Reliable-update_columns : (k : PublicKey) → Maintains IsReliable (Keys.update_columns k)
unfolding Keys.update_columns
Reliable-update_columns k w reliable n = ground (arith, reliable n)

Reliable-delete_ssh_metadata : (id : ℕ) → Maintains IsReliable (Keys.delete_ssh_metadata id)
unfolding Keys.delete_ssh_metadata
Reliable-delete_ssh_metadata id w reliable n = ground (arith, reliable n)

Reliable-delete_gpg_metadata : (id : ℕ) → Maintains IsReliable (Keys.delete_gpg_metadata id)
unfolding Keys.delete_gpg_metadata
Reliable-delete_gpg_metadata id w reliable n = ground (arith, reliable n)

Reliable-delete_metadata : (id : ℕ) → Maintains IsReliable (Keys.delete_metadata id)
unfolding Keys.delete_metadata
Reliable-delete_metadata id =
    Maintains-bind IsReliable (Keys.delete_ssh_metadata id) (λ done. Keys.delete_gpg_metadata id)
      (Reliable-delete_ssh_metadata id) (λ done. Reliable-delete_gpg_metadata id)

pub Reliable-delete : (id : ℕ) → Maintains IsReliable (Keys.delete id)
unfolding Keys.delete
Reliable-delete id w reliable n = ground (arith, reliable n)

pub Reliable-update : (k : PublicKey) → Maintains IsReliable (Keys.update k)
unfolding Keys.update
Reliable-update k =
    Reliable-transaction
      (Keys.update_columns k >> (Keys.delete_metadata k.id >> Keys.save_metadata k))
      (Maintains-bind IsReliable (Keys.update_columns k)
        (λ done. Keys.delete_metadata k.id >> Keys.save_metadata k) (Reliable-update_columns k)
        (λ done.
          Maintains-bind IsReliable (Keys.delete_metadata k.id) (λ done. Keys.save_metadata k)
            (Reliable-delete_metadata k.id) (λ done. Reliable-save_metadata k)))

Reliable-with_id : (k : PublicKey) → Maintains IsReliable (Keys.with_id k)
unfolding new_id
Reliable-with_id k w reliable n = ground (arith, reliable n)

pub Reliable-create : (k : PublicKey) → Maintains IsReliable (Keys.create k)
unfolding Keys.create
Reliable-create k =
    let insert : PublicKey → M (Unit {0}) = λ row. Keys.insert_row row >> Keys.save_metadata row in
    Maintains-bind IsReliable (Keys.with_id k) (λ row. transaction (insert row) >> pure row.id)
      (Reliable-with_id k)
      (λ row.
        Maintains-bind IsReliable (transaction (insert row)) (λ done. pure row.id)
          (Reliable-transaction (insert row) (
            Maintains-bind IsReliable (Keys.insert_row row) (λ done. Keys.save_metadata row)
              (Reliable-insert_row row) (λ done. Reliable-save_metadata row)))
          (λ done w reliable. reliable))

-- After a call that succeeds, the rest runs.
pub then_runs :
    {A B : Type 0} (m : M A) (f : A → M B) (w v : World) {a : A}
    → m w ≡ (ok a, v)
    → (m >>= f) w ≡ f a v
then_runs {A = A} {B = B} m f w v e =
    let next : Result A × World → Result B × World =
      λ r. elim r.0 [ ok a ↦ f a r.1 | err x ↦ (err x, r.1) ] in
    ap next e

next_row_reliable : (w : World) → IsReliable w → next_row w ≡ (ok true, tick w)
unfolding next_row
next_row_reliable w reliable = rw (reliable w.env.statement) refl

scan_public_keys_reliable :
    (rows : List PublicKey) (w : World)
    → IsReliable w
    → (e : Env) × (Keys.scan_public_keys 8 rows w
        ≡ (ok (map Keys.own_metadata rows), record w { env = e }))
      × ((n : ℕ) → e.faults n ≡ false)
unfolding Keys.scan_public_keys Keys.load_metadata
scan_public_keys_reliable [] w reliable = (w.env, refl, reliable)
scan_public_keys_reliable (k ∷ rows) w reliable =
    let (e, scanned, after) = scan_public_keys_reliable rows (tick (tick w)) reliable in
    let rest : PublicKey → M (List PublicKey) =
      λ entity. Keys.scan_public_keys 8 rows >>= λ entities. pure (entity ∷ entities) in
    let scan_row : M (List PublicKey) =
      (if 8 == Keys.scanned_columns then pure tt else fail other) >>= λ u.
      Keys.load_metadata k >>= rest in
    (
      e,
      then_runs next_row (λ more. if more then scan_row else pure []) w (tick w)
            (next_row_reliable w reliable)
          ∙ then_runs (Keys.load_metadata k) rest (tick w) (tick (tick w))
              (statement_runs (λ w. (ok (Keys.own_metadata k), w)) (tick w) reliable)
          ∙ then_runs (Keys.scan_public_keys 8 rows)
              (λ entities. pure (Keys.own_metadata k ∷ entities)) (tick (tick w))
              (record w { env = e }) scanned,
      after,
    )

-- A reliable search finds the rows of its page, and leaves the tables as they were.
pub search_reliable :
    (filter : SearchFilter) (limit offset : ℕ) (w : World)
    → IsReliable w
    → (r : SearchResult) × (e : Env) × (Keys.search filter limit offset w
        ≡ (ok r, record w { env = e }))
      × (r.entities
          ≡ map Keys.own_metadata
              (Keys.page limit offset (keep (Keys.passes filter) w.public_keys)))
      × ((n : ℕ) → e.faults n ≡ false)
unfolding Keys.search
search_reliable filter limit offset w reliable =
    let chosen : World → List PublicKey = λ w. keep (Keys.passes filter) w.public_keys in
    let rows : List PublicKey = Keys.page limit offset (chosen w) in
    let count : World → Result ℕ × World = λ w. (ok (length (chosen w)), w) in
    let select : World → Result (List PublicKey) × World =
      λ w. (ok (Keys.page limit offset (chosen w)), w) in
    let pack : ℕ → List PublicKey → M SearchResult =
      λ total entities. pure (record { entities = entities; total = total }) in
    let rest : ℕ → List PublicKey → M SearchResult =
      λ total rows. Keys.scan_public_keys 8 rows >>= pack total in
    let (e, scanned, after) = scan_public_keys_reliable rows (tick (tick w)) reliable in
    (
      record { entities = map Keys.own_metadata rows; total = length (chosen w) },
      e,
      then_runs (statement count) (λ total. (statement select) >>= rest total) w (tick w)
            (statement_runs count w reliable)
          ∙ then_runs (statement select) (rest (length (chosen w))) (tick w) (tick (tick w))
              (statement_runs select (tick w) reliable)
          ∙ then_runs (Keys.scan_public_keys 8 rows) (pack (length (chosen w))) (tick (tick w))
              (record w { env = e }) scanned,
      refl,
      after,
    )
