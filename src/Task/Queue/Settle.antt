-- ===== src/Task/Queue/Settle.antt =====
-- Running a job settles its task.
use sshark_api.Base.{
  ℕ, false, Option, none, some, List, [], ◌∷◌, ◌==◌, ◌≡◌, ◌≢◌, refl, arith, All, ==_iff, Bool-cases,
  inl, inr,
}
use sshark_api.Base.Text.{Text}
use sshark_api.Store.{
  running, succeeded, failed, Task, Error, World, M, Result, ok, err, bind-ok, bind-err,
}
use sshark_api.Task.Repository.{
  mark_running, finish, update_row, set_finished, set_running, has_active_twin, coalesce,
}
use sshark_api.Task.Queue.{Reporter, reporter, run, settle, encoded, error_of}

-- How a task stands after its job, by the operation's outcome.
abbrev pub IsSettled : {R : Type 0} → (R → Option Text) → Result R → ℕ → Task → Type 0
IsSettled marshal (ok r) now t =
    (t.status ≡ succeeded) × (t.result ≡ marshal r) × (t.error ≡ none) × (t.finished_at ≡ some now)
IsSettled marshal (err e) now t =
    (t.status ≡ failed) × (t.result ≡ none) × (t.error ≡ some e) × (t.finished_at ≡ some now)

All-set_finished :
    {R : Type 0} (marshal : R → Option Text) (o : Result R) (id now : ℕ) (rows : List Task)
    → All
        (λ t. t.id ≡ id → IsSettled marshal o now t)
        (update_row id (set_finished (encoded marshal o) (error_of marshal o) now) rows)
All-set_finished marshal o id now [] = tt
All-set_finished marshal (ok r) id now (t ∷ rows) =
    (ground (arith, ==_iff t.id id), All-set_finished marshal (ok r) id now rows)
All-set_finished marshal (err e) id now (t ∷ rows) =
    (ground (arith, ==_iff t.id id), All-set_finished marshal (err e) id now rows)

abbrev pub settled_result : {R : Type 0} → Result R → Result (Unit {0})
settled_result (ok _) = ok tt
settled_result (err e) = err e

-- What `run` does once the operation has ended.
settle-IsSettled :
    {R : Type 0} (marshal : R → Option Text) (id : ℕ) (o : Result R) (w : World)
    → w.env.faults w.env.statement ≡ false
    → let (r, w') = settle marshal id o w in
      (r ≡ settled_result o) × All (λ t. t.id ≡ id → IsSettled marshal o w.env.now t) w'.tasks
unfolding settle finish
settle-IsSettled marshal id (ok r) w settles =
    rw settles (refl, All-set_finished marshal (ok r) id w.env.now w.tasks)
settle-IsSettled marshal id (err e) w settles =
    rw settles (refl, All-set_finished marshal (err e) id w.env.now w.tasks)

-- Once the task is marked running, the job returns the operation's error, or none, and leaves the
-- task settled accordingly, if the statement that settles it runs: succeeded with the encoded
-- result and no error, or failed with the error and no result. This holds of every operation,
-- whatever it did to the tables and however it ended.
pub run-IsSettled :
    {R : Type 0} (marshal : R → Option Text) (id : ℕ) (operation : Reporter → M R) (w : World)
    → (mark_running id w).0 ≡ ok tt
    → let (o, w2) = operation (reporter id) (mark_running id w).1 in
      w2.env.faults w2.env.statement ≡ false
      → let (o, w2) = operation (reporter id) (mark_running id w).1 in
        let (r, w') = run marshal id operation w in
        (r ≡ settled_result o) × All (λ t. t.id ≡ id → IsSettled marshal o w2.env.now t) w'.tasks
unfolding run
run-IsSettled marshal id operation w marked settles =
    let (o, w2) = operation (reporter id) (mark_running id w).1 in
    rw (bind-ok (mark_running id) _ w marked) (settle-IsSettled marshal id o w2 settles)

-- A job whose task cannot be marked running does nothing else.
pub run_blocked :
    {R : Type 0} (marshal : R → Option Text) (id : ℕ) (operation : Reporter → M R) (w : World)
    (e : Error)
    → (mark_running id w).0 ≡ err e
    → run marshal id operation w ≡ (err e, (mark_running id w).1)
unfolding run
run_blocked marshal id operation w e blocked = rw (bind-err (mark_running id) _ w blocked)

-- The rows before and after a start, one by one: the task's row runs, keeps the result, the error and
-- the end that it had, and its first start; every other row is as it was.
pub data IsStarted (id now : ℕ) : List Task → List Task → Type 0 where
  nil : IsStarted id now [] []
  this_one :
      {t u : Task} {ts us : List Task}
      → t.id ≡ id
      → u.status ≡ running
      → (u.result ≡ t.result) × (u.error ≡ t.error) × (u.finished_at ≡ t.finished_at)
      → u.started_at ≡ coalesce t.started_at now
      → IsStarted id now ts us
      → IsStarted id now (t ∷ ts) (u ∷ us)
  another :
      {t : Task} {ts us : List Task}
      → t.id ≢ id
      → IsStarted id now ts us
      → IsStarted id now (t ∷ ts) (t ∷ us)

update_row-IsStarted :
    (id now : ℕ) (rows : List Task) → IsStarted id now rows (update_row id (set_running now) rows)
update_row-IsStarted id now [] = nil
update_row-IsStarted id now (t ∷ rows) = elim (Bool-cases (t.id == id)) [
  | inl e ↦ rw e (
      this_one ((==_iff t.id id).0 e) refl (refl, refl, refl) refl
        (update_row-IsStarted id now rows))
  | inr e ↦ rw e (another (λ same. cc ((==_iff t.id id).1 same)) (update_row-IsStarted id now rows))
]

-- A task can be started from any status, also after it was settled: unless the statement fails or
-- another unfinished task stands for the same work, its row runs again with its old result, error
-- and end still in it, and with its first start; no other row changes.
pub mark_running-IsStarted :
    (id : ℕ) (w : World)
    → w.env.faults w.env.statement ≡ false
    → has_active_twin id w.tasks ≡ false
    → let (r, w') = mark_running id w in (r ≡ ok tt) × IsStarted id w.env.now w.tasks w'.tasks
unfolding mark_running
mark_running-IsStarted id w runs alone =
    rw (runs, alone) (refl, update_row-IsStarted id w.env.now w.tasks)
