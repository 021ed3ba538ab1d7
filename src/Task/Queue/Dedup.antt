-- ===== src/Task/Queue/Dedup.antt =====
-- Asking for the same work twice.
use sshark_api.Base.{
  ℕ, ◌+◌, Bool, true, false, none, some, List, [], ◌∷◌, ◌==◌, ◌≡◌, ◌≢◌, refl, any, find, keep,
  arith,
}
use sshark_api.Base.Text.{Text, codes, text_eq_refl}
use sshark_api.Store.{Kind, Task, JobArgs, Error, World, ok, err, IsReliable, pending, database}
use sshark_api.Task.Repository.{is_active, is_active_for, update_row, new_row, set_finished}
use sshark_api.Task.Queue.{enqueue}

any-find {ℓ} :
    {A : Type ℓ} (p : A → Bool) (xs : List A) (x : A) → find p xs ≡ some x → any p xs ≡ true
any-find p [] x h = cc
any-find p (y ∷ xs) x h = ground (arith, any-find p xs x)

-- Where no statement fails: while a task for the same user and work is unfinished, asking again answers
-- with that task, and adds neither a task nor a job.
pub enqueue_again :
    (subject dedup : Text) (total : ℕ) (build_args : ℕ → JobArgs) (kind : Kind) (w : World)
    (t : Task)
    → IsReliable w
    → find (is_active_for subject dedup) w.tasks ≡ some t
    → let (r, w') = enqueue subject dedup total build_args kind w in
      (r ≡ ok t) × (w'.tasks ≡ w.tasks) × (w'.jobs ≡ w.jobs)
unfolding enqueue is_active
enqueue_again subject dedup total build_args kind w t reliable found = ground (
  arith,
  reliable w.env.statement,
  reliable (w.env.statement + 1),
  any-find (is_active_for subject dedup) w.tasks t,
)

update_row-absent :
    (id : ℕ) (f : Task → Task) (rows : List Task)
    → any (λ u. u.id == id) rows ≡ false
    → update_row id f rows ≡ rows
update_row-absent id f [] h = refl
update_row-absent id f (t ∷ rows) h = ground (arith, update_row-absent id f rows)

-- Where no statement fails, the user has no unfinished task for the work, and the identifier drawn is not
-- zero and no task's: one pending task is recorded, under the identifier drawn, and one job that carries
-- this identifier.
pub enqueue_fresh :
    (subject dedup : Text) (total : ℕ) (build_args : ℕ → JobArgs) (kind : Kind) (w : World)
    → IsReliable w
    → let id = w.env.ids w.env.drawn in
      (id ≢ 0)
      → any (is_active_for subject dedup) w.tasks ≡ false
      → any (λ u. u.id == id) w.tasks ≡ false
      → let (r, w') = enqueue subject dedup total build_args kind w in
        let row : Task =
          new_row
            (record {
              id = id;
              clerk_user_id = subject;
              kind = kind;
              dedup_key = dedup;
              status = some pending;
              total = total;
              message = some (codes "Queued");
            })
            id
            w.env.now in
        (r ≡ ok row) × (w'.tasks ≡ row ∷ w.tasks) × (w'.jobs ≡ build_args id ∷ w.jobs)
unfolding enqueue is_active
enqueue_fresh subject dedup total build_args kind w reliable drawn idle unused =
    ground (arith, reliable w.env.statement, reliable (w.env.statement + 1))

-- A request is refused, the identifier drawn is not zero, and the request's third statement, the one that
-- settles its task, does not fail: then, whatever the first two statements did, no job is left
-- behind, and the user's unfinished tasks for the work are, row by row, those that were there before.
pub enqueue_refused :
    (subject dedup : Text) (total : ℕ) (build_args : ℕ → JobArgs) (kind : Kind) (w : World)
    (e : Error)
    → w.env.ids w.env.drawn ≢ 0
    → w.env.faults (w.env.statement + 2) ≡ false
    → (enqueue subject dedup total build_args kind w).0 ≡ err e
    → let w' = (enqueue subject dedup total build_args kind w).1 in
      (w'.jobs ≡ w.jobs)
      × (keep (is_active_for subject dedup) w'.tasks ≡ keep (is_active_for subject dedup) w.tasks)
unfolding enqueue is_active
enqueue_refused subject dedup total build_args kind w e drawn settles refused = ground (
  arith,
  update_row-absent (w.env.ids w.env.drawn) (set_finished none (some database) w.env.now) w.tasks,
  text_eq_refl subject,
  text_eq_refl dedup,
)
