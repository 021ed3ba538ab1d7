-- ===== src/Task/Queue.antt =====
-- internal/infra/jobs: queueing a user's operation behind a task, and running it. The queue's own
-- `Insert` (River) is a statement that adds the job or fails.
use sshark_api.Base.{
  ℕ, zero, suc, Bool, true, false, Option, none, some, List, [], ◌∷◌, ◌++◌, if◌then◌else◌, ◌≡◌,
  refl,
}
use sshark_api.Base.Text.{Text, codes}
use sshark_api.Store.{
  Kind, refresh_keys, revoke_key, pending, Task, JobArgs, refresh_keys_args, revoke_key_args, Error,
  task_already_running, other, Profile, World, M, Result, ok, err, pure, fail, attempt, of_result,
  ignore, ◌>>=◌, ◌>>◌, statement, new_id,
}
use sshark_api.Task.Repository.{
  create, find_active_by_dedup_key, finish, mark_running, report_progress, Progress,
}
pub mod Dedup
pub mod Settle

-- The names of the kinds (internal/domain/tasks/entity.go).
abbrev pub kind_name : Kind → Text
kind_name refresh_keys = codes "refresh_keys"
kind_name revoke_key = codes "revoke_key"

abbrev pub revoke_steps : ℕ
revoke_steps = 3

unfoldable pub insert_job : JobArgs → M (Unit {0})
unfolding statement
insert_job job = statement λ w. (ok tt, record w { jobs = job ∷ w.jobs })

-- The loser of a race for the same work reads back the winner's task.
unfoldable pub enqueue : Text → Text → ℕ → (ℕ → JobArgs) → Kind → M Task
unfolding create find_active_by_dedup_key finish insert_job new_id
enqueue subject dedup_key total build_args kind = do
  id ← new_id
  created ← attempt (
      create (record {
        id = id;
        clerk_user_id = subject;
        kind = kind;
        dedup_key = dedup_key;
        status = some pending;
        total = total;
        message = some (codes "Queued");
      }))
  elim created [
    | err e ↦ elim e [
      | task_already_running ↦ find_active_by_dedup_key subject dedup_key
      | other_error ↦ fail other_error
    ]
    | ok task ↦ do
      queued ← attempt (insert_job (build_args task.id))
      elim queued [ ok _ ↦ pure task | err e ↦ ignore (finish task.id none (some e)) >> fail e ]
  ]

unfoldable pub enqueue_refresh : Text → M Task
unfolding enqueue
enqueue_refresh subject =
    enqueue subject (kind_name refresh_keys) 0 (λ id. refresh_keys_args id subject) refresh_keys

-- `uuid.String` is a parameter: the texts of different identifiers differ.
unfoldable pub enqueue_revoke : (ℕ → Text) → Text → ℕ → M Task
unfolding enqueue
enqueue_revoke uuid_string subject key_id =
    enqueue subject (kind_name revoke_key ++ (b':' ∷ uuid_string key_id)) revoke_steps
      (λ id. revoke_key_args id subject key_id) revoke_key

-- `keyops.Reporter`; a failed update is logged.
abbrev pub Reporter : Type 0
Reporter = ℕ → ℕ → Text → M (Unit {0})

unfoldable pub reporter : ℕ → Reporter
unfolding report_progress
reporter task_id n total message =
    ignore (report_progress task_id (record { done_steps = n; total = total; message = message }))

module _ {R : Type 0} (marshal : R → Option Text) where
  -- The outcome of the operation as `Finish` is told it: json.Marshal of a result is the parameter.
  abbrev pub encoded : Result R → Option Text
  encoded (ok r) = marshal r
  encoded (err _) = none

  abbrev pub error_of : Result R → Option Error
  error_of (ok _) = none
  error_of (err e) = some e

  -- The end of `run`: the task is settled, and the operation's error returned.
  unfoldable pub settle : ℕ → Result R → M (Unit {0})
  settle task_id outcome = do
    ignore (finish task_id (encoded outcome) (error_of outcome))
    elim outcome [ ok _ ↦ pure tt | err e ↦ fail e ]

  -- `run`: the shape every job shares.
  unfoldable pub run : ℕ → (Reporter → M R) → M (Unit {0})
  unfolding settle
  run task_id operation = do
    mark_running task_id
    outcome ← attempt (operation (reporter task_id))
    settle task_id outcome
