-- ===== src/Task/Repository.antt =====
-- internal/infra/tasks/postgres/repository.go over the table `tasks` and its partial unique index
-- `idx_tasks_active_dedup`.
use sshark_api.Base.{
  ℕ, Bool, true, false, not, ◌&&◌, ◌||◌, Option, none, some, List, [], ◌∷◌, ◌==◌, if◌then◌else◌,
  find, any, keep, take, descending,
}
use sshark_api.Base.Text.{Text, text_eq, is_empty}
use sshark_api.Store.{
  Status, pending, running, succeeded, failed, Kind, Task, Error, unique_violation, task_not_found,
  task_already_running, M, ok, err, pure, fail, attempt, ◌>>=◌, statement, new_id,
}

-- `Status.Done`
unfoldable pub done : Status → Bool
done succeeded = true
done failed = true
done pending = false
done running = false

-- `status IN ('pending', 'running')`
unfoldable pub is_active : Status → Bool
is_active pending = true
is_active running = true
is_active succeeded = false
is_active failed = false

-- The row is the user's unfinished task for this work.
unfoldable pub is_active_for : Text → Text → Task → Bool
unfolding is_active
is_active_for user dedup t =
    text_eq t.clerk_user_id user && text_eq t.dedup_key dedup && is_active t.status

-- What a caller of `Create` fills in; a status that is left out is "".
pub record NewTask : Type 0 where
  pub id : ℕ
  pub clerk_user_id : Text
  pub kind : Kind
  pub dedup_key : Text
  pub status : Option Status
  pub total : ℕ
  pub message : Option Text

abbrev pub or_pending : Option Status → Status
or_pending none = pending
or_pending (some s) = s

-- The row that INSERT writes, the columns that it leaves out at their defaults.
abbrev pub new_row : NewTask → ℕ → ℕ → Task
new_row t id now = record {
  id = id;
  clerk_user_id = t.clerk_user_id;
  kind = t.kind;
  dedup_key = t.dedup_key;
  status = or_pending t.status;
  progress = 0;
  total = t.total;
  message = t.message;
  result = none;
  error = none;
  created_at = now;
  started_at = none;
  finished_at = none;
  updated_at = now;
}

-- An unfinished row is refused beside another for the same user and work, and any row beside one
-- with its identifier.
unfoldable pub conflicts : Task → List Task → Bool
unfolding is_active is_active_for
conflicts t rows =
    any (λ u. u.id == t.id) rows
    || (is_active t.status && any (is_active_for t.clerk_user_id t.dedup_key) rows)

unfoldable pub insert_row : Task → M Task
unfolding statement conflicts
insert_row t = statement λ w.
    if conflicts t w.tasks
    then (err unique_violation, w)
    else (ok t, record w { tasks = t ∷ w.tasks })

-- The unique violation is translated.
abbrev pub translate : Error → Error
translate unique_violation = task_already_running
translate e = e

unfoldable pub create : NewTask → M Task
unfolding insert_row new_id
create t = do
  id ← if t.id == 0 then new_id else pure t.id
  r ← attempt (λ w. insert_row (new_row t id w.env.now) w)
  elim r [ ok row ↦ pure row | err e ↦ fail (translate e) ]

-- `one`: the row that a query selects, or ErrTaskNotFound.
unfoldable pub one : (Task → Bool) → M Task
unfolding statement
one p = statement λ w. elim (find p w.tasks) [ none ↦ (err task_not_found, w) | some t ↦ (ok t, w) ]

unfoldable pub find_active_by_dedup_key : Text → Text → M Task
unfolding one is_active_for
find_active_by_dedup_key user dedup = one (is_active_for user dedup)

unfoldable pub get : ℕ → M Task
unfolding one
get id = one (λ t. t.id == id)

unfoldable pub list_by_user : Text → ℕ → M (List Task)
unfolding statement descending
list_by_user user limit = statement λ w. (
  ok (
      take limit
        (descending (λ t. t.created_at) (keep (λ t. text_eq t.clerk_user_id user) w.tasks))),
  w,
)

-- `UPDATE tasks SET … WHERE id = $1`
abbrev pub update_row : ℕ → (Task → Task) → List Task → List Task
update_row id f [] = []
update_row id f (t ∷ ts) = (if t.id == id then f t else t) ∷ update_row id f ts

-- `COALESCE(started_at, NOW())`
abbrev pub coalesce : Option ℕ → ℕ → Option ℕ
coalesce none n = some n
coalesce (some k) n = some k

abbrev pub set_running : ℕ → Task → Task
set_running now t = record t {
  status = running;
  started_at = coalesce t.started_at now;
  updated_at = now;
}

-- The unfinished task that this row would stand beside, if it were made to run.
unfoldable pub has_active_twin : ℕ → List Task → Bool
unfolding is_active_for
has_active_twin id rows = elim (find (λ t. t.id == id) rows) [
  | none ↦ false
  | some t ↦ any (λ u. not (u.id == id) && is_active_for t.clerk_user_id t.dedup_key u) rows
]

unfoldable pub mark_running : ℕ → M (Unit {0})
unfolding statement has_active_twin
mark_running id = statement λ w.
    if has_active_twin id w.tasks
    then (err unique_violation, w)
    else (ok tt, record w { tasks = update_row id (set_running w.env.now) w.tasks })

abbrev pub nullable : Text → Option Text
nullable s = if is_empty s then none else some s

-- internal/domain/tasks/repository.go
pub record Progress : Type 0 where
  pub done_steps : ℕ
  pub total : ℕ
  pub message : Text

abbrev pub set_progress : Progress → ℕ → Task → Task
set_progress p now t = record t {
  progress = p.done_steps;
  total = p.total;
  message = nullable p.message;
  updated_at = now;
}

unfoldable pub report_progress : ℕ → Progress → M (Unit {0})
unfolding statement is_empty
report_progress id p =
    statement λ w. (ok tt, record w { tasks = update_row id (set_progress p w.env.now) w.tasks })

abbrev pub set_finished : Option Text → Option Error → ℕ → Task → Task
set_finished result none now t = record t {
  status = succeeded;
  result = result;
  error = none;
  finished_at = some now;
  updated_at = now;
}
set_finished result (some e) now t = record t {
  status = failed;
  result = result;
  error = some e;
  finished_at = some now;
  updated_at = now;
}

unfoldable pub finish : ℕ → Option Text → Option Error → M (Unit {0})
unfolding statement
finish id result task_err = statement λ w.
    (ok tt, record w { tasks = update_row id (set_finished result task_err w.env.now) w.tasks })
