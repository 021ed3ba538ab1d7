-- ===== src/Task/Handlers.antt =====
-- api/authenticated/v1/tasks.go: the tasks that a signed-in user sees. `subject` is the user of the
-- session, if there is one.
use sshark_api.Base.{
  ℕ, false, Option, none, some, List, [], ◌∷◌, if◌then◌else◌, ◌≡◌, inl, inr, arith, map, find,
  Bool-cases, Option-cases, ◌==◌,
}
use sshark_api.Base.Text.{Text, text_eq, text_eq_iff}
use sshark_api.Store.{
  Task, Kind, Status, Error, task_not_found, World, M, ok, err, pure, attempt, ◌>>=◌,
}
use sshark_api.Store.Frame.{Result-cases}
use sshark_api.Api.{
  Response, json, problem, status_ok, internal_error, unauthorized_error, task_not_found_error,
}
use sshark_api.Task.Repository

abbrev pub recent_task_limit : ℕ
recent_task_limit = 20

-- authenticated.Task
pub record TaskView (R : Type 0) : Type 0 where
  pub id : ℕ
  pub kind : Kind
  pub status : Status
  pub progress : ℕ
  pub total : ℕ
  pub message : Option Text
  pub error : Option Error
  pub created_at : ℕ
  pub started_at : Option ℕ
  pub finished_at : Option ℕ
  pub result : Option R

-- `unmarshal` reads the JSON of a result as an object.
module _ {R : Type 0} (unmarshal : Text → Option R) where
  abbrev result_of : Option Text → Option R
  result_of none = none
  result_of (some []) = none
  result_of (some (c ∷ text)) = unmarshal (c ∷ text)

  unfoldable pub to_task : Task → TaskView R
  to_task t = record {
    id = t.id;
    kind = t.kind;
    status = t.status;
    progress = t.progress;
    total = t.total;
    message = t.message;
    error = t.error;
    created_at = t.created_at;
    started_at = t.started_at;
    finished_at = t.finished_at;
    result = result_of t.result;
  }

  unfoldable pub list_my_tasks : Option Text → M (Response (List (TaskView R)))
  unfolding to_task
  list_my_tasks none = pure (problem unauthorized_error)
  list_my_tasks (some subject) = do
    listed ← attempt (Repository.list_by_user subject recent_task_limit)
    elim listed [
      | err e ↦ pure (problem internal_error)
      | ok entities ↦ pure (json status_ok (map to_task entities))
    ]

  unfoldable pub show_if_own : Text → Task → Response (TaskView R)
  unfolding text_eq to_task
  show_if_own subject t =
      if text_eq t.clerk_user_id subject
      then json status_ok (to_task t)
      else problem task_not_found_error

  unfoldable pub get_my_task : Option Text → ℕ → M (Response (TaskView R))
  unfolding show_if_own
  get_my_task none id = pure (problem unauthorized_error)
  get_my_task (some subject) id = do
    found ← attempt (Repository.get id)
    elim found [
      | ok task ↦ pure (show_if_own subject task)
      | err e ↦ elim e [
        | task_not_found ↦ pure (problem task_not_found_error)
        | other_error ↦ pure (problem internal_error)
      ]
    ]

  -- The row with the identifier belongs to the user, and is what is shown.
  abbrev pub IsOwnTask : Text → ℕ → World → TaskView R → Type 0
  IsOwnTask subject id w view =
      (t : Task) × (find (λ t. t.id == id) w.tasks ≡ some t)
      × (t.clerk_user_id ≡ subject)
      × (view ≡ to_task t)

  get-find :
      (id : ℕ) (w : World) (t : Task)
      → (Repository.get id w).0 ≡ ok t
      → find (λ t. t.id == id) w.tasks ≡ some t
  unfolding Repository.get
  get-find id w t h = elim (Option-cases (find (λ t. t.id == id) w.tasks)) [
    | inl nothing ↦ ground arith
    | inr (u, row) ↦ ground arith
  ]

  -- A user is shown a task only if it is their own: the view is that of the row with the identifier, and
  -- the row carries the user of the session.
  pub get_my_task-IsOwnTask :
      (subject : Text) (id : ℕ) (w : World) (status : ℕ) (view : TaskView R)
      → (get_my_task (some subject) id w).0 ≡ ok (json status view)
      → IsOwnTask subject id w view
  unfolding get_my_task show_if_own
  get_my_task-IsOwnTask subject id w status view h = elim (Result-cases (Repository.get id w).0) [
    | inr (e, failed) ↦ absurd (ground arith)
    | inl (t, found) ↦ elim (Bool-cases (text_eq t.clerk_user_id subject)) [
      | inr other ↦ absurd (ground arith)
      | inl own ↦
          (t, get-find id w t found, (text_eq_iff t.clerk_user_id subject).0 own, ground arith)
    ]
  ]

  -- A task of somebody else is answered exactly like one that does not exist: the answer is the one
  -- that a table without tasks gives, whether the statement that reads the task fails or not.
  pub get_my_task_hidden :
      (subject : Text) (id : ℕ) (w : World) (t : Task)
      → find (λ t. t.id == id) w.tasks ≡ some t
      → text_eq t.clerk_user_id subject ≡ false
      → (get_my_task (some subject) id w).0
        ≡ (get_my_task (some subject) id (record w { tasks = [] })).0
  unfolding get_my_task show_if_own Repository.get
  get_my_task_hidden subject id w t row other = ground arith
