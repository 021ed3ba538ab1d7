-- ===== src/Task/Tests.antt =====
-- The theorems on tasks at concrete tables.
use sshark_api.Base.{
  ◌⊎◌, ℕ, ◌+◌, Bool, false, Option, none, some, List, [], ◌∷◌, ◌≡◌, ◌==◌, refl, arith, keep, All,
}
use sshark_api.Base.Text.{Text, codes, text_eq}
use sshark_api.Store.{
  World, Task, refresh_keys_args, refresh_keys, running, failed, pending, database, ok, err, Error,
  M, fail, rate_limited,
}
use sshark_api.Task.Repository.{is_active_for, is_active, new_row, mark_running, has_active_twin}
use sshark_api.Task.Handlers.{
  IsOwnTask, to_task, get_my_task, get_my_task-IsOwnTask, get_my_task_hidden,
}
use sshark_api.Task.Repository
use sshark_api.Task.Periodic.{finished, walk}
use sshark_api.Task.Periodic.Ends.{walk_lem}
use sshark_api.Tables.Profiles
use sshark_api.Samples
use sshark_api.Task.Queue.{enqueue_refresh, enqueue, run, reporter, Reporter}
use sshark_api.Task.Queue.Dedup.{enqueue_again, enqueue_fresh, enqueue_refused}
use sshark_api.Task.Queue.Settle.{
  IsSettled, settled_result, run-IsSettled, IsStarted, mark_running-IsStarted,
}

abbrev running_task : Task
running_task = record {
  id = 7;
  clerk_user_id = codes "u";
  kind = refresh_keys;
  dedup_key = codes "refresh_keys";
  status = running;
  progress = 0;
  total = 0;
  message = none;
  result = none;
  error = none;
  created_at = 1;
  started_at = some 2;
  finished_at = none;
  updated_at = 2;
}

abbrev failed_task : Task
failed_task = record running_task {
  status = failed;
  error = some rate_limited;
  finished_at = some 4;
}

-- `fault` is the number of the statement that fails.
abbrev world : List Task → (ℕ → Bool) → World
world rows faults = record {
  sources = [];
  public_keys = [];
  scrape_history = [];
  profiles = [];
  tasks = rows;
  jobs = [];
  progress = [];
  deletions = [];
  env = record { faults = faults; statement = 0; ids = λ n. n + 10; drawn = 0; now = 5 };
}

abbrev no_fault : ℕ → Bool
no_fault _ = false

abbrev fault_at : ℕ → ℕ → Bool
fault_at k n = n == k

enqueue_again_example :
    let (r, w') =
      enqueue
        (codes "u")
        (codes "refresh_keys")
        0
        (λ id. refresh_keys_args id (codes "u"))
        refresh_keys
        (world (running_task ∷ []) no_fault) in
    (r ≡ ok running_task) × (w'.tasks ≡ running_task ∷ []) × (w'.jobs ≡ [])
enqueue_again_example =
    enqueue_again (codes "u") (codes "refresh_keys") 0 (λ id. refresh_keys_args id (codes "u"))
      refresh_keys (world (running_task ∷ []) no_fault) running_task (λ n. refl)
      (unfold is_active_for is_active text_eq in refl)

enqueue_fresh_example :
    let w : World = world (failed_task ∷ []) no_fault in
    let (r, w') =
      enqueue
        (codes "u")
        (codes "refresh_keys")
        0
        (λ id. refresh_keys_args id (codes "u"))
        refresh_keys
        w in
    let row : Task =
      new_row
        (record {
          id = 10;
          clerk_user_id = codes "u";
          kind = refresh_keys;
          dedup_key = codes "refresh_keys";
          status = some pending;
          total = 0;
          message = some (codes "Queued");
        })
        10
        5 in
    (r ≡ ok row)
    × (w'.tasks ≡ row ∷ failed_task ∷ [])
    × (w'.jobs ≡ refresh_keys_args 10 (codes "u") ∷ [])
enqueue_fresh_example =
    enqueue_fresh (codes "u") (codes "refresh_keys") 0 (λ id. refresh_keys_args id (codes "u"))
      refresh_keys (world (failed_task ∷ []) no_fault) (λ n. refl) (omega arith)
      (unfold is_active_for is_active text_eq in refl) refl

enqueue_refused_example :
    let w : World = world [] (fault_at 1) in
    let w' =
      (enqueue
        (codes "u")
        (codes "refresh_keys")
        0
        (λ id. refresh_keys_args id (codes "u"))
        refresh_keys
        w).1 in
    (w'.jobs ≡ [])
    × (keep (is_active_for (codes "u") (codes "refresh_keys")) w'.tasks
        ≡ keep (is_active_for (codes "u") (codes "refresh_keys")) [])
enqueue_refused_example =
    enqueue_refused (codes "u") (codes "refresh_keys") 0 (λ id. refresh_keys_args id (codes "u"))
      refresh_keys (world [] (fault_at 1)) database (omega arith) refl
      (unfold enqueue is_active in refl)

abbrev failing : Reporter → M ℕ
failing report = fail rate_limited

run-IsSettled_example :
    let w : World = world (running_task ∷ []) no_fault in
    let (o, w2) = failing (reporter 7) (mark_running 7 w).1 in
    let (r, w') = run (λ n. none) 7 failing w in
    (r ≡ settled_result o) × All (λ t. t.id ≡ 7 → IsSettled (λ n. none) o w2.env.now t) w'.tasks
run-IsSettled_example =
    run-IsSettled (λ n. none) 7 failing (world (running_task ∷ []) no_fault)
      (unfold mark_running is_active text_eq in refl)
      (unfold mark_running is_active text_eq in refl)

mark_running-IsStarted_example :
    let w : World = world (failed_task ∷ []) no_fault in
    let (r, w') = mark_running 7 w in (r ≡ ok tt) × IsStarted 7 w.env.now w.tasks w'.tasks
mark_running-IsStarted_example =
    mark_running-IsStarted 7 (world (failed_task ∷ []) no_fault) refl
      (unfold has_active_twin is_active text_eq in refl)

-- Reading a result gives nothing.
abbrev no_result : Text → Option ℕ
no_result _ = none

get_my_task-IsOwnTask_example :
    IsOwnTask no_result
      (codes "u")
      7
      (world (failed_task ∷ []) no_fault)
      (to_task no_result failed_task)
get_my_task-IsOwnTask_example =
    get_my_task-IsOwnTask no_result (codes "u") 7 (world (failed_task ∷ []) no_fault) 200
      (to_task no_result failed_task) (unfold get_my_task Repository.get text_eq in refl)

get_my_task_hidden_example :
    (get_my_task no_result (some (codes "v")) 7 (world (failed_task ∷ []) no_fault)).0
    ≡ (get_my_task no_result (some (codes "v")) 7 (world [] no_fault)).0
get_my_task_hidden_example =
    get_my_task_hidden no_result (codes "v") 7 (world (failed_task ∷ []) no_fault) failed_task refl
      (unfold text_eq in refl)

walk_lem_example :
    ((walk enqueue_refresh 2 0 (Samples.world [])).0 ≡ ok finished)
    ⊎ ((e : Error) × ((walk enqueue_refresh 2 0 (Samples.world [])).0 ≡ err e))
walk_lem_example = walk_lem 2 (Samples.world []) (omega arith)

-- A batch of one profile, and the empty one.
walk_example : (walk enqueue_refresh 2 0 (Samples.world [])).0 ≡ ok finished
unfolding walk Profiles.list enqueue_refresh Repository.create is_active text_eq
walk_example = refl
