-- ===== src/Task/Periodic.antt =====
-- internal/infra/jobs/periodic.go: the walk over all profiles that queues a refresh for each.
pub mod Behind
pub mod Ends
use sshark_api.Base.{
  ℕ, zero, suc, ◌≤◌, ◌<◌, Bool, true, false, Option, none, some, List, [], ◌∷◌, if◌then◌else◌, ◌≡◌,
  ◌⊎◌, inl, inr, refl, sym, ap, ◌∙◌, subst, arith, ltb, keep, take, length, All, Bool-cases, ◌==◌,
}
use sshark_api.Base.Text.{Text, codes}
use sshark_api.Store.{
  Profile, Task, Kind, JobArgs, refresh_keys, refresh_keys_args, pending, task_already_running,
  new_id, attempt, fail, Env, Error, World, M, Result, ok, err, pure, ignore, ◌>>=◌, ◌>>◌,
}
use sshark_api.Store.Frame.{
  Maintains, Maintains-bind, Maintains-new_id, Ensures, Ensures-bind, Ensures-pure,
  Ensures-statement, Ensures-Maintains, Result-cases,
}
use sshark_api.Tables.Profiles
use sshark_api.Task.Repository
use sshark_api.Task.Repository.{NewTask}
use sshark_api.Task.Queue.{enqueue_refresh, enqueue, insert_job, kind_name}

abbrev pub refresh_batch_size : ℕ
refresh_batch_size = 100

-- Whether the walk came to the end of the profiles, or ran out of fuel.
pub data Walk : Type 0 where
  finished out_of_fuel : Walk

abbrev pub is_no_profile : List Profile → Bool
is_no_profile [] = true
is_no_profile (_ ∷ _) = false

-- `Enqueue` queues one user's refresh.
module _ (enqueue : Text → M Task) where
  -- The loop over a batch: the last identifier of it. A refresh that cannot be queued is logged.
  unfoldable pub queue_batch : List Profile → ℕ → M ℕ
  queue_batch [] after = pure after
  queue_batch (p ∷ batch) after = ignore (enqueue p.clerk_user_id) >> queue_batch batch p.id

  unfoldable pub walk : ℕ → ℕ → M Walk
  unfolding queue_batch
  walk zero after = pure out_of_fuel
  walk (suc fuel) after = do
    batch ← Profiles.list after refresh_batch_size
    if is_no_profile batch then pure finished else (queue_batch batch after >>= walk fuel)
