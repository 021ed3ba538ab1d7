-- ===== src/Workers.antt =====
-- The workers of internal/infra/jobs/jobs.go: a job's operation, run behind its task. json.Marshal of a
-- summary is a parameter.
pub mod Revocation
mod Tests
use sshark_api.Base.{ℕ, Option}
use sshark_api.Base.Text.{Text}
use sshark_api.Store.{JobArgs, refresh_keys_args, revoke_key_args, M}
use sshark_api.Task.Queue.{run}
use sshark_api.KeyOps.{Service, RefreshSummary, RevokeSummary, refresh, revoke}

module _ (service : Service) where
  -- RefreshKeysWorker.Work
  unfoldable pub work_refresh : (RefreshSummary → Option Text) → ℕ → Text → M (Unit {0})
  unfolding run refresh
  work_refresh marshal task_id subject =
      run marshal task_id (λ report. refresh service subject report)

  -- RevokeKeyWorker.Work
  unfoldable pub work_revoke : (RevokeSummary → Option Text) → ℕ → Text → ℕ → M (Unit {0})
  unfolding run revoke
  work_revoke marshal task_id subject key_id =
      run marshal task_id (λ report. revoke service subject key_id report)

  -- What the queue does with a job that it takes up.
  unfoldable pub work :
      (RefreshSummary → Option Text) → (RevokeSummary → Option Text) → JobArgs → M (Unit {0})
  unfolding work_refresh work_revoke
  work marshal_refresh marshal_revoke (refresh_keys_args task_id subject) =
      work_refresh marshal_refresh task_id subject
  work marshal_refresh marshal_revoke (revoke_key_args task_id subject key_id) =
      work_revoke marshal_revoke task_id subject key_id
