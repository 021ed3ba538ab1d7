-- ===== src/Task.antt =====
-- The tasks that a user can watch: internal/domain/tasks, its PostgreSQL repository
-- internal/infra/tasks/postgres, and the queue of internal/infra/jobs.
pub mod Repository
pub mod Queue
pub mod Handlers
pub mod Periodic
mod Tests
