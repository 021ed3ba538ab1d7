-- ===== src/Store.antt =====
-- The data that the services share: the rows of the tables in db/migrations, the errors of the
-- packages under internal/domain, and the state that a call reads and leaves.
pub mod Rows
pub mod Monad
pub mod Frame
pub mod Returns
pub use Rows.*
unfoldable pub use Monad.*
