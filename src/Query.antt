-- ===== src/Query.antt =====
-- The search language of internal/domain/query (its syntax tree and values) and the SQL builder of
-- internal/infra/query/postgres. The grammar itself is run by the library participle, which is not
-- part of the repository; its result, the syntax tree, is the input here.
pub mod Ast
pub mod Value
pub mod Builder
pub mod Basic
pub mod Parse
mod Tests
