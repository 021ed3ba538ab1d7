-- ===== src/Lib.antt =====
-- sshark-api: an index of the public SSH and GPG keys of GitHub and GitLab accounts. A scraper fetches
-- users and their keys from the providers into PostgreSQL; a public API searches the keys and shows
-- sources and profiles; signed-in users (Clerk) claim a username, refresh their keys, and revoke keys
-- at the provider, through tasks that a job queue (River) works off.
--
-- The parts, and the files that model them:
--   Base                the shared lists, texts and Boolean tests.
--   Query               internal/domain/query/ast.go (Query/Ast, Query/Value) and parser.go
--                       (Query/Parse), the WHERE clause builder internal/infra/query/postgres
--                       (Query/Builder), and the basic search term of api/public/v1/sshsearch.go
--                       (Query/Basic).
--   Username            internal/domain/profiles/username.go.
--   Store               the entities of internal/domain as rows (Store/Rows), a call as a function on the
--                       tables (Store/Monad), and what calls maintain and return (Store/Frame,
--                       Store/Returns).
--   Tables              the repositories of internal/infra/{publickeys,sources,profiles}/postgres, one
--                       definition for each method.
--   Task                internal/infra/tasks/postgres (Task/Repository) and internal/infra/jobs
--                       (Task/Queue): queueing work once, running it, settling its task; and the
--                       endpoints of api/authenticated/v1/tasks.go (Task/Handlers) and the periodic
--                       refresh of internal/infra/jobs/periodic.go (Task/Periodic).
--   Identity            internal/infra/identity/clerk.go: the accounts a user has proved to own.
--   Api                 the problems of api/common/common.go.
--   Claims              api/authenticated/v1/profile.go: default and claimed usernames.
--   Scraper             internal/domain/scraper and internal/infra/scraper/service.go: syncing keys
--                       (Scraper/Sync) and scraping users (Scraper/User).
--   KeyOps              internal/app/keyops/service.go: refresh and revoke.
--   Public              api/public/v1/{sources,sshkeysget}.go, userprofile.go (Public/UserPage), and
--                       stats.go (Public/Statistics, over Tables/Sources/Stats).
--   Auth                internal/middleware/auth.go.
--   MyKeys              api/authenticated/v1/keys.go: the keys of a signed-in user.
--   Session             api/authenticated/v1/me.go, and the API keys of impl.go (Session/ApiKeys).
--   Search              api/public/v1/sshsearch.go and gpgsearch.go, over SearchWithQuery
--                       (Tables/Keys/Query).
--   Parsers             internal/infra/fetchers/sshparse and gpgparse.
--   Fetchers            internal/infra/fetchers/github and gitlab.
--   KeyManagers         internal/infra/providers/github and gitlab.
--   Workers             the two workers of internal/infra/jobs/jobs.go, over Task/Queue and KeyOps.
--   Samples             the data that the tests share.
--
-- How they interact: the handlers of Claims, Public, MyKeys and Search and the operations of KeyOps call
-- the methods of Tables and the functions of Identity; MyKeys queues work with Task; KeyOps calls the
-- scraper; the Workers run an operation of KeyOps behind a task, with a reporter that updates it. All
-- share one state, the `World`: the tables, the requests sent to
-- providers, and an environment.
--
-- How code is translated. A method that uses the database is a function from the world to a result and
-- the world after it. Each statement may fail, and so may the reading of a query's rows, between any two
-- of them, where the code does not ask rows.Err: the environment says which (`faults`), so a theorem
-- without a hypothesis on it holds whichever statements fail. A transaction is undone as a whole. The
-- UNIQUE constraints and the ON DELETE clauses of db/migrations are part of the statements. The
-- identifiers that uuid.New draws and the time come from the environment. A UUID is a number, a time a
-- number of seconds, a text a list of code points; `database` is any failure of a statement that no code
-- tells apart, and wrapping an error keeps it. Loops over lists are structural recursion. On fuel
-- run the digits of a number, which get more than the number has, the suffixes of a default username,
-- of which the code tries 21, the rounds of the scraper's Run, as many as its context lasts, and the
-- walk of the periodic refresh, for which more fuel than there are profiles is enough.
--
-- What is assumed. Letters beyond ASCII have no other case (strings.ToLower, strings.EqualFold, CITEXT);
-- a Clerk identifier is ASCII, so that its bytes are its characters; rows with equal sort keys, and
-- the entries of a Go map, are visited in the order of the model. Clerk, River, the HTTP
-- client of go-shared, the participle parser, PostgreSQL's reading of a search clause, OpenPGP, base64,
-- SHA-256 and json.Marshal are inputs or parameters. An int64 is its two's complement where the code
-- subtracts or tests its sign (Base/Int64); other integers do not reach their bounds.
--
-- Not modelled: the grammar of queries, which participle runs (lexer.go); metrics, logs, wiring, the
-- methods of servers that only pass a call on, generated code and deployment.
pub mod Base
pub mod Query
pub mod Username
pub mod Store
pub mod Task
pub mod Tables
pub mod Api
pub mod Identity
pub mod Claims
pub mod Scraper
pub mod KeyOps
pub mod Public
pub mod Auth
pub mod MyKeys
pub mod Session
pub mod Parsers
pub mod Fetchers
pub mod KeyManagers
pub mod Search
pub mod Workers
pub mod Samples
