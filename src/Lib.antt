-- ===== src/Lib.antt =====
-- The gateway of LogMonitor, backend/gateway: who may see, share and delete uploads of logs, how
-- users sign in, how a log file becomes rows, and how an upload becomes jobs for the workers.
--
-- The parts and their files (sources below backend/gateway/internal):
--   Prelude         tests, lists and texts; a text is the list of its code points.
--   Store           store/*.go. Store.Tables has the rows and the database as one record of lists,
--                   in the order of insertion; Store.Grants, Users, Uploads, Mfa and Analyses have
--                   one action for each statement or transaction; Store.Rules says which only read;
--                   Store.Ingest has the statements of the transaction that stores an upload,
--                   Store.Dashboard, Series and Findings those of the dashboard and the
--                   searches. Tables that only the worker writes are arguments.
--   World           Postgres, Redis, the queue, the bucket and the time as one state, and the
--                   actions on it (`Exec`), which return a result or an error beside the new state.
--   Http, Api       httpx/httpx.go, and the `API` of handlers/handlers.go with the functions of
--                   other packages that it calls, as parameters.
--   Authz           authz/authz.go: `Resolve`, `Require` and the break-glass record.
--   RateLimit       ratelimit/ratelimit.go: counters that expire, locks, single-use codes.
--   Session         auth/session.go: tokens, cookies, the authenticated caller.
--   Queue           queue/queue.go: `PublishAnalysis` and its shards.
--   Handlers        handlers/*.go: one action for each handler, in the order of its code. A handler
--                   raises an early answer and returns a final one; `Http.serve` gives either.
--                   Handlers.Uploads.Ingest and Create are `ingest` and `createUpload`, whose
--                   result is an Option, since `Parse` may not end.
--   Parser          parser/parser.go and parser/zscaler/zscaler.go. Parser.Csv is the reader of
--                   encoding/csv as the parser sets it up, Parser.Zscaler.Header the header row,
--                   Parser.Zscaler.Values the cells of an entry, Parser.Zscaler the loop of `Parse`.
--   Filters         httpx/csrf.go, basicauth.go and headers.go, in front of the handlers as
--                   backend/gateway/cmd/gateway/main.go puts them.
--   Bytes           base64, base32 and hex of Go's standard library, as the gateway uses them.
--   Passwords       auth/password.go: the hash of a password as a text, and its check.
--   Secrets         mfa/mfa.go: the sealing of TOTP secrets, and recovery codes. `Validate` and
--                   `NormalizeRecoveryCode` stand with the handlers in Handlers.Mfa.
--   Blob            blob/s3.go and gcs.go over the clients of the two services.
--   Config          config/config.go: `Load`.
--   Server          Server.Routes is the table of `Routes` (handlers/handlers.go) and how the mux
--                   reads it, Server.Dispatch the handlers behind it and the chain of filters that
--                   backend/gateway/cmd/gateway/main.go puts before them.
--   Startup         the same main.go: `run` up to the point where it serves, and the commands;
--                   migrations/migrations.go.
--   Observability   obs/obs.go: the line that is logged for a request.
--   Examples        a small organization on which the definitions and the theorems are run.
-- A handler calls the limiter, the session, authz, the store and the queue; each of these changes
-- only its own part of `World`.
--
-- Conventions. A uuid is a number, and a new one is the next that was not given out. Times and
-- durations are in seconds; the time does not pass within one action, and moves freely between
-- actions. `World.faults` says, call by call, which round trips to Postgres, Redis or the bucket
-- fail, so that a theorem over all worlds is one over all failures; a transaction that fails
-- changes nothing. Of the database's constraints the unique e-mail and slug, the unique indexes on
-- grants, the enum of levels, the CHECK on analyses and the cascade from uploads are modelled; a
-- break of any other counts as a fault. The handlers take a decoded body: one that is refused is
-- `none` (Http.Decode).
-- A window or shard size that is not positive is 0. The sums of the shard count wrap at 64 bits;
-- other numbers are exact. Case folding is exact for ASCII and the two letters that fold into it.
-- An argon2 hash that cannot be read answers as a wrong password. Loops are structural recursion,
-- but for that of `Parse`, which runs on fuel, one round for each answer of the csv reader: more
-- fuel than answers is enough where the file ends. A stream is what HeadReader peeks and those
-- answers; a csv reader never gives a malformed record under LazyQuotes, but passes on the errors of
-- the stream under it. The functions of strconv, time and net/netip that read cells are parameters
-- (`Formats`). A transaction is a copy of the database, requests run one at a time, and partitions
-- are not seen. The order in which Go ranges over a map is a parameter. A log file is a
-- text of one-byte characters.
--
-- Not modelled: what the handlers write to the log, the counting behind the figures of the process,
-- the dummy hash that evens out the time of a login, the headers of a handler's response other than
-- cookies and Retry-After (those that every response gets stand in Filters.Headers), the findings'
-- confidence as last sort key, the compression of archives and the goroutine that writes them, the
-- ranking and the distance of the searches (parameters), the texts of findings, the SQL of the
-- migrations, how the clients of the clouds are made, the shutdown, and what is not Go.
mod Prelude
pub mod Bytes
pub mod Store
pub mod World
pub mod Authz
pub mod Http
pub mod Api
pub mod Passwords
pub mod Secrets
pub mod Blob
pub mod Config
pub mod RateLimit
pub mod Session
pub mod Queue
pub mod Parser
pub mod Filters
pub mod Handlers
pub mod Server
pub mod Startup
pub mod Observability
pub mod Examples
