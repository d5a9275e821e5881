-- ===== src/Lib.antt =====
-- KrateAI: a registry of agent plugins, with a server (internal/api over internal/registry), stores
-- (internal/store) and a command line client.
--
-- A request reaches a handler of internal/api, which calls internal/registry, which keeps users, tokens,
-- plugins and versions in a metadata store (SQLite here) and tarballs in a blob store (a directory here).
-- In front of the handlers stand rate limits and, for logins, a lockout.
--
-- The modules, with the code each is about:
--   Base                   helpers: Boolean tests, lists, byte strings, Go errors as values
--   World                  the tables, blobs, mails, clock, randomness and failures that a call sees,
--                          and the monad `M` in which calls are written; its children hold the
--                          reasoning: World.Keeps for invariants, World.Ensures for what a success means
--   Store                  internal/store/store.go
--   Sqlite                 internal/store/sqlite/sqlite.go; the children follow the methods
--   Fsblob                 internal/store/fsblob/fsblob.go
--   Registry               internal/registry/registry.go
--   Auth, Auth.Lockout     internal/auth/auth.go and internal/auth/lockout.go
--   Middleware             internal/api/middleware
--   Api                    internal/api: the handlers for accounts, tokens and publishing
--   Manifest               internal/manifest/manifest.go
--   Pack                   internal/pack/pack.go: packing and unpacking archives
--   Program                computations over any state, for the programs below, with kinds of
--                          reasoning: Program.Runs for what success and failure lead to, Program.Gives
--                          for computations that always succeed
--   Process                what a command works on: disk, temporary file, answers of servers, terminal
--   Cli                    cmd/krate: the command line client
--   Web                    internal/web: the ages of versions
--   Crawler                internal/crawler: discovering plugins and mirroring them
--   Path                   packages path, path/filepath and strings as far as the code calls them
--   External               what comes from outside: sha256, bcrypt, semver, JSON
--   Tests                  runs of the model, and the theorems at concrete inputs
--
-- Functions keep the names of the source in lower case with underscores. A Go function that returns an
-- error is a computation in `M`: it takes a `World` and gives a `Result` and the next `World`. Each
-- access to a driver, a file or the network takes the next entry of a list of faults, so a theorem about
-- every world covers every pattern of failures. Each look at the clock takes the next step of a list of
-- durations. A transaction that fails puts the tables back. The recursion of every function is
-- structural, on a list of calls, entries or segments, so none needs fuel.
--
-- A time is a number of nanoseconds, a stored timestamp a number of whole seconds, as RFC 3339 has it.
-- Texts are lists of bytes. The type float64 of the rate limiter is a parameter with its operations; what a
-- theorem needs of it is what IEEE 754 says of natural numbers up to 2 ^ 53.
--
-- Not modelled: the PostgreSQL and S3 stores and the Redis limiters, which are calls of drivers; the web
-- pages but for the ages they show, mail over SMTP, logging, and the setup of the server; full-text search,
-- which SQLite answers; the regular expressions that the crawler reads its list with; the flags and the dispatch of the
-- client, and its command pack, whose archive can lie in the directory that it reads.
--
-- The disk of a command is a map from cleaned paths, as the code names them from the working directory,
-- to files; two names of one file, as through a symbolic link, are two files; only os.RemoveAll looks at
-- where a path lies from the working directory. The answers of the servers
-- come from a list, one for each request, so a theorem covers every server.
pub mod Base
pub mod Store
pub mod Path
pub mod World
pub mod Program
pub mod Process
pub mod Cli
pub mod Web
pub mod Crawler
pub mod Sqlite
pub mod Fsblob
pub mod Manifest
pub mod External
pub mod Registry
pub mod Tests
pub mod Auth
pub mod Middleware
pub mod Pack
pub mod Api
