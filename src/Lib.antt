-- ===== src/Lib.antt =====
-- CrypticQuest backend: a capture-the-flag game over HTTP, with its players, sessions, levels, hints
-- and tools in SQLite. This library models the store, the handlers and the session middleware as
-- functions on the tables, and proves what makes them correct together.
--
-- The parts, from the database up:
--
-- - Schema: the six tables of migrations/*.up.sql as lists of rows, with the counters of
--   AUTOINCREMENT. Ids and order_index are int64 values, kept as integers: the code never computes
--   with them but for the `level - 1` of SetUserProgressToLevel, whose wrap-around is written out.
-- - Engine: the handle of internal/store/store.go. An action takes the database to a result and a
--   database; `exec` runs a statement, `transaction` is Begin, a deferred Rollback and Commit. The
--   list `faults` of a database says of each coming statement whether it fails for a reason outside
--   the tables (I/O, a lock), and past its end no statement does: a theorem for `faults ≡ []` is
--   about a run without such failures, and one for any database covers them all.
-- - Store: internal/store, a module for each file and a definition for each method and each SQL
--   statement (insert_user is the INSERT of CreateUser, create_user the method). An ON DELETE CASCADE
--   or SET NULL of the schema is part of the statement that deletes. Store/Integrity has the
--   constraints of the schema as the invariant IsConsistent, Store/Write all writing methods as one
--   type, and Store/Access the gate that decides which levels a player may see.
-- - Text: strconv.ParseInt, strings.ToLower, strings.TrimSpace and len on strings, by code points.
--   The lower-case mapping of code points from 128 on is a parameter, the Unicode table.
-- - Http: a response as its status, its session cookies and the value encoded as JSON; a handler is
--   an action in which an early return is an error.
-- - Middleware: RequireLogin and RequireAdmin of internal/middleware/auth.go, as functions of the
--   handler behind them. The three readings of the clock in a request are given. A time is in
--   nanoseconds; the column of the expiry keeps whole seconds. Middleware/Cors has CORS of
--   internal/middleware/cors.go, its list of origins given, and Middleware/Logging the status recorder,
--   Logging and Recover of internal/middleware/logging.go, over the calls that a handler makes.
-- - Handlers: internal/handlers. Handlers/Player has me.go, levels.go, hints.go, tools.go and
--   submit.go, Handlers/Account register.go, login.go and logout.go, and Handlers/Admin the
--   handlers behind RequireAdmin. Their children have the theorems; under
--   Handlers/Player/Submit, Counter has an abstract game that SubmitFlag refines.
-- - Files: files.Open over a disk that is given, with the path check of fs.ValidPath written out, and
--   in Files/Tree files.List over a tree of files, which also gives a disk for files.Open;
--   Handlers/Files has the two gated downloads of internal/handlers/files.go.
-- - Routes: the table of internal/handlers/routes.go, each route with the middleware it runs behind;
--   what http.ServeMux matches is given. Routes/Content and Routes/Integrity are about all requests.
-- - Server: bootstrapAdmin of cmd/server/main.go.
-- - Config: Load of internal/config/config.go over an environment, and the attributes of the session
--   cookie of internal/auth/cookie.go; strings.Split and strings.TrimSpace are in Text/Parts.
-- - Auth: GenerateTempPassword and GenerateSessionToken of internal/auth over the bytes that
--   crypto/rand gives, with base64.RawURLEncoding written out.
-- - Seed: load of cmd/seed/main.go, statement by statement. Seed/Content says what it is to leave,
--   Seed/Exact that it does, and Seed/Faults what holds when statements fail.
-- - Tests: a small database, runs of the definitions and the theorems at it.
-- - Base: shared names, and the statements on tables as functions on lists, with their laws.
--
-- A request body is what json.Decoder gives for it, none where it refuses it. bcrypt, crypto/rand and
-- files.List are given by their results where a handler calls them. Loops over rows and over texts are by recursion on the
-- lists, so no fuel is needed.
--
-- How the parts meet: a handler calls store methods in sequence, each a statement or a transaction
-- of its own. Statements of other requests may come between those; Store/Write/Integrity
-- covers every order of whole writes, Handlers/Player/Submit/Interleaved the statements of any number
-- of submissions in any order, among writes that leave the levels and the solves alone and deletions of accounts, and the other theorems on handlers are about a handler that runs
-- without another between its statements.
--
-- Not modelled: strings that are not valid UTF-8, the gaps that SQLite leaves in the ids of
-- user_progress, links on the way of a path, the text of JSON, log lines, HTTP headers other than the session cookie and those of
-- CORS, the matching of paths, the streaming of files, and the wiring of both mains.
pub mod Base
pub mod Schema
pub mod Engine
pub mod Store
pub mod Text
pub mod Files
pub mod Http
pub mod Middleware
pub mod Handlers
pub mod Routes
pub mod Server
pub mod Auth
pub mod Config
pub mod Seed
pub mod Tests
