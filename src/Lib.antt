-- ===== src/Lib.antt =====
-- The back end for users and authentication of this repository: accounts with passwords or a
-- Google identity, sessions by pairs of an access token and a rotating refresh token, e-mail
-- verification, password recovery, and routes for administrators that ask for permissions.
--
-- The parts and their files:
--
-- Core (crates/core): roles, users, and the error type with its messages for failed checks.
-- Db (crates/db, migrations): the tables as lists of rows and each SQL statement as a function
--   of the database's time, an id that it may draw, and the tables; `store_refresh_token` and the
--   like run one statement each. Connection is `connect` and `run_migrations` of lib.rs. Frames and
--   Program say which statements keep which invariants, Consistent has the keys and references of
--   the schema as one, and RefreshTokens/Store is what the refresh tokens promise to their callers.
-- Auth (crates/auth): password hashes, opaque tokens and their hashes, access tokens with
--   `issue` and `verify`, `load_permissions` and `require`, and the Google client.
-- Env: what the program calls and does not implement, with one answer for each effect: the
--   clocks, random sources, faults of the database, the other requests, and the functions of
--   argon2, sha2, hex, jsonwebtoken, validator, oauth2 and reqwest. It has no laws.
-- App: an asynchronous function as an action on a world, which has the tables, the number of
--   effects made, and the mails spawned. Before each statement `others` may change the tables as
--   other requests would, and each statement may fail before or after it took effect, so that
--   an environment stands for one interleaving of a handler with others at its statements.
--   Inversion walks along an action that returned, Keeps carries invariants, Quiet is about
--   actions that mail nothing, and Forward runs an action whose first effect is known.
-- Api (crates/api/src): Error is error.rs, Extract is middleware/auth.rs, Auth is routes/auth.rs
--   with a file for each group of handlers, Admin and Users are routes/admin.rs and
--   routes/users.rs, Router is the routing of all of them, Config is config.rs, State and Server
--   are state.rs, Server is also lib.rs, Cli is main.rs, Host is what they find around the process,
--   Email is email.rs, Openapi is openapi.rs and the attributes of the handlers, CreateAdmin is
--   commands/create_admin.rs, and Validate is the `validate` attributes of the request bodies. The
--   folders below a file hold what is proved about it.
-- Tests: the handlers run in a small environment.
--
-- A handler has the name of its function. An early return is `raise_if`, `?` is the bind of the
-- `do` block, and `let _ =` is `attempt`. Times are nanoseconds from the Unix epoch as integers
-- without bound, where the `time` crate panics on overflow; `i64` arithmetic wraps at 64 bits, as
-- a release build does. A uuid is a number. Two e-mail addresses are equal when the environment's
-- `citext_key` makes them so. Every loop is structural, so there is no fuel.
--
-- How axum runs the routes, and how many at a time, is a parameter of the host; what other requests
-- do between two statements of a handler is the environment's `others`. What is said of a sequence
-- of requests is said of requests that begin one after the other.
--
-- Not modelled: the schemas of the OpenAPI document and the Swagger UI, tracing, the signal
-- handler, the parsing of arguments and request bodies, what sqlx, the `config` crate, lettre and
-- axum do inside, and the SQL columns that no statement names.
pub mod Base
pub mod Core
pub mod Db
pub mod Auth
pub mod Env
pub mod App
pub mod Api
pub mod Tests
