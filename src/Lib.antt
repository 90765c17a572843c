-- ===== src/Lib.antt =====
-- Verification of the platform service (directory api/): the part in Go that keeps operators,
-- sessions, tokens, restore requests and operator cases in MySQL and serves them over HTTP.
--
-- The program has three layers. The middleware of api/middleware decides who a request comes from
-- and whether it may pass. The handlers of api/myhandlers read the request, call the store and append
-- an audit event. The store of api/authstore changes the tables. A table is a list of rows here, a
-- method of the store is a function from the tables to a result and the tables behind it, and a
-- handler is one from the world it changes to a reply and that world.
--
-- Shared parts:
--   Prelude        Boolean tests on native numbers, lists, signed integers, texts as lists of bytes
--   Strings        package strings: TrimSpace, HasPrefix, EqualFold; Strings/Trim on what is trimmed
--   Strconv        package strconv: Atoi, Itoa; Strconv/RoundTrip on reading what was printed
--   Sql            what a statement can do (Sql), rows and unique keys (Sql/Rows, Sql/Keys), pages of
--                  the newest rows (Sql/Order)
--   Http           replies, the request's context, api/middleware/platform_subject.go; Http/Subject;
--                  Http/Query on the parameters of list endpoints
--   Audit          api/authstore/admin_audit.go, and InsertAudit of api/authstore/store.go
--
-- Components, each with its tests in a module Tests:
--   Backup         api/authstore/backup_restore.go. Backup/Effects says what a call can do to the
--                  table, Backup/Valid and Backup/Invariant what it keeps, Backup/Traces and Backup/Lifecycle
--                  what holds over sequences of calls, Backup/Phases an abstract machine of one
--                  request, Backup/Refinement and Backup/Restored the store against it,
--                  Backup/Decisions and Backup/Errors what the calls answer, Backup/Listing pages;
--                  Backup/Handlers is api/myhandlers/platform_backup_restore_handlers.go
--   Session        the sessions of api/authstore/store.go (CreateSession, RevokeSessionByRawToken,
--                  ValidateSession, RefreshSession) and RevokeAllSessionsForUser of
--                  api/authstore/user_auth.go; Session/Lifetime on sequences of calls,
--                  Session/Answers on single ones
--   Token          api/auth/token.go; Token/Rotation on the change of the secret; Token/Endpoints the
--                  token, bootstrap and join endpoints of api/myhandlers/auth_handlers.go
--   Exchange       CreateDesktopExchangeCode and RedeemDesktopExchangeCode of
--                  api/authstore/store.go; Exchange/Once on sequences of calls, Exchange/Tokens the
--                  texts, Exchange/Handler the two desktop endpoints of api/myhandlers/auth_handlers.go,
--                  Exchange/Handler/Verified and Exchange/Handler/RoundTrip on its replies
--   Rbac           api/platformrbac/permissions.go (Rbac, Rbac/Perm), the query of
--                  api/authstore/platform_rbac.go (Rbac/Roles), api/middleware/rbac.go and human.go
--                  (Rbac/Gate); Rbac/Policy on what the role table separates
--   Middleware     api/middleware/auth.go (Middleware/Auth), csrf.go and privileged.go
--                  (Middleware/Csrf), ratelimit.go and ratelimit_redis.go (Middleware/Limit);
--                  Middleware/Guarded on the authentication with the check of a permission
--   Throttle       api/myhandlers/login_throttle.go; Throttle/Lockout on sequences of logins
--   Cases          api/authstore/operator_cases.go; Cases/Valid, Cases/History, Cases/Answers and
--                  Cases/Listing as for Backup; Cases/Handlers is api/myhandlers/cases_handlers.go
--   Accounts       api/authstore/user_auth.go and identity.go on the tables of users, operator
--                  accounts, invites and identities; Accounts/Invites is operator_identity.go.
--                  Accounts/Steps on sequences of calls, Accounts/Once what holds over them,
--                  Accounts/Refused on errors, Accounts/Granted on the role that an acceptance gives
--   Password       api/auth/password.go; Password/Base64 and Password/Scan the parts of a hash's text,
--                  Password/RoundTrip what a hash verifies
--   Login          api/myhandlers/auth_session_handlers.go: Login/SignIn is LoginUser, Login/Invites
--                  the two invite endpoints, Login/Sessions logout, refresh and the CSRF cookie;
--                  Login/Passwords is change_password.go. Login/Verified, Login/Changed and
--                  Login/Lockout are about single endpoints, Login/Enters about a database that answers;
--                  Login/Journey follows an invite up to the session
--   Oidc           TryResolveAuthSubject of api/auth/oidc.go; Oidc/Stable on sequences of calls
--   Users          api/myhandlers/sqlhandlers.go; Users/Gone on deletion, Users/Listed on the list
--   Platform       the roles of the caller, the audit list, the support acknowledgement and the stubs
--                  of api/myhandlers/platform_handlers.go, and Ready of api/myhandlers/myhandlers.go
--   Ledger         api/authstore/economy_ledger.go and its endpoint in platform_handlers.go
--   Config         Load of api/config/config.go; Config/Bounds on what it returns
--
-- How the code is read. The schema is that of migrations/schema_golden.sql.
-- A statement of the database ends in one of three ways (Sql.Outcome): it is
-- done, it has failed, or its effect is there and the answer is lost. A call of the store gets these
-- ends by the number of the statement, with the clock of the program and that of the database. SELECT … FOR UPDATE keeps its row until
-- the COMMIT. An UPDATE counts the rows whose values change, as MySQL does unless the connection asks
-- otherwise. A unique key refuses a second row, that of
-- the identities one with the same first 255 characters under the collation; the other constraints of the schema show as a
-- statement that has failed. Ids of rows are natural numbers, user ids signed integers; times are
-- seconds in natural numbers. The limits of int64 are written out in Strconv, where texts become
-- numbers; no id or counter comes near them. Loops are recursions on lists. TrimSpace and the digits
-- of a number run on fuel: the length of the text, and the number itself plus one, which is enough
-- since each round takes a byte or divides by ten.
--
-- Parameters, for code outside the repository: SHA-256 of opaque tokens (`hash`) and of verifiers
-- (`pkce`), Argon2id (`id_key`, and the hypotheses that its keys are bytes of the length asked for),
-- signing and verifying of golang-jwt (`sign`, `verify`, and the hypothesis `verifies` that it accepts
-- what it has signed), the verifier of go-oidc, `json.Marshal` of maps (`marshal`), the parsers of
-- URLs, mail addresses (`parse_address`), network prefixes (`is_prefix`) and RFC 3339 times
-- (`parse_time`), the answers of Redis, the random bytes, and of the database the collation of a text
-- column (`collates`) and LIKE.
--
-- Not modelled: letters outside of ASCII in ToLower and EqualFold, the texts and details of error replies and the JSON of rows, logging, contexts with
-- their deadlines, and the lifetimes and flags of cookies; api/main.go, which wires routes and
-- processes, opening the database, the client of Redis, request ids, CORS and security headers, and
-- the programs of api/cmd, which test a running server, the API description and the schema; the
-- clients, the migrations and the deployment. A request of the in-process limiter is one step, since
-- it runs under a mutex; two calls of the store interleave as whole calls, except that a validation
-- of a session may be split between its two statements.
pub mod Prelude
pub mod Strings
pub mod Strconv
pub mod Sql
pub mod Http
pub mod Audit
pub mod Backup
pub mod Session
pub mod Token
pub mod Exchange
pub mod Rbac
pub mod Middleware
pub mod Throttle
pub mod Cases
pub mod Accounts
pub mod Password
pub mod Login
pub mod Config
pub mod Users
pub mod Oidc
pub mod Platform
pub mod Ledger
