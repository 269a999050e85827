-- ===== src/Lib.antt =====
-- Verification of gouterstellar-platform, a set of Go libraries for web applications.
--
-- The repository has no program of its own: each package is a library with a policy around a
-- third-party one, and an application wires them together. The packages do not call one another; the
-- middleware of auth and web and the workflow packages meet only in the application's handlers.
--
-- Modules, and the files that they model:
--   Base, Text         what the packages use of Go: results with errors, signed integers, strings as
--                      lists of bytes, strings.TrimSpace, strings.Split, utf8.RuneCountInString
--   Auth.Passwords     auth/password.go
--   Auth.Sessions      auth/session.go
--   Auth.Tokens        auth/token.go
--   Auth.Jwt           auth/jwt.go
--   Auth.Totp          auth/totp.go
--   Group              group/group.go
--   Member             member/member.go
--   Faq                faq/faq.go
--   Migration          migration/runner.go
--   DurableFile        durablefile/durablefile.go, durablefile/syncdir.go and
--                      durablefile/syncdir_windows.go: Locks has the registry of locks, Replacing the
--                      writing and replacing of files
--   I18n               i18n/i18n.go
--   Ui                 ui/shell.go and ui/renderer.go
--   Web                web/headers.go, web/json.go and web/csrf.go
--   Observability      observability/tracing.go
--
-- How state and operations correspond: a Go method that changes a receiver or a store takes the old
-- state and gives the new one with its result. An interface that the application implements (Store,
-- PrincipalResolver) and a third-party library (scs, argon2id, golang-migrate) is a record of
-- functions over an abstract state; what a theorem relies on of it is a named hypothesis
-- (IsManager, Creates, IsLawful, Keeps, IsSystem, IsDir, IsHealthy, IsFramed, IsDirectories,
-- IsLibrary, IsTelemetry, IsInstruments), which the tests fill with a concrete one. Go contexts are
-- left out but for the principal and the nonce that middleware puts there. A result (value, error) is
-- an ok or an err.
--
-- Values that are shared by pointer are values here, except where sharing matters: the roles and
-- claims of a principal (Auth.Sessions.Sharing) and HTTP clients (Observability.Packages) live on a
-- heap with addresses.
--
-- An unsigned field is a number and keeps its wrap-around where the code computes with it; int and
-- time.Duration are signed integers. The only sums on these are of a time and a duration in Auth.Jwt,
-- where the code bounds the duration first.
--
-- The locks of durablefile are a step relation: a goroutine's steps are the two sections under the
-- registry's mutex, the locking and the unlocking, and those of all goroutines interleave freely.
--
-- Loops go over lists, but for the walk up to the first directory that exists, in
-- DurableFile.Replacing, which recurs on fuel: two more than the length of the path, which is enough
-- since a parent is shorter until it is its own parent.
--
-- Not modelled: the templates' HTML and the loading and committing of sessions by scs. CSRFToken and
-- CSRFField of web/csrf.go are calls of the library csrf. Provider of observability reads a field.
pub mod Base
pub mod Text
pub mod Group
pub mod Member
pub mod Faq
pub mod Migration
pub mod Auth
pub mod DurableFile
pub mod I18n
pub mod Ui
pub mod Web
pub mod Observability
