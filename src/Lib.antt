-- ===== src/Lib.antt =====
-- A model of the NetProbe gateway: probes on a campus push measurements, the gateway checks and keeps
-- the latest of each probe, tells the probes what to measure, and lets an administrator manage them.
--
-- The parts and the files that model them:
--   Prelude: the helpers. Tests holds Boolean tests, Lists native lengths, Int Go's 64-bit integers
--     with their wrap-around, Text the order of strings and the functions of package strings that are
--     used, Sort sort.Strings and sort.Slice, GoMap a Go map as a list of entries in the order of one
--     iteration, Time instants and durations in nanoseconds.
--   Float64: float64 computed exactly, with rounding to nearest, ties to even.
--   Protocol: internal/protocol. Errors is errors.go, Types and Decode are types.go, Measurement and
--     Request are validate.go, Config and ConfigId are dispatch.go.
--   Latest: internal/latest/store.go.
--   Store: internal/store. Table is what the statements have in common, Probes is probes.go, Targets
--     targets.go, Catalog catalog.go, Settings settings.go and measurement.go. A table is the list
--     of its rows in the order of their IDs; a statement is a function on the rows that follows its
--     SQL text and the constraints of the schema.
--   Token: internal/token/token.go. Forms: what the forms of internal/portal/register.go and
--     internal/admin/probes.go have in common.
--   ClientIp: internal/clientip/clientip.go.
--   Config: internal/config/config.go.
--   RateLimit: the token bucket of golang.org/x/time/rate, as a record of operations.
--   Api: internal/api. Errors is errors.go, Limiter is limiter.go, Server, Authenticate and Push are
--     push.go, Targets is targets.go, Middleware is middleware.go.
--   Admin: internal/admin. Session is session.go, Server the state that server.go names, Auth auth.go,
--     Probes probes.go but for the creation of a probe, Targets targets.go, Campuses
--     campuses.go.
--   Metrics: internal/metrics/collector.go.
--   Portal: internal/portal. OneShot is oneshot.go, Limiter limiter.go, Server portal.go, Register
--     register.go.
--
-- A request runs through Api.Push: Authenticate asks Limiter about the address that ClientIp finds
-- and looks the token up, then come the probe's flag and bucket, Protocol.Decode, three reads of the
-- database, Protocol.Request on the allowlist and the ID of Protocol.ConfigId, and Latest.put.
-- A handler is a function from the state and what it reads to the next state and the answer; each
-- reading of the clock and each answer of the database is an argument. A mutex makes an operation of
-- a store one step, so a history is a list of calls. The functions of the source keep their names in
-- snake case; a loop body or a branch that has a name here is a helper of its own.
-- A registration runs through Portal.Register: the origin, the form, the catalog of the store, the
-- limit per address, the cap on probes, the insertion with a fresh ID, and the one-shot slot that the
-- page of the token redeems. The source runs it without a transaction: Portal.Register.Overlap takes
-- several registrations apart between the count of the probes and the insertion. A form of
-- Admin.Probes runs behind both guards of Admin.Auth.
--
-- Parameters: encoding/json, the parsers of packages strconv, time and mime, SHA-1, SHA-256, base64,
-- bcrypt, package net and the token bucket. Nothing is assumed of them but what a theorem names. What
-- a database driver does is an argument: a statement runs, is refused and leaves the rows alone, or
-- runs and does not tell how many rows it changed; a transaction that does not commit leaves nothing
-- behind.
--
-- Bounds: the halving loop of Float64 has a fuel of 4200, twice the bits of the largest finite
-- float64 in units of the smallest. The insertion of a registered probe has the five turns of the
-- source, and the digits of a number are written with the number as fuel. Nothing else runs on fuel:
-- the loops are structural. The clock does not read before 1970.
--
-- Not modelled: the log lines, the HTTP headers of answers, the templates and static files of the
-- pages, the wiring in cmd/gateway, and so far the migrations of internal/store, and in internal/admin
-- the creation of probes and the handlers of buildings and settings.
pub mod Admin
pub mod Api
pub mod ClientIp
pub mod Config
pub mod Float64
pub mod Forms
pub mod Latest
pub mod Metrics
pub mod Portal
pub mod Prelude
pub mod Protocol
pub mod RateLimit
pub mod Store
pub mod Token
