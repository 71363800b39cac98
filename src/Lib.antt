-- ===== src/Lib.antt =====
-- neokit: boot, wiring, background work, caching and teardown for long-running services in Go.
--
-- A service is built by app.New (app/app.go), which pushes the exports' teardown on a stack
-- (lifecycle/lifecycle.go) and mounts the probes (health/). While it runs, background work
-- stands on supervised goroutines (safe/), periodic and daily jobs (jobs/) run on them, upstream
-- calls go through guarded HTTP clients whose errors are classified (httpc/) and whose answers
-- are cached (cache/), events fan out on a bus (pubsub/) and to browsers (webpush/delivery/),
-- operators are notified (notify/), errors and conditional requests are answered in one way
-- (fiberx/), capabilities of components are looked up (capset/), sessions live by a policy
-- (session/), a browser signs in at an identity provider (oidcauth/) through a gate that issues
-- and resolves those sessions (oidcauth/fiberauth/), the database is opened and migrated (sqlitex/)
-- and copied once a day (backup/). app.Run (app/run.go) ends by unwinding the stack.
--
-- Files, and the code that each one models:
--   Base, Base/*          numbers, integers, lists, association lists and tests that the parts share
--   Text, Text/Trimming   Go strings as lists of code points, with TrimSpace, TrimPrefix, Split, Fields, Join
--   Strconv, Strconv/*    strconv.Atoi, strconv.Itoa and the 64-bit wrap of int64
--   Clock                 time.Time, time.Duration and clock/clock.go (Fake)
--   Session, Session/Policy session/session.go (Session, Identity), session/policy.go (Policy)
--   Session/Sqlite, Sqlite/* session/sqlite.go: the rows, each write and the read by token
--   Session/Store         session/session.go (Store), the interface that the gate takes and that
--                         Sqlite/Stored fills
--   Oidcauth              oidcauth/config.go (Config, Normalize, Configured), oidcauth/identity.go
--   Oidcauth/Errors       oidcauth/errors.go, and discoveryErr, exchangeErr, clientWasRejected
--   Oidcauth/Provider     oidcauth/provider.go: New, discover, AuthorizeURL, Exchange, IsOwner,
--                         EndSessionURL, CheckHealth
--   Oidcauth/Login, Settings, Sentinels   what a login yields, what Normalize guarantees, and how the
--                         failures are classified
--   Oidcauth/Sweep, Sweep/* oidcauth/sweep.go: SweepJob, and its runs over the SQLite store
--   Fiberauth             oidcauth/fiberauth/gate.go, oidcauth/fiberauth/cookies.go
--   Fiberauth/Sanitize    SafeReturnPath and boundedDescription; Fiberauth/Sanitized is what they yield
--   Fiberauth/Handshake, Handshake/* oidcauth/fiberauth/handshake.go: login, callback, issueSession
--   Fiberauth/Logout      oidcauth/fiberauth/handshake.go: logout
--   Fiberauth/Routes      oidcauth/fiberauth/handshake.go: register
--   Fiberauth/Middleware, Middleware/* oidcauth/fiberauth/middleware.go, oidcauth/fiberauth/sessions.go
--   Fiberx/Errors, Errors/* fiberx/errors.go
--   Fiberx/Concurrency, Concurrency/* fiberx/concurrency.go, fiberx/etag.go (ETagMatches)
--   Fiberx/Etag, Etag/*   fiberx/etag.go
--   Fiberx/Middleware, Middleware/* fiberx/middleware.go: MetricsAndLogger, skipLog
--   Fiberx/Requests, Requests/* fiberx/ratelimit.go, fiberx/params.go, fiberx/validation.go
--   Telemetry, Telemetry/* metrics/metrics.go and tracing/tracing.go: Init, and tracing's Middleware
--   Delivery, Delivery/*  webpush/delivery/sender.go
--   Notify, Notify/*      notify/notify.go: the requests of the three backends, and Multi
--   Notify/Posting        notify/notify.go: Options.client and post
--   Cache                 cache/cache.go: entry, load, and the critical sections of Fetch,
--                         revalidate and Invalidate (publish, settle, invalidate)
--   Cache/Fetch           Fetch, GetOrFetch and revalidate run by one caller
--   Cache/Serving         what a caller of them gets
--   Cache/Store, Store/*  New, entryFor, Len, Invalidate: the keys, their order and the eviction
--   Cache/Race, Race/*    the interleavings of all callers of one entry
--   Lifecycle, Lifecycle/* lifecycle/lifecycle.go: Stack, Push, Shutdown, runStep
--   App, App/Order        app/app.go (New, bearerGuard), app/run.go (Run, pushRunSteps, Close)
--   App/Address           app/run.go (listenAddress)
--   App/Layers            app/app.go (newFiber)
--   App/Streams           app/app.go (StreamContext, signalShutdown)
--   Safe, Safe/Supervise  safe/recover.go, and the loop of Group.Go in safe/supervise.go
--   Safe/Group, Group/*   Group in safe/supervise.go: enter, leave, wake, Wait
--   Safe/Pool, Pool/*     safe/pool.go: Go, Wait and the life of a task
--   Safe/All              safe/all.go
--   Capset, Capset/*      capset/capset.go
--   Pubsub, Pubsub/*      pubsub/pubsub.go
--   Health, Health/*      health/health.go, health/handler.go
--   Jobs, Jobs/*          jobs/jobs.go, jobs/daily.go
--   Httpc/Fault, Fault/*  httpc/fault.go, httpc/errors.go
--   Httpc/Ssrf, Ssrf/*    httpc/ssrf.go
--   Httpc/Transport, Transport/* httpc/transport.go: RetryTransport
--   Httpc/Client, Client/* httpc/client.go: the token source, DoWithTokenRetry, DoJSON, ReadAllLimited
--   Httpc/Debug, Debug/*  httpc/debug.go: DebugRing
--   Httpc/Bytes, Bytes/*  httpc/bytes.go, httpc/image.go
--   Httpc/Sending, Sending/* httpc/http.go, and send and APIError in httpc/client.go
--   Sqlitex/Migrate, Migrate/* sqlitex/migrate.go: MigrateContext, applyStep
--   Sqlitex/Query, Query/* sqlitex/query.go, sqlitex/exec.go
--   Sqlitex/Open          sqlitex/open.go: Open, dsn
--   Vapid, Vapid/*        webpush/vapid.go: GenerateKeys, Validate, NormalizeSubject
--   Netx, Netx/*          netx/addrinuse.go
--   Buildinfo, Buildinfo/* buildinfo/buildinfo.go
--   Backup, Backup/*      backup/backup.go: New, WriteDaily, List and prune; Backup/Streaming is Backup and Run
--   Config                config/config.go (Load)
--   Logx                  logx/setup.go (New), logx/logx.go (ContextHandler.Handle)
--   Disk                  disk/path.go, disk/diskfree_statfs.go
--   Examples/*            the theorems at concrete inputs
--
-- State and steps. A struct is a record and a method a function from it to the one after it.
-- Code under a mutex is one function; where goroutines interleave (Cache/Race, Safe/Group,
-- Safe/Pool, Pubsub, Health/Readiness, Delivery, Fiberx/Middleware, App/Streams) a step is one
-- critical section, atomic operation, channel operation or cancellation, and the theorems hold in
-- every state that steps reach; in Safe/Group, where an atomic counter is read under a mutex that does
-- not guard it, the holder of the mutex is a part of the state and a section has several steps.
-- Pointers that outlive a map entry are indices into a heap (Cache/Store); channels are numbered
-- (Pubsub, Safe/Group). Loops are structural: on the steps of a stack, on the events that a
-- select receives, on the attempts of a goroutine, on the entries of a directory, on the retries
-- that are left. No definition has fuel. A request to an upstream or a provider acts on a world
-- that is passed from call to call; the provider, that world and the rows of the store are one
-- `Server` that the handlers of the gate take and return. A handler answers with its Set-Cookie
-- headers and what is sent.
--
-- Numbers. An instant is an integer of nanoseconds since the zero time, and does not overflow;
-- the difference of two instants is clamped to 64 bits as time.Time.Sub does. The generation of
-- a cache entry is a uint64 that wraps; the interleavings make fewer than 2^64 invalidations. A
-- limit or a count of goroutines is a natural number.
--
-- A migration is its effect on the contents of the database; what database/sql answers at each of its
-- steps, a crash of the process among them, is a script, and a transaction that was not committed
-- leaves nothing, as SQLite documents.
--
-- Not modelled: log lines but those of MetricsAndLogger; Fiber's router and limiter, the validator,
-- OpenTelemetry, SQLite, net/http, net/netip's parsing, net/url, net/mail, os/signal and the runtime's
-- scheduler, which are parameters or steps where the code relies on them; go-oidc, oauth2, base64,
-- P-256 and sha256 likewise; and the parts of the repository that no file above names:
-- disk/diskfree_windows.go, ids/, errs/, session/token.go, sqlitex/snapshot.go, the cloning of TLS
-- transports and the draining of bodies in httpc/. They are single calls of a library, of the
-- environment or of a random source.
pub mod App
pub mod Backup
pub mod Base
pub mod Buildinfo
pub mod Cache
pub mod Capset
pub mod Clock
pub mod Config
pub mod Delivery
pub mod Disk
pub mod Examples
pub mod Fiberauth
pub mod Fiberx
pub mod Health
pub mod Httpc
pub mod Jobs
pub mod Lifecycle
pub mod Logx
pub mod Netx
pub mod Notify
pub mod Oidcauth
pub mod Pubsub
pub mod Safe
pub mod Session
pub mod Sqlitex
pub mod Strconv
pub mod Telemetry
pub mod Text
pub mod Vapid
