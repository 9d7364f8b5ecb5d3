-- ===== src/Lib.antt =====
-- SovereignStack: a gateway in front of language models that run in containers. A request passes
-- through core/gateway: its API key is looked up in the key store (core/keys), its access, source
-- address, token quota and rate are checked, the admission controller (core/admission) may shed it,
-- and it is sent to the backend that the model router knows; the answer's tokens are counted.
--
-- Parts and files:
--   * Crypto: core/crypto/crypto.go, Encrypt, Decrypt, IsEncrypted; Crypto.MasterKey is
--     LoadOrCreateMasterKey.
--   * Keys: core/keys. Hash (hash.go), Save (saveLocked with encryptFieldsLocked), Store (the methods
--     of KeyStore), Fields (encryption.go), Load (LoadKeyStore, Save, and what
--     cmd/policy.go does with a master key), Allowlist (ipallowlist.go). A method takes the store and
--     returns the new one.
--   * Calendar, Quota: core/gateway/quota_backend.go and quota.go: the reset times, the interface of
--     the backends, the backend in memory, the manager. Quota.Redis, Quota.Sqlite and Quota.Build are
--     quota_redis.go, quota_sqlite.go and quota_builder.go.
--   * RateLimit: the RateLimiter of core/gateway/proxy.go.
--   * Admission: core/admission/admission.go with the poll cycle of poller.go,
--     and parser.go.
--   * Router: core/gateway/router.go, the registry and its refresh.
--   * Audit: core/audit/logger.go, the log in memory; Audit.Jsonl is jsonl.go, the daily files with
--     their compression; Audit.Sinks is multi.go and retention.go.
--   * Gateway: core/gateway/proxy.go with access.go and auth.go. Header, Paths, ClientIp, Usage,
--     Access and Director hold its functions, Stages the steps of ServeHTTP, Serve their composition. A step
--     takes the state and stops with a reply or goes on with a value.
--   * Policy: core/management/policy. Session (the signed cookie), Service (its state and replies),
--     Admins (authenticateAdmin), Oidc (the sign-in), Users (the handlers of users and access checks).
--   * Discovery: core/management/discovery and core/management/metricsproxy.
--   * Models: core/types.go and core/model: Quantization (quantization.go), Safetensors and Manager
--     (manager.go), Cache (cache.go).
--   * Engine: core/engine/orchestrator.go and persistence.go.
--   * Health: core/health/health.go.
--   * Prelude, Text, Int64, Dict, Float: lists, byte strings, 64-bit integers, maps and an interface
--     of float64.
-- The names are the source's, in lower case with underscores. The Examples modules run the
-- properties at concrete inputs, with small instances of the libraries.
--
-- Conventions and bounds: a mutex that is held through a method makes the method one step. Times are
-- nanoseconds, or a civil date with the nanoseconds of the day for the quota windows; the clock is
-- read once in each call. Counters are int64 and wrap around. A Go map is an association list: a
-- statement over every list covers every order of iteration. float64 is an interface whose laws are
-- those of the order of the numbers that are not NaN and of rounding that the proofs name; Float.Fixed
-- is an instance. Every loop is structural recursion, so no fuel occurs. What runs beside a call is a
-- step of its own: Policy.Oidc.Interleaved has the sign-ins of several browsers, Audit.Jsonl.World the
-- calls of Log with compressions that begin and end between them, as step relations. A call that ends
-- in a panic of the reverse proxy is an outcome of its own.
--
-- Outside the source, and so parameters: AES-GCM, Argon2, HMAC, base64, JSON, the package net, the
-- operating system's calls on files, HTTP requests to other services, Docker, the Redis client, the
-- SQL database, the OpenID Connect library, the clock, the random source. Laws of theirs that a
-- statement uses are its hypotheses, as a record (CipherLaws, HashingLaws, FloatOrder, FloatUnits,
-- SessionLaws, RedisLaws, SqlLaws, JsonLaws) or an equation.
--
-- Not modelled: the command line but for the start of the policy command; the building of Docker
-- commands; downloads, the model loader, the remote registry and checksums; hardware detection, the
-- installer and the tunnel; the audit log on SQLite, whose code is SQL text and the scanning of rows;
-- the gateway's metrics; TLS, tracing, logging and configuration; the texts of error messages.
pub mod Prelude
pub mod Text
pub mod Int64
pub mod Dict
pub mod Crypto
pub mod Keys
pub mod Calendar
pub mod Quota
pub mod Float
pub mod RateLimit
pub mod Admission
pub mod Router
pub mod Audit
pub mod Gateway
pub mod Policy
pub mod Models
pub mod Engine
pub mod Health
pub mod Discovery
