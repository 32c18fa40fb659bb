-- ===== src/Lib.antt =====
-- IntelliSphere's Sphere, the Rust service of sphere/src: it takes completion requests over HTTP
-- and edge sessions over WebSockets, filters what goes in and out, runs the tools that the model
-- asks for, and passes the conversation to the Core over gRPC.
--
-- Files and what they model (paths from sphere/src):
--   Errors: errors.rs. Proto: the messages of proto/intellisphere.v1.rs that the Sphere builds or
--     reads, and the names of its enumerations. Core: core_client/grpc.rs.
--   Config: config/mod.rs, with what serde makes of a section or field that is left out;
--     Config/Sections reads the sections and Config/Service the whole configuration.
--   Auth: auth/identity.rs, strategy.rs, api_key.rs, jwt.rs; Auth/Gate is ingress/gate.rs.
--   Pipeline: pipeline/context.rs and chain.rs; Inbound and Outbound have a file for each filter.
--     Regex is the interface of the regex crate with the laws that the filters rely on.
--   RateLimit: rate_limit/token_bucket.rs and limiter.rs.
--   Satellite: satellite/trust_budget.rs, session.rs, adjudicator.rs, ws.rs.
--   Tools: tools/registry.rs, scoped_client.rs, executor.rs, interceptor.rs; Json is the interface
--     of the JSON crates.
--   Policy: policy/types.rs, loader.rs, engine.rs.
--   Api: api/chat.rs, health.rs, and in Routes mod.rs. Audit: audit/event.rs, sink.rs, emitter.rs.
--   Start: the state that main.rs makes of the configuration; Start/Boot is main itself.
--   Common: helpers, strings, maps, and the interface of f64. Examples: the theorems at concrete
--     inputs.
--   The child modules of a component hold its proofs and are named for what they prove.
--
-- How they interact: Api.Chat runs each message through Pipeline.Chain, sends the conversation to
-- the Core, has Tools.Interceptor answer the model's calls (Registry, then Executor, then
-- ScopedClient), and runs the answer through the outbound chain. Satellite.Ws authenticates with
-- Auth.Gate, keeps Satellite.Session's table, and passes each proposal to Satellite.Adjudicator,
-- which charges the session's TrustBudget and runs the payload through the inbound chain. Start makes
-- the chain, the gate, the limiter, the registry, the executor and the session table from Config.
-- No handler calls RateLimit, Policy or Audit.
--
-- How code becomes definitions: a Rust String is the native text, with byte lengths; a HashMap is
-- an association list with one entry for each key; a method that changes its receiver returns it; a
-- filter returns its result beside the message and the context as it leaves them; a panic is the
-- none of an Option. A u32 or u64 sum wraps as written; an i32 or f32 of the protocol is its bit
-- pattern. The time that a call reads, fresh identifiers, and what other crates and services answer
-- are arguments. Log lines are left out.
--
-- Bounds: loops over collections are recursions over the list, and the tool loop is a recursion
-- over the iterations that are left, which the code bounds by 25. A connection is the list of what
-- its loop wakes up for, so a theorem on every list speaks of a connection at every moment; several
-- connections interleave as a list of their messages, each handled under the table's lock, and in
-- Satellite/Ws/Lifecycle with the creations, cleanups and removals of sessions as a list of events.
-- Budgets are stated for whole units below 2 ^ 53, where f64 is exact. The tokens of RateLimit are
-- f64 too, of which only the laws in Common/Float are known: what a wait adds is rounded as the
-- machine rounds it.
--
-- Not modelled: config/loader.rs (files and environment, read by the crate figment), the router, the
-- server and the logging that main.rs sets up, the generated gRPC code, and the parts of the
-- repository in other languages. In Audit what a log's writer, which may drop texts, makes of them,
-- and the change of files from day to day; in Satellite NaN and infinite values that a caller may
-- send.
mod Common
pub mod Proto
pub mod Core
pub mod Start
pub mod Audit
pub mod Errors
pub mod Config
pub mod Auth
pub mod Pipeline
pub mod RateLimit
pub mod Satellite
pub mod Tools
pub mod Policy
pub mod Api
mod Examples
