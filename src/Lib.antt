-- ===== src/Lib.antt =====
-- headofcontext: authorization for agents that act for people.
--
-- A person (the subject) is acted for by an agent (the actor) under a scope, a set of capabilities
-- such as `read` on `doc:*`. Every read, action and memory goes through one decision path: the
-- scope must cover it, the relation engine must relate the person to it, and a policy may lower the
-- answer; the decision is journaled before it is returned. An action that a policy parks becomes an
-- approval request, which a person resolves and the agent redeems once. A person may also mandate
-- an agent, which then gets short tokens of its own. What an agent remembers is recalled only for a
-- person who may still view every source of it.
--
-- Core (src/headofcontext/core): Errors, Refs, Capability, Scope, Chain, Decision, Events, and
-- Decider with `decide`, `decide_all` and, in Decider/Each, `decide_each`.
-- World: the state that the services share (journal, approvals, mandates, revoked ids, memories)
-- and what they take from outside. A method is an action `Exec A = World → Result A × World`: what
-- was written before a raise stays written. World/Logged and World/Stores say how an action may
-- change the state.
-- Actions (src/headofcontext/actions): Request and Store (approvals.py, the in-memory store),
-- Resolve (authorize_approver, resolve_request), Gate (gate.py), Policies (policies.py).
-- Tokens (src/headofcontext/tokens): Mandate, MandateStore and Mandates (mandates.py), Service
-- (biscuit/service.py).
-- Memory (src/headofcontext/memory): Record (model.py), Parts (the ledger, and the tuple store and
-- the backend behind their protocols), Read (recall) and Write (remember, forget).
-- Read (src/headofcontext/read/filter.py): the filter over `decide_each`.
-- Engines (src/headofcontext/engines/freshness.py): the freshness of the connectors.
-- Audit (src/headofcontext/audit): Chain, the hash chain of the journal and its verification.
-- Tests: the theorems at concrete inputs.
--
-- How the code is read. Strings are native texts, compared as such and scanned as code points.
-- Times and spans are signed integers in microseconds; a latency is a natural number. A frozen set
-- is a list read up to order and repetition, a dict an association list in insertion order. Loops
-- are recursions on their list, `str(n)` one on fuel with a digit more than it needs;
-- `decide_each` cuts its targets into slices first. An `await` and a thread hand-over do nothing
-- to the state here; calls that other tasks make in between are those of Actions/Gate/Once, whole or
-- cut into the single store calls of Actions/Store/Laws, since each store method holds the lock.
--
-- Parameters: the relation engine, the clock, fresh ids, the audit sink's refusals, the policy and
-- the hash of arguments (World.Env); the approval channels (Gate.Settings); the signing of a token
-- and the outages and write failures of the revocation store (Tokens.Service.TokenSettings); the digest and JSON of
-- the hash chain (Audit.Payload.Json); the tuple store, the memory backend, the digest of content
-- and the ledger's failures (Memory.Parts.MemoryEnv); ListObjects and SHA-256 (Read.FilterEnv).
-- Each may raise where the code expects it to.
--
-- Not modelled: SQL stores, HTTP, the metrics sink, nested values in an event's JSON, the command
-- line and the adapters to other systems.
pub mod Prelude
pub mod Core
pub mod World
pub mod Actions
pub mod Tokens
pub mod Memory
pub mod Read
pub mod Engines
pub mod Audit
mod Tests
