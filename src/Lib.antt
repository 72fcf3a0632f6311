-- ===== src/Lib.antt =====
-- CallSign proves to the person who is called that an institution has authorized the call. An
-- agent's browser asks the institution's authority for an authorization of one call, the called
-- person's browser consumes it once, and both check it against the state of a ledger that a quorum
-- of witnesses has signed.
--
-- The parts, and the files that model them:
--
-- Protocol: packages/protocol/src. Protocol.Schemas, Protocol.Contact and Protocol.Session hold the
-- schemas of version 1 in index.ts, Protocol.Finals and its children those of version 2 in
-- finals.ts. A schema is a record with a test `…_conforms` for its conditions and a function
-- `…_json` to the value that is hashed and signed; the fields `protocol`, `version` and `type` are
-- literals and stand in the JSON only. Protocol.Signing is hashCanonical, signPayload,
-- parseJsonNoDuplicateKeys and verifyPayload, Protocol.Temporal is assertTemporalValidity,
-- Protocol.Finals is policyHash, vcDigest, signDelegationVc and verifyDelegationVc. The libraries
-- they call (json-canonicalize, @noble/hashes, jose, json-dup-key-validator, TextDecoder) are the
-- record Protocol.Json.Libraries, a parameter.
--
-- Verifier: packages/verifier/src/index.ts. Verifier.Snapshot is the schema of a snapshot,
-- Verifier.Bundle is verifyStateBundle with its loop over the signatures, Verifier.Bytes is
-- equalBytes with the bitwise operators, Verifier.Guard is the class MonotonicStateGuard,
-- Verifier.Context is verifyAuthorizationContext, and Verifier.Package is
-- packages/verifier/src/finals.ts: what the called person's browser verifies of a contact of
-- version 2, with the guard that it leaves.
--
-- Finals: services/api/src/finals-model.ts and services/api/src/finals-authority.ts. Finals.Record
-- is the record of an institution, Finals.Model the checks on it, Finals.Workspace the function
-- workspaceFor, Finals.Bootstrap the permissions and the first accounts, and Finals.Authority the
-- class FinalsAuthority, one function for each method. The store hands a record to a transaction
-- and keeps what it leaves, or the old record where it throws, so that a method is a function from
-- a record to a result with a record. Finals.Steps runs the methods one after another in any order.
--
-- Server: the first version in services/api/src. Server.Tables holds the tables of schema.ts,
-- Server.Auth the sessions of auth.ts, Server.Connections their connections in
-- session-connections.ts, Server.Consumption the transaction of consumption.ts, and Server.Handlers
-- the handlers of server.ts, one function for each route, with the guards in their order. A table
-- is a list of rows, a selection a search by the conditions of its `where`, and a unique column a
-- test before an insertion. Every statement outside a transaction is committed on its own.
-- Server.Consumption.Once runs the transaction in any sequence. Server.Governance holds the
-- governance handlers of server.ts over the interface GovernanceLedger of ledger.ts, which is a
-- parameter. Server.Ledger is ledger.ts itself over Server.Registry, which holds what the
-- registry's contract reads and writes and, as a parameter, the contract, viem and the files of
-- `.local`. Server.Aggregate is services/api/src/witness-aggregate.ts: what has been started and
-- has not come back stands in a list, and Server.Aggregate.run lets its entries go on in any order.
-- Server.Signaling is the relay of messages between sockets, and Server.Delegation the handlers of
-- server.ts on the ledger.
--
-- Witness: services/witness/src/server.ts, as Witness.read_snapshot and Witness.take_snapshot over
-- the witness's own node, which is a parameter.
--
-- Web: the browser's part in apps/web/src/lib. Web.Rtc and Web.Transport are the checks of rtc.ts,
-- Protocol.Sdp the session descriptions of packages/protocol/src/index.ts that they compare,
-- Web.LiveMedia the class LiveMedia of liveMedia.ts, and Web.Api the calls of api.ts. A method of
-- LiveMedia is cut at every `await`; what follows is a step of its own, and Web.LiveMedia.run takes
-- the steps in any order. A stream that a later one replaces goes to a list of its own.
--
-- How the code is written down: a function that may throw returns a Result, whose failures are the
-- source's errors; a test with several disjuncts that throw the same error is one test, and it is
-- split where a function that may throw stands between them. `Record<string, T>` and `Map` are
-- association lists in insertion order, and an assignment to a field of a shared entry is an
-- insertion at its key or an update of all values. Times are natural numbers of seconds, instants
-- of credentials are milliseconds, and a difference that may fall below zero is an integer of
-- Prelude.Int. A method reads the clock once; the source reads it again after each `await`.
-- Identifiers that the source draws at random are arguments. The functions are total by structural
-- recursion on lists, except the retry of api.ts, which has fuel for its two attempts, and the
-- decimal text of a number, which has fuel for 78 digits: a word of the ledger, below 2 ^ 256, has
-- no more.
--
-- Not modelled: the other handlers of server.ts (readiness, the aggregation of the state, listings
-- of runs), the store and the routes of the second version, the third version's authority, the
-- worker and its journal, the key and the other replies of a witness, speech and telephony, the
-- pages of the web application and the call controllers of the later versions; key generation and
-- base64url; the resolver of DID documents and the access to the ledger of the second version,
-- which are parameters of Finals.Authority.Options.AuthorityOptions.
pub mod Prelude
pub mod Protocol
pub mod Verifier
pub mod Finals
pub mod Server
pub mod Witness
pub mod Web
pub mod Tests
