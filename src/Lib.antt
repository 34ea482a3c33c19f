-- ===== src/Lib.antt =====
-- A verification library for origin-tools: the components of the workspace that keep state and
-- promise something about it, translated from the Rust sources, with the theorems that make
-- them correct. Paths are from the repository's root.
--
-- Parts, and the files that model them.
--   Channel (origin-channel/src): the encrypted channel. Ratchet (ratchet.rs, nonce_tracker.rs)
--     derives the keys, Usage (usage_limit.rs) counts against the AEAD budgets, Replay (replay.rs)
--     is the sliding window over sequence numbers, Message and Codec (message.rs, types.rs,
--     codec.rs) are the wire formats, Negotiation (negotiation.rs) chooses the cipher suite, and
--     Session (session.rs) puts them together: `encrypt`, `decrypt`, `rotate`.
--   Network (origin-network/src): the gates in front of a relay. Tracker (replay.rs) refuses
--     replayed handshake frames and writes itself to a file, Bucket (gate.rs) limits the rate of
--     handshakes per source. Relay (relay.rs) is the state of a relay: who is online, session
--     tokens, forwarding pairs, adverts and the inboxes, which are in Inbox (relay.rs). Address
--     (address.rs) prints and parses addresses.
--   Payments (origin-payments/src): Order (event.rs) is the life cycle of an order and the roll-up
--     of an event, Store (store.rs) the append-only log of orders. Journal (journal.rs) is the
--     double-entry journal with its amounts, balanced batches and hash chain, Retry (retry.rs,
--     executor.rs) the waiting times between attempts. Executor and Passes (executor.rs, retry.rs)
--     put these together: `settle` sends one order over its rail and posts its batch, `process` is
--     one turn of the loop of `run_once` with its retries and dead letters, and `requeue` one turn
--     of the sweep of orders that are stuck. What the four rails do after a paid answer is one
--     definition, `settle_success`: they differ in that the native rail has no cache of receipts.
--   Attest (origin-attest/src): Revocation (revocation.rs) is the hash-chained journal of signed
--     revocations, Cookie (cookie.rs) the handshake cookie against floods.
--   Crawler (origin-crawler/src): Frontier (frontier.rs) is the queue of URLs with its politeness
--     tables, Robots (robots.rs) the rules of a robots.txt.
--   Identity (origin-identity/src): Capability (capabilities.rs) is the set of capabilities,
--     Delegation (delegation.rs) the signed links by which they are handed on and the chain of
--     links that a verifier accepts.
--   Canary (origin-canary/src): Merkle (merkle.rs) is the Merkle tree over a set of commitments with
--     its inclusion proofs.
--   Proof (origin-proof/src): Mmr (mmr.rs) is the Merkle mountain range, which uses the hashing
--     operations of Canary.
--   Vcs (origin-vcs/src): Textmerge (textmerge.rs) is the three-way merge of texts by lines.
--   Base: shared names, byte and word encodings, decimal numbers in texts (Base.Decimal, for the
--     parsing and printing of integers), equality tests, hash sets and maps, results.
--
-- How state and operations correspond. A struct is a record with the source's field names, an
-- enum a data type with the source's variants, an error a value of a data type of its component.
-- A method that takes `&mut self` is a function that returns the new state with its result; where
-- the source changes a field before it fails, the state that comes with the error has the change.
-- Definitions keep the names of the Rust functions; a loop is a recursion on the list it walks.
--   Numbers are natural numbers. Counters of 64 bits wrap where the source's arithmetic wraps and
--   a property depends on it (`u64` in Base.Tests); three counters are kept without their bound:
--   the tokens of a bucket entry (u32), the leaf count of a mountain range and the sequence number
--   of the crawl queue (u64). An amount of type i128 is its bit pattern, a number below 2^128, and
--   so are the i64 of a waiting time (Payments.Journal, Payments.Retry); a machine word whose bits
--   are read one by one is a function from bit numbers (Base.Word). Hash sets and maps are lists
--   without repeated keys whose order no property depends on. Clocks and random bytes are arguments
--   of each call.
--
-- Parameters. The cryptography of origin-crypto-sdk is not in the repository: HKDF, AEAD, HMAC,
-- SHA3 and the signatures are fields of a record (`Crypto`, `Signing`, `Hybrid`, `Hashing`) or arguments, and what a
-- theorem needs of them (an AEAD opens what it sealed and adds a tag of 16 bytes, a signature
-- verifies under its own key) is a hypothesis, which the tests show to hold for a toy instance.
-- The quotient of two durations that the token bucket computes in floating point is a parameter,
-- of which the bound needs only that it rounds down.
--
-- What is around the executor is a record `World`: the answers of the four rails, the compliance
-- scorer, keys, identifiers, clock and random bytes. A rail's own protocol (HTTP, facilitators, the
-- wallet) is behind its answer.
--
-- Bounds and fuel. `digits` in Base.Decimal takes one round more than the number, and each round
-- divides it by ten, so they are enough. `chunks` in Network.Tracker takes the body's length as its rounds: each round
-- takes at least one byte, so they are enough. `levels_from` in Canary.Merkle takes the
-- number of leaves as its rounds: each round halves a level, and with these rounds the last level
-- has one node. `backtrace` in Vcs.Textmerge takes the number of lines of both texts: each
-- round moves on in one of them. `path_from` and `merge_levels` in Proof.Mmr take the height of
-- the mountain, the bound of the source's loops. No other definition has fuel.
--
-- A relay's methods hold one lock, so any run of clients and tasks is a sequence of calls
-- (`calls` in Network.Relay.Runs). The orders of one pass are taken one by one.
--
-- Not modelled: the file system and its errors, sockets and threads, the command-line programs,
-- and the crates that mostly call the cryptographic SDK. Of the executor: the roll-up of events after
-- a pass, the settlement preferences other than Hold, and deferred settlement. Receipts and
-- signatures of orders are kept as bytes.
pub mod Base
pub mod Attest
pub mod Canary
pub mod Channel
pub mod Crawler
pub mod Identity
pub mod Network
pub mod Payments
pub mod Proof
pub mod Vcs
