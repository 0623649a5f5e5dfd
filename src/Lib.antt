-- ===== src/Lib.antt =====
-- PREMiSE: a protocol and runtime that lets agents act on remembered evidence ("premises") only
-- while that evidence is known to be fresh. This library models the TypeScript runtime core
-- (packages/runtime-core/src): the parts that decide whether an agent may act.
--
-- The program's parts, and the files that model them.
--
--  * Validation leases, packages/runtime-core/src/validation-lease.ts. One worker at a time may
--    validate a resource; a lease runs out, and its fencing token tells a late worker from the
--    current one. The store is the class InMemoryValidationLeaseStore, the manager is the class
--    ValidationLeaseManager, which reads a clock and asks any ValidationLeaseStore.
--      Lease.antt            types, validators (validText, validTime, validToken, scopeKey, ...)
--                            and the private helpers observeClock, active and nextToken
--      Lease/Store.antt      acquire, renew, release and validate of the store, and histories of
--                            calls (`run`)
--      Lease/Store/*         the invariant, fencing tokens, mutual exclusion, tests
--      Lease/Manager.antt    the manager's state, readClock, duration, validLeaseForScope, ...
--      Lease/Manager/Calls   acquire, renew, release and validate of the manager over a record of
--                            operations (StoreOps), which the in-memory store fills
--    Stateful code takes and returns the store. A JavaScript number is `nat` or one of the values
--    that the validators turn down (Number); `throw` is the constructor `throws`. What a map holds
--    is a function of the key (Dict). There is no loop and no fuel.
--  * Premise guard, packages/runtime-core/src/premise-guard.ts. executePremiseGuard asks an adapter
--    for a conditional commit, with the receipts of the critical premises only.
--      Guard.antt            types, receiptLeaseUsable, the Map of the receipts
--      Guard/Execute.antt    executePremiseGuard and completeObservedReceipts
--      Guard/Execute/*       what is checked before the loop (Ready), the loop (Choose), the
--                            commit (Commit), the receipts of a failed CAS (Observed)
--    The adapter is a record with a `commit` that may throw; Date.parse and Date.now are the
--    record Host, with one clock reading in a run. The `await` of the commit is a call, since the
--    kernel keeps no state across it.
--  * Premise policy, packages/runtime-core/src/premise-policy.ts. planPremiseValidation chooses the
--    validation work of a read or a write by risk, source and capabilities;
--    negotiatePremisePolicyCapabilities splits a request for capabilities.
--      Policy.antt           both functions and their types
--      Policy/*              what a write and a read need (Plan), how the parts of a plan fit
--                            (Consistent), the negotiation (Negotiate)
--  * Receipt cache, packages/runtime-core/src/receipt-cache.ts, class RuntimeReceiptCache: a bounded
--    cache of valid receipts that forgets the oldest first.
--      Cache.antt            the cache's state, its constructor, put, get, invalidate, clear, stats
--      Entries.antt          a Map as the list of its entries in the order of insertion
--      Times.antt            assertTimestamp and sameOrBefore
--      Cache/Bounded, Hits   the invariant, and what a lookup answers
--    The key of a scope, Date.parse and the way through JSON (clone) are the record Cache.Host. The
--    loop of the eviction runs over the list of the entries.
--  * Event continuity, assessOrderedEventContinuity of packages/runtime-core/src/receipt-cache.ts:
--    whether the delivery of a stream has no gap, no reordering and no conflict.
--      Events.antt           the loop (a recursion on the deliveries) with its variables as a record;
--                            the fingerprint is the triple whose JSON the code compares
--      Events/Contiguous     what a fresh stream has delivered
--  * Negative cache, class RuntimeNegativeCache of packages/runtime-core/src/receipt-cache.ts, and
--    negative premises, class NegativePremiseStore of packages/runtime-core/src/negative-premises.ts:
--    what is known not to be there, bounded in all and for each tenant.
--      Quota.antt            what both share: a Map with a count for each tenant, the eviction of the
--                            oldest entry of a tenant and of all, `deleteKey`
--      Quota/*               the counts are exact, the bounds hold, what an eviction leaves
--      Negative.antt         the cache: put, get, invalidate, clear, stats
--      Absence.antt          types and validators of the premises; SHA-256 and Date.parse are the
--                            record Host
--      Absence/Key.antt      canonical and negativePremiseKey: the JSON text of a scope with all its
--                            fields, whose digest is the key
--      Absence/Key/*         identities and their texts (Injective), keys and their texts (Texts)
--      Absence/Store.antt    putAbsent, check, invalidateOnAppearance, clear
--    The loops of the evictions run on fuel, the number of entries: every round removes one entry, so
--    the fuel lasts until the bound holds (Quota/Bounded).
--  * Receipt subsumption, packages/runtime-core/src/receipt-subsumption.ts: when a receipt stands for a
--    validation that is required, and which of several is taken.
--      Subsumption.antt      assessReceiptSubsumption and selectSubsumingReceipt; Date.parse and
--                            localeCompare are the record Host; the sort is an insertion sort,
--                            stable as that of the language
--      Subsumption/*         sets of texts (Sets), the conditions (Eligible), the order (Chosen), the
--                            selection (Best)
--  * Stream bursts, packages/runtime-core/src/stream-burst.ts: the prefix of a burst that a later
--    snapshot makes superfluous.
--      Bursts.antt           planRuntimeStreamBurst on parsed events
--      Bursts/*              the latest snapshot (Snapshots), plans that drop (Coalesced), all plans
--                            (Planned)
--  * Event streams of the runtime, class PremiseRuntime of packages/runtime-core/src/index.ts: a
--    delivery with a gap, out of order or in conflict fences its stream until a snapshot repairs it.
--      Streams.antt          applyEvent, applyStreamEvent, streamRepairRequired; validateV2StreamEvent
--                            and validateV2EventStreamPage (packages/protocol-types/src/v2.ts)
--      Streams/Pages.antt    repairStreamFromSnapshot, applyStreamBurst
--      Streams/*             what a stream has seen (Window, Cases, Runs), an event that comes twice
--                            (Redelivered), pages and bursts that repair (Accepted to Coalesced)
--    The store, journal, receipt cache and frontier, the digests, and the validation of an event's
--    body are the record Host; a store whose append throws keeps what it had.
--  * Recovery from a checkpoint, verifyRuntimeCheckpointRecovery of
--    packages/runtime-core/src/checkpoint.ts: whether the tail of a journal goes on where it ends.
--      Recovery.antt         the loop over the tail; the parsed checkpoint is an argument
--      Recovery/Tail         which tails recover
--  * Fenced single flight, packages/runtime-core/src/fenced-single-flight.ts, class
--    FencedSingleFlightCoordinator: one run of a validation for all that ask for the same, and a fence
--    between the versions of a resource.
--      Flight.antt           the data: requests, outcomes, flights, the coordinator's state
--      Flights.antt          validate and the closures that it makes for a flight: settle, fail,
--                            abortAsUnknown, the operation with its handlers, and the clean-up
--      Flights/Steps.antt    the events in any order: each await and each callback is a step
--      Flights/*             what a step changes (Effects), the invariant (Invariant, Sound, Runs),
--                            the fence (Fence, Blocked, Fenced), the sharing of flights (Joined)
--    A flight is its constant fields with a number for its identity as an object; what its closures
--    change (promise, flags) is a function of the flight in the state. The source, the signal and the
--    timer are the events; the keys of a scope come with the request, and how a number is printed is
--    an argument.
--  * Guarded tools, packages/runtime-core/src/guarded-tools.ts: an action's side effect is called only
--    after a check and a revalidation of its resource, and once for an idempotency key.
--      Tools.antt            answers of the callbacks, validVersion, sameResource, and the class
--                            BoundedGuardedToolIdempotencyStore
--      Tools/Answers.antt    the state of the class GuardedTool, and what it accepts of an answer
--      Tools/Guarded.antt    its methods: check, revalidate, act, and what performAction makes of an
--                            answer
--      Tools/Run.antt        the events in any order, each await and microtask a step; what a
--                            callback answers, or that its time is over, comes with the event
--      Tools/*               what a step changes (Cases, Stages, Rewrites), the store (Retained), the calls of
--                            the side effect (Once; Proofs, Proven, Calls)
--    An object that the tool returned is a number with what its fields now read; the tool keeps version
--    objects by reference, so that their other holders may change them, which is an event (rewrites).
--    canonicalJson of an action is an argument. The model records the calls of the side effect. Reasons
--    are kept for actions only.
--  * Dependency graph, packages/reference-ts/src/graph/index.ts, class DependencyGraph of the reference
--    implementation: which node depends on which, without cycles.
--      Graph.antt            addNode, addDependency, setDependencies, hasPath, dependenciesOf
--      Graph/*               sets (Sets), chains of edges (Reach), hasPath (Cost, Rounds, Search), the two Maps
--                            (Views, Edges), the cycle test (Sound), the calls (Loops, Calls, Runs)
--    hasPath runs on fuel: a round for each edge and two more, since a node's dependencies are put on
--    the stack once (Cost). A call that throws returns the error with the graph that it leaves.
--  * Json.antt, Json/Decode.antt: JSON.stringify of a string and of two, with which scopeKey builds
--    its keys, and a decoder for it. The language's own escaping of a string is written out.
--  * Base.antt and Base/*: Boolean tests, lists, strings as lists of UTF-16 code units, and maps.
--
-- The guard uses the policy's capabilities; the lease manager uses the store; the receipt cache and
-- both stores of what is absent stand on Entries and Quota; the single flight makes its resource key
-- as the leases do, and the canonical text of an absence quotes its strings so (Json); the runtime's
-- streams follow the plan of Bursts; otherwise the parts are used side by side by their callers.
--
-- Not modelled: the cryptographic digests, which are arguments, and the network (the adapters, the
-- HTTP server, the SDK), the databases behind store-postgres and store-sqlite, and not yet the
-- validation scopes, predicates, journal, sessions and frontier engine of the runtime core and what
-- else the class PremiseRuntime does, nor the rest of the protocol's reference implementation
-- (packages/reference-ts, reference/; of the dependency graph, what only lists nodes), the context
-- engine, the indexes, the connectors and validators, and everything under benchmarks, scripts,
-- deploy, apps, examples and docs: they are input and output around the decisions above, or data. Times are whole
-- milliseconds from the epoch on; a number that is no safe integer is told apart from others only as
-- far as the validators do.
mod Base
pub mod Entries
pub mod Times
pub mod Json
pub mod Lease
pub mod Graph
pub mod Guard
pub mod Policy
pub mod Quota
pub mod Cache
pub mod Negative
pub mod Absence
pub mod Streams
pub mod Subsumption
pub mod Events
pub mod Bursts
pub mod Flight
pub mod Flights
pub mod Recovery
pub mod Tools
