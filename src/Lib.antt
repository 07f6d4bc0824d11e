-- ===== src/Lib.antt =====
-- A verification library for the streaming-system-compass program: an event-sourced order service
-- whose write side admits candidate events into accepted history, and whose read side projects that
-- history. All paths are from the repository's root.
--
-- The parts, and the files that model them:
--   src/core/common/money.py                  Money (with Decimal for Python's decimal module)
--   src/core/order/                           Order: the vocabulary and events; Order/Aggregate: the
--                                             aggregate; Order/Contract: the declarative
--                                             contract and the violation record
--   src/compass/transition/                   Transition: types and validators; Transition/Evidence;
--                                             Transition/Runtime: dispatcher, policy and runtime
--   src/storage/event_store.py                Storage/EventStore
--   src/storage/idempotency_store.py          Storage/Idempotency
--   src/pipeline/transactional/admission.py   Admission
--   src/pipeline/transactional/registry.py    Registry: the handlers, in the code's six steps
--   src/bootstrap/build_transactional_runtime.py  Registry (new_world) and Transition/Runtime
--                                             (default_runtime)
--   src/pipeline/projection/reducer.py        Projection
--   src/pipeline/projection/worker.py         Projection/Worker, with src/storage/projection_store.py
--                                             and src/storage/checkpoint_store.py
--   src/pipeline/projection/replay_validator.py  Projection/Validator
--   src/compass/runtime/semantic_outcome.py, technical_status_mapping.py and
--   read_side_outcome_mapping.py              Outcome, Outcome/Technical, Outcome/ReadSide
--   src/pipeline/transactional/postgres_write_side.py  Postgres/Delivery: results, executions and the
--                                             trace collector; Postgres/WriteSide: the steps in the
--                                             unit of work; Postgres/WriteSide/Flows: the two
--                                             placements and the public operations
--   src/pipeline/transactional/postgres_write_side_execution_trace.py, postgres_write_side_config.py
--                                             Postgres/Trace
--   src/pipeline/transactional/postgres_unit_of_work.py  Postgres/UnitOfWork
--   src/pipeline/transactional/postgres_admission.py     Postgres/Gate
--   src/storage/postgres_event_store.py, order_event_hydration.py  Postgres/EventStore, Postgres/Rows
--   src/storage/postgres_idempotency_store.py  Postgres/IdempotencyStore, Postgres/Fingerprint
--   src/compass/runtime/write_side_outcome_mapping.py  Governance/WriteSideOutcome and
--                                             Governance/OutcomeMapping
--   src/compass/runtime/write_side_rule_feedback.py, runtime_decision.py and
--   write_side_runtime_decision.py            Governance/Decision
--   src/compass/runtime/reinvocation_authority.py and
--   postgres_write_side_reinvocation_authority.py  Governance/Reinvocation
--   src/pipeline/transactional/postgres_write_side_invocation_owner.py  Governance/Owner
--   src/pipeline/projection/projection_snapshot_assisted_state_resolver.py  Projection/Snapshot
--   src/pipeline/projection/projection_snapshot_replay_validator.py  Projection/Snapshot/ReplayValidator
--   Base and its children hold what all parts share; Failure lists the exceptions; Tests holds
--   sample data, runs of the handlers, and an instance of each result.
--
-- How they interact: a handler asks the request memory, rehydrates the aggregate from the event
-- store, lets the aggregate make a candidate, has Compass validate it against the accepted history,
-- passes it through the optimistic gate into the event store, and then applies and remembers it. The
-- worker takes accepted events from a feed, reduces them into the projection store and moves its
-- checkpoint. The replay validator compares that projection with a replay of accepted history, and
-- its result is mapped to a semantic outcome. The PostgreSQL write side runs the same six steps over
-- database rows, inside a unit of work that commits or rolls back; its result is mapped to a semantic
-- outcome, from which the runtime decision follows. The invocation owner calls it once, and once more
-- where the reinvocation authority allows it.
--
-- State: the in-memory stores are dictionaries (Base/Dict). A handler takes the state (World) and
-- returns its reply with the state it leaves; an exception is a value of Failure, and the state that
-- is returned with it has the writes that were made before the raise. Registry/Interleaving cuts the
-- handlers at their admission, as a step relation on a state with pending writers; a read with its
-- validation is one step there, and an admission with what follows it another. The database is a
-- parameter: Postgres/Session has one operation for each SQL statement and transaction command, and
-- the write side is a computation on its state that may raise (Base/Action). What is relied on of
-- transactions is a hypothesis, IsTransactional of Postgres/Transaction, which Tests/Postgres shows of
-- a small database. Governance/Owner/Lifecycle has the owner's calls as a relation, cut where the lock
-- is released.
--
-- The snapshot replay validator compares a snapshot and the tail behind it with accepted history, and
-- the snapshot-assisted resolver starts from a snapshot that the caller trusts; both read the tail by
-- one loop (two copies in the source, one definition here), whose source is a total function: an
-- exception of the source itself is left out.
--
-- Numbers: Python's int is unbounded, so sequences, versions and offsets are naturals. Decimals are
-- sign, coefficient and exponent; quantize fails above 28 digits, the default context's precision.
-- The digit printer has fuel one more than the number, which is enough since each step divides by
-- ten. The loop over the tail of a snapshot has the caller's fuel; one turn for
-- each event of the tail and one for its end is enough where the source serves an accepted history.
--
-- Not modelled: the uuid and the clock that stamp a candidate are an argument (Stamp); timings,
-- metadata and the texts of reasons, which no code reads; the decimal digits of other scripts than
-- ASCII, which Python's Decimal accepts in a text (the model refuses them); the signalling NaN as distinct from the
-- quiet one; the limits on decimal exponents. Of the PostgreSQL write side, the measured operations
-- and substitutes of the two gates; of the owner, the test that two events are one object. The
-- projection side of PostgreSQL, the decision receipts, the snapshot stores,
-- measurement and the experiments are not modelled.
pub mod Base
pub mod Failure
pub mod Decimal
pub mod Money
pub mod Order
pub mod Transition
pub mod Storage
pub mod Admission
pub mod Registry
pub mod Projection
pub mod Outcome
pub mod Postgres
pub mod Governance
pub mod Tests
