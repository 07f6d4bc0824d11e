-- ===== src/Governance.antt =====
-- What is made of a result of the PostgreSQL write side: src/compass/runtime, and
-- src/pipeline/transactional/postgres_write_side_invocation_owner.py.
pub mod WriteSideOutcome
pub mod OutcomeMapping
pub mod Decision
pub mod Reinvocation
pub mod Agreement
pub mod Authority
pub mod Owner
