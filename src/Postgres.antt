-- ===== src/Postgres.antt =====
-- The PostgreSQL write side: src/pipeline/transactional/postgres_write_side.py and what it stands on.
-- The database is a parameter, `Session`: what each SQL statement of the stores returns and does.
pub mod Rows
pub mod Fingerprint
pub mod Session
pub mod Transaction
pub mod EventStore
pub mod IdempotencyStore
pub mod Trace
pub mod UnitOfWork
pub mod Gate
pub mod Delivery
pub mod WriteSide
