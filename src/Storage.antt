-- ===== src/Storage.antt =====
-- storage: the in-memory stores of the write side.
pub mod EventStore
pub mod Idempotency
