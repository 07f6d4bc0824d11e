-- ===== src/Postgres/Session.antt =====
-- A psycopg connection, as the write side uses it: one operation for each SQL statement and each
-- transaction command of the source. What they do is not this program's code; they are given.
use streaming_system_compass.Base.{ℕ, Bool, Option, List, String}
use streaming_system_compass.Base.Action.{Action}
use streaming_system_compass.Postgres.Rows.{OrderEventRow, IdempotencyRow, IdempotencyInsert}

pub record Session (D : Type 0) : Type 0 where
  pub autocommit : D → Bool
  -- `connection.commit()` and `connection.rollback()`
  pub commit : Action D (Unit {0})
  pub rollback : Action D (Unit {0})
  -- SELECT COALESCE(MAX(sequence), 0) FROM order_events WHERE order_id = …
  pub current_version : String → Action D ℕ
  -- SELECT … FROM order_events WHERE order_id = … ORDER BY sequence ASC
  pub select_events : String → Action D (List OrderEventRow)
  -- INSERT INTO order_events
  pub insert_event : OrderEventRow → Action D (Unit {0})
  -- SELECT … FROM idempotency_records JOIN order_events … WHERE request_id = …
  pub select_record : String → Action D (Option IdempotencyRow)
  -- INSERT INTO idempotency_records
  pub insert_record : IdempotencyInsert → Action D (Unit {0})
  -- SELECT pg_try_advisory_xact_lock(…)
  pub try_lock : String → Action D Bool
