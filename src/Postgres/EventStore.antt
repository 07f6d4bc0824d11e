-- ===== src/Postgres/EventStore.antt =====
-- src/storage/postgres_event_store.py
use streaming_system_compass.Base.{ℕ, ◌+◌, not, List, [], ◌∷◌, String, ◌==◌}
use streaming_system_compass.Base.Result.{Result, ok, err, raise_if}
use streaming_system_compass.Base.Action.{Action, ◌>>=◌, ◌>>◌, lift}
use streaming_system_compass.Failure.{Failure, append_version_mismatch, continuity_broken}
use streaming_system_compass.Order.{OrderEvent}
use streaming_system_compass.Postgres.Rows.{OrderEventRow, event_row, row_to_order_event}
use streaming_system_compass.Postgres.Session.{Session}
use streaming_system_compass.Base.Result

-- `[row_to_order_event(row) for row in rows]`
unfoldable pub hydrate : List OrderEventRow → Result Failure (List OrderEvent)
hydrate [] = ok []
hydrate (row ∷ rows) =
    let rest = hydrate rows in
    Result.◌>>=◌ (row_to_order_event row) λ e. Result.◌>>=◌ rest λ es. ok (e ∷ es)

module _ {D : Type 0} (db : Session D) where
  -- `PostgresEventStore.append`
  unfoldable pub append_event : OrderEvent → ℕ → Action D (Unit {0})
  append_event candidate expected = do
    current ← db.current_version candidate.order_id
    lift (raise_if (not (current == expected)) (append_version_mismatch expected current))
    lift (
        raise_if (not (candidate.sequence == expected + 1))
          (continuity_broken (expected + 1) candidate.sequence))
    db.insert_event (event_row candidate)

  -- `PostgresEventStore.load`
  unfoldable pub load_history : String → Action D (List OrderEvent)
  load_history order_id = do rows ← db.select_events order_id; lift (hydrate rows)
