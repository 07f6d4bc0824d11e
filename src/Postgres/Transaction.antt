-- ===== src/Postgres/Transaction.antt =====
-- What the write side relies on of a database transaction: which writes a connection has made
-- durable, and which only its open transaction holds.
use streaming_system_compass.Base.{false, List, [], ◌∷◌, ◌++◌, String, ◌≡◌, ◌⊎◌}
use streaming_system_compass.Base.Triple.{Post}
use streaming_system_compass.Postgres.Rows.{OrderEventRow, IdempotencyInsert}
use streaming_system_compass.Postgres.Session.{Session}

pub data Write : Type 0 where
  event : OrderEventRow → Write
  request : IdempotencyInsert → Write

-- The writes of this connection that are durable, and those of its open transaction.
pub record Ledger (D : Type 0) : Type 0 where
  pub published : D → List Write
  pub pending : D → List Write

module _ {D : Type 0} (db : Session D) (ledger : Ledger D) where
  -- A transaction is open, with these writes, on top of these durable ones.
  pub record IsOpen (p w : List Write) (s : D) : Type 0 where
    pub published_eq : ledger.published s ≡ p
    pub pending_eq : ledger.pending s ≡ w
    pub autocommit_eq : db.autocommit s ≡ false

  -- The documented behaviour of PostgreSQL and its driver. A read changes neither list. An INSERT
  -- outside autocommit joins the open transaction, and one that fails makes nothing durable. ROLLBACK
  -- drops the open transaction; COMMIT makes all of it durable, and where it raises, all or nothing.
  pub record IsTransactional : Type 0 where
    pub commit_law :
        (s : D)
        → Post
            (λ _ s'. ledger.published s' ≡ ledger.published s ++ ledger.pending s)
            (λ s'.
              (ledger.published s' ≡ ledger.published s)
              ⊎ (ledger.published s' ≡ ledger.published s ++ ledger.pending s))
            (db.commit s)
    pub rollback_law :
        (s : D)
        → Post
            (λ _ s'. (ledger.published s' ≡ ledger.published s) × (ledger.pending s' ≡ []))
            (λ s'. ledger.published s' ≡ ledger.published s)
            (db.rollback s)
    pub version_law :
        (order_id : String) (p w : List Write) (s : D)
        → IsOpen p w s
        → Post (λ _. IsOpen p w) (λ s'. ledger.published s' ≡ p) (db.current_version order_id s)
    pub events_law :
        (order_id : String) (p w : List Write) (s : D)
        → IsOpen p w s
        → Post (λ _. IsOpen p w) (λ s'. ledger.published s' ≡ p) (db.select_events order_id s)
    pub record_law :
        (request_id : String) (p w : List Write) (s : D)
        → IsOpen p w s
        → Post (λ _. IsOpen p w) (λ s'. ledger.published s' ≡ p) (db.select_record request_id s)
    pub lock_law :
        (order_id : String) (p w : List Write) (s : D)
        → IsOpen p w s
        → Post (λ _. IsOpen p w) (λ s'. ledger.published s' ≡ p) (db.try_lock order_id s)
    pub insert_event_law :
        (row : OrderEventRow) (p w : List Write) (s : D)
        → IsOpen p w s
        → Post
            (λ _. IsOpen p (w ++ event row ∷ []))
            (λ s'. ledger.published s' ≡ p)
            (db.insert_event row s)
    pub insert_record_law :
        (row : IdempotencyInsert) (p w : List Write) (s : D)
        → IsOpen p w s
        → Post
            (λ _. IsOpen p (w ++ request row ∷ []))
            (λ s'. ledger.published s' ≡ p)
            (db.insert_record row s)
