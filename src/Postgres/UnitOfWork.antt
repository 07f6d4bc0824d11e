-- ===== src/Postgres/UnitOfWork.antt =====
-- src/pipeline/transactional/postgres_unit_of_work.py
use streaming_system_compass.Base.{Bool, true, false}
use streaming_system_compass.Base.Result.{Result, ok, err, raise_if}
use streaming_system_compass.Base.Action.{Action, ◌>>◌, return, raise}
use streaming_system_compass.Failure.{Failure, autocommit_enabled}
use streaming_system_compass.Postgres.Session.{Session}

-- The connection and the flag `_finished`.
pub record UnitOfWork (D : Type 0) : Type 0 where
  pub session : D
  pub finished : Bool

module _ {D : Type 0} where
  abbrev pub attach :
      {A : Type 0} → UnitOfWork D → Result Failure A × D → Result Failure A × UnitOfWork D
  attach u m = (m.0, record u { session = m.1 })

  -- What a store of the unit of work does.
  abbrev pub on_session : {A : Type 0} → Action D A → Action (UnitOfWork D) A
  on_session m u = attach u (m u.session)

module _ {D : Type 0} (db : Session D) where
  set_finished : Action (UnitOfWork D) (Unit {0})
  set_finished u = (ok tt, record u { finished = true })

  -- `commit` and `rollback`
  unfoldable pub uow_commit : Action (UnitOfWork D) (Unit {0})
  unfolding set_finished
  uow_commit = on_session db.commit >> set_finished

  unfoldable pub uow_rollback : Action (UnitOfWork D) (Unit {0})
  unfolding set_finished
  uow_rollback = on_session db.rollback >> set_finished

  -- `__exit__`, with the flag, after a body that returned or raised
  unfoldable pub settle_uow : {A : Type 0} → Bool → Result Failure A → Action (UnitOfWork D) A
  unfolding uow_commit uow_rollback
  settle_uow true (ok a) = return a
  settle_uow true (err e) = raise e
  settle_uow false (ok a) = uow_commit >> return a
  settle_uow false (err e) = uow_rollback >> raise e

  -- `__enter__`
  unfoldable pub uow_enter : Action D (Unit {0})
  uow_enter s = (raise_if (db.autocommit s) autocommit_enabled, s)

  unfoldable pub close : {A : Type 0} → Result Failure A × UnitOfWork D → Result Failure A × D
  unfolding settle_uow
  close (r, u) = let (r', u') = settle_uow u.finished r u in (r', u'.session)

  -- `with PostgresWriteSideUnitOfWork(connection) as uow: …`
  unfoldable pub with_uow : {A : Type 0} → Action (UnitOfWork D) A → Action D A
  unfolding close uow_enter
  with_uow body = uow_enter >> λ s. close (body (record { session = s; finished = false }))
