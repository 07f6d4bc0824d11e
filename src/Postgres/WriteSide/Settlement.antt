-- ===== src/Postgres/WriteSide/Settlement.antt =====
-- src/pipeline/transactional/postgres_write_side.py: what the end of a unit of work makes
-- durable.
use streaming_system_compass.Base.{
  Bool, true, false, Bool-cases, List, [], ◌++◌, ◌≡◌, refl, sym, subst, ◌∙◌, ◌⊎◌, inl, inr,
}
use streaming_system_compass.Base.Result.{Result, ok, err}
use streaming_system_compass.Base.Action.{Action, resume}
use streaming_system_compass.Base.Triple.{Post, resume-Post, returned-Post, failed-Post}
use streaming_system_compass.Failure.{Failure, autocommit_enabled}
use streaming_system_compass.Order.{OrderEvent}
use streaming_system_compass.Storage.Idempotency.{RequestSignature}
use streaming_system_compass.Postgres.Session.{Session}
use streaming_system_compass.Postgres.Transaction.{Write, Ledger, IsOpen, IsTransactional}
use streaming_system_compass.Postgres.UnitOfWork.{
  UnitOfWork, uow_commit, uow_enter, settle_uow, close, with_uow,
}
use streaming_system_compass.Postgres.Delivery.{CommandResult, result_of}
use streaming_system_compass.Postgres.WriteSide.Writes.{
  is_accepted, Batch, AcceptedAs, Inside, Lost, Ended, attach-Post, uow_rollback-Post,
}

module _ {D : Type 0} (db : Session D) (ledger : Ledger D) where
  -- How a call ends: nothing is durable that was not before, or exactly the two rows of one event.
  abbrev pub Settled : RequestSignature → List Write → CommandResult → D → Type 0
  Settled signature p x s =
      ((is_accepted (result_of x).outcome ≡ false) × (ledger.published s ≡ p))
      ⊎ ((e : OrderEvent) × (w : List Write) × AcceptedAs (result_of x) e
          × Batch signature e w
          × (ledger.published s ≡ p ++ w))

  abbrev pub Raised : RequestSignature → List Write → D → Type 0
  Raised signature p s =
      (ledger.published s ≡ p)
      ⊎ ((e : OrderEvent) × (w : List Write) × Batch signature e w × (ledger.published s ≡ p ++ w))

  module _ (law : IsTransactional db ledger) (signature : RequestSignature) where
    -- A body that returned without an explicit end is committed.
    commit-Post :
        (p w : List Write) (x : CommandResult) (e : OrderEvent) (u : UnitOfWork D)
        → AcceptedAs (result_of x) e
        → Batch signature e w
        → IsOpen db ledger p w u.session
        → Post
            (λ x u'. Settled signature p x u'.session)
            (λ u'. Raised signature p u'.session)
            (resume (λ _ u'. (ok x, u')) (uow_commit db u))
    unfolding uow_commit
    commit-Post p w x e u a b h =
        resume-Post _ _ _ (uow_commit db u)
          (resume-Post (λ _ u'. ledger.published u'.session ≡ p ++ w)
            (λ u'. Raised signature p u'.session) _ _
            (attach-Post _ _ u (db.commit u.session) (law.commit_law u.session))
            (λ _ u' (h', _). returned-Post _ _ _ _ (h' ∙ grown)) (λ _ h'. raised h'))
          (λ _ u' h'. returned-Post _ _ _ _ (inr (e, w, a, b, h'))) (λ _ h'. h')
      where
        grown : ledger.published u.session ++ ledger.pending u.session ≡ p ++ w
        grown = rw (h.published_eq, h.pending_eq) refl

        raised :
            {s' : D}
            → (ledger.published s' ≡ ledger.published u.session)
              ⊎ (ledger.published s' ≡ ledger.published u.session ++ ledger.pending u.session)
            → Raised signature p s'
        raised (inl h') = inl (h' ∙ h.published_eq)
        raised (inr h') = inr (e, w, b, h' ∙ grown)

    -- A body that raised inside the unit of work is rolled back.
    abort-Post :
        (p : List Write) (f : Failure) (b : Bool) (u : UnitOfWork D)
        → Lost db ledger p u
        → Post
            (λ x u'. Settled signature p x u'.session)
            (λ u'. Raised signature p u'.session)
            (settle_uow db {A = CommandResult} b (err f) u)
    unfolding settle_uow
    abort-Post p f true u h = failed-Post _ _ f u (inl h)
    abort-Post p f false u h =
        resume-Post _ _ _ _ (uow_rollback-Post db ledger law p u h)
          (λ _ u' (h', _). failed-Post _ _ f u' (inl h')) (λ _ h'. inl h')

    finish-Post :
        (p : List Write) (x : CommandResult) (u : UnitOfWork D)
        → Ended db ledger signature p x u
        → Post
            (λ x u'. Settled signature p x u'.session)
            (λ u'. Raised signature p u'.session)
            (settle_uow db u.finished (ok x) u)
    unfolding settle_uow
    finish-Post p x u (inl (h, h', hf)) =
        subst
          (λ b.
            Post (λ x u'. Settled signature p x u'.session) (λ u'. Raised signature p u'.session)
              (settle_uow db b (ok x) u))
          (sym hf) (returned-Post _ _ x u (inl (h, h')))
    finish-Post p x u (inr (e, w, a, b, (h, hf))) =
        subst
          (λ b.
            Post (λ x u'. Settled signature p x u'.session) (λ u'. Raised signature p u'.session)
              (settle_uow db b (ok x) u))
          (sym hf) (commit-Post p w x e u a b h)

    detach-Post :
        (p : List Write) (m : Result Failure CommandResult × UnitOfWork D)
        → Post (λ x u'. Settled signature p x u'.session) (λ u'. Raised signature p u'.session) m
        → Post (Settled signature p) (Raised signature p) (m.0, (m.1).session)
    unfolding Post
    detach-Post p (ok x, u) h = h
    detach-Post p (err f, u) h = h

    close-Post :
        (p : List Write) (m : Result Failure CommandResult × UnitOfWork D)
        → Post (Ended db ledger signature p) (Lost db ledger p) m
        → Post (Settled signature p) (Raised signature p) (close db m)
    unfolding close Post
    close-Post p (ok x, u) h = detach-Post p _ (finish-Post p x u h)
    close-Post p (err f, u) h = detach-Post p _ (abort-Post p f u.finished u h)

    pub with_uow-Post :
        (p : List Write) (body : Action (UnitOfWork D) CommandResult)
        → ((u : UnitOfWork D)
            → Inside db ledger p [] u
            → Post (Ended db ledger signature p) (Lost db ledger p) (body u))
        → (s : D) → ledger.published s ≡ p
        → ledger.pending s ≡ []
        → Post (Settled signature p) (Raised signature p) (with_uow db body s)
    unfolding with_uow uow_enter
    with_uow-Post p body h s hp hq = elim (Bool-cases (db.autocommit s)) [
      | inl e ↦ rw e (failed-Post _ _ autocommit_enabled s (inl hp))
      | inr e ↦ rw e (
          close-Post p _ (
            h (record { session = s; finished = false })
              (record { published_eq = hp; pending_eq = hq; autocommit_eq = e }, refl)))
    ]
