-- ===== src/Registry/Steps.antt =====
-- The handler's early returns, one equation for each answer of the request memory.
use streaming_system_compass.Base.{
  Bool, true, false, none, some, List, if◌then◌else◌, ◌≡◌, refl, arith,
}
use streaming_system_compass.Base.Dict.{lookup}
use streaming_system_compass.Base.Result.{Result, ok, err}
use streaming_system_compass.Money.{decimal}
use streaming_system_compass.Failure.{Failure}
use streaming_system_compass.Order.{OrderEvent, Stamp}
use streaming_system_compass.Order.Aggregate.{OrderAggregate, apply}
use streaming_system_compass.Transition.Runtime.{ValidationRuntime}
use streaming_system_compass.Storage.EventStore.{EventStore}
use streaming_system_compass.Storage.Idempotency.{
  RequestSignature, IdempotencyProvider, IdempotencyRecord, conflict, check, remember, signature_eq,
}
use streaming_system_compass.Admission.{
  admitted_result, AdmissionResult, is_admitted, append_if_admitted,
}
use streaming_system_compass.Registry.{
  World, Reply, event, admission, admit, settle, settled, admit_reply, idempotency, propose,
  process, handle, rehydrate, run_command, check_idempotency, after_check,
}

-- The reply to a request id that is remembered.
abbrev pub remembered_reply : RequestSignature → IdempotencyRecord → Reply
remembered_reply signature m =
    if signature_eq m.signature signature
    then event m.accepted_event
    else idempotency (record { verdict = conflict; prior = some m })

module _ (signature : RequestSignature) where
  check_idempotency-new :
      (p : IdempotencyProvider)
      → lookup signature.request_id p ≡ none
      → check_idempotency signature p ≡ none
  unfolding check_idempotency check
  check_idempotency-new p h = ground arith

  check_idempotency-known :
      (m : IdempotencyRecord) (p : IdempotencyProvider)
      → lookup signature.request_id p ≡ some m
      → check_idempotency signature p ≡ some (remembered_reply signature m)
  unfolding check_idempotency check
  check_idempotency-known m p h = ground arith

  module _ (runtime : ValidationRuntime) (stamp : Stamp) (w : World) where
    -- A request id that is remembered ends the handler at once.
    pub handle-known :
        (m : IdempotencyRecord)
        → lookup signature.request_id w.idem ≡ some m
        → handle runtime stamp signature w ≡ (ok (remembered_reply signature m), w)
    unfolding handle after_check
    handle-known m h = rw (check_idempotency-known m w.idem h) refl

    pub handle-unreadable :
        (f : Failure)
        → lookup signature.request_id w.idem ≡ none
        → rehydrate signature.order_id w.store ≡ err f
        → handle runtime stamp signature w ≡ (err f, w)
    unfolding handle after_check process
    handle-unreadable f h r = rw (check_idempotency-new w.idem h, after_check, r) refl

    pub handle-new :
        (a : OrderAggregate) (history : List OrderEvent)
        → lookup signature.request_id w.idem ≡ none
        → rehydrate signature.order_id w.store ≡ ok (a, history)
        → handle runtime stamp signature w
          ≡ propose runtime signature a history
              (run_command signature.command_type a stamp signature.request_id
                (decimal signature.amount))
              w
    unfolding handle after_check process
    handle-new a history h r = rw (check_idempotency-new w.idem h, after_check, r) refl

-- Steps 5 and 6 of a candidate that the gate admits and the aggregate applies.
pub admit-ok :
    (signature : RequestSignature) (a a' : OrderAggregate) (c : OrderEvent) (w : World)
    (store' : EventStore)
    → append_if_admitted c a.current_version w.store ≡ (ok (admitted_result c), store')
    → apply a c ≡ ok a'
    → admit signature a c w
      ≡ (ok (event c), record { store = store'; idem = remember signature c w.idem })
unfolding admit admit_reply settle settled is_admitted
admit-ok signature a a' c w store' p q = rw p (rw (q, settle) refl)

-- Whatever the replies, the store behind an admission is the one that the append left.
pub admit-store :
    (signature : RequestSignature) (a : OrderAggregate) (c : OrderEvent) (w : World)
    → (admit signature a c w).1.store ≡ (append_if_admitted c a.current_version w.store).1
unfolding admit
admit-store signature a c w =
    let (r, store') = append_if_admitted c a.current_version w.store in
    admit_reply-store (record w { store = store' }) r
  where
    settle-store :
        (w' : World) (m : Result Failure OrderAggregate)
        → (settled signature c w' m).1.store ≡ w'.store
    settle-store w' (ok _) = refl
    settle-store w' (err f) = refl

    by_verdict :
        (w' : World) (r : AdmissionResult) (b : Bool)
        → (if b then settle signature a c w' else (ok (admission r), w')).1.store ≡ w'.store
    by_verdict w' r true = settle-store w' (apply a c)
    by_verdict w' r false = refl

    admit_reply-store :
        (w' : World) (r : Result Failure AdmissionResult)
        → (admit_reply signature a c w' r).1.store ≡ w'.store
    admit_reply-store w' (err f) = refl
    admit_reply-store w' (ok r) = by_verdict w' r (is_admitted r.verdict)
