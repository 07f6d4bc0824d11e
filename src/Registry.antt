-- ===== src/Registry.antt =====
-- src/pipeline/transactional/registry.py: the transactional orchestration over the in-memory stores,
-- as src/bootstrap/build_transactional_runtime.py wires it.
pub mod Steps
pub mod Invariant
pub mod Handling
pub mod Preservation
pub mod Soundness
pub mod Retry
pub mod Stored
pub mod Acceptance
pub mod Lifecycle
pub mod Interleaving
use streaming_system_compass.Base.{
  ℕ, Bool, true, false, Option, none, some, List, [], ◌∷◌, String, last?, if◌then◌else◌,
}
use streaming_system_compass.Base.Dict.{empty}
use streaming_system_compass.Base.Result.{Result, ok, err, ◌>>=◌}
use streaming_system_compass.Decimal.{Decimal}
use streaming_system_compass.Money.{decimal, MoneyInput}
use streaming_system_compass.Failure.{Failure}
use streaming_system_compass.Order.{CommandType, OrderEvent, Stamp}
use streaming_system_compass.Order.Aggregate.{
  OrderAggregate, new_aggregate, replay, create, pay, apply,
}
use streaming_system_compass.Transition.{
  ValidationMode, ValidationContext, ValidationDecision, EnforcementAction, allow, block,
}
use streaming_system_compass.Transition.Runtime.{ValidationRuntime, decide, default_runtime}
use streaming_system_compass.Storage.EventStore.{EventStore, load}
use streaming_system_compass.Storage.Idempotency.{
  RequestSignature, IdempotencyProvider, IdempotencyDecision, IdempotencyVerdict, IdempotencyRecord,
  miss, replay as replayed, conflict, check, remember,
}
use streaming_system_compass.Base.{◌≡◌, refl}
use streaming_system_compass.Admission.{
  admitted_result, AdmissionResult, is_admitted, append_if_admitted,
}

-- The mutable state behind a registry.
pub record World : Type 0 where
  pub store : EventStore
  pub idem : IdempotencyProvider

-- The state of a new runtime.
unfoldable pub new_world : World
new_world = record { store = empty; idem = empty }

-- What a handler returns: an event, or the decision that stopped it.
pub data Reply : Type 0 where
  event : OrderEvent → Reply
  idempotency : IdempotencyDecision → Reply
  validation : ValidationDecision → Reply
  admission : AdmissionResult → Reply

-- `_rehydrate_aggregate`: the aggregate, and the history that it was rebuilt from
unfoldable pub rehydrate : String → EventStore → Result Failure (OrderAggregate × List OrderEvent)
rehydrate order_id store = do
  let history = load order_id store
  aggregate ← new_aggregate order_id
  aggregate' ← replay aggregate history
  ok (aggregate', history)

-- `_build_validation_context`
unfoldable pub validation_context : OrderAggregate → Option OrderEvent → ValidationContext
validation_context aggregate actual_prev_event = record {
  actual_prev_event = actual_prev_event;
  actual_prev_version = aggregate.current_version;
  actual_prev_status = aggregate.status;
}

-- `_check_idempotency`: a reply that ends the handler, or nothing
replay_event : IdempotencyDecision → Option IdempotencyRecord → Reply
replay_event decision (some prior) = event prior.accepted_event
replay_event decision none = idempotency decision

idempotency_outcome : IdempotencyDecision → IdempotencyVerdict → Option Reply
unfolding replay_event
idempotency_outcome decision miss = none
idempotency_outcome decision replayed = some (replay_event decision decision.prior)
idempotency_outcome decision conflict = some (idempotency decision)

unfoldable pub check_idempotency : RequestSignature → IdempotencyProvider → Option Reply
unfolding idempotency_outcome
check_idempotency signature idem =
    let decision = check signature idem in idempotency_outcome decision decision.verdict

-- `aggregate.create(...)` or `aggregate.pay(...)`
unfoldable pub run_command :
    CommandType → OrderAggregate → Stamp → String → MoneyInput → Result Failure OrderEvent
run_command CommandType.create = create
run_command CommandType.pay = pay

-- Step 6: the local application, then the memory of the request.
settled :
    RequestSignature
    → OrderEvent
    → World
    → Result Failure OrderAggregate
    → Result Failure Reply × World
settled signature candidate w (err f) = (err f, w)
settled signature candidate w (ok _) =
    (ok (event candidate), record w { idem = remember signature candidate w.idem })

settle : RequestSignature → OrderAggregate → OrderEvent → World → Result Failure Reply × World
unfolding settled
settle signature aggregate candidate w = settled signature candidate w (apply aggregate candidate)

-- Step 5: the admission at the version of the aggregate.
admit_reply :
    RequestSignature
    → OrderAggregate
    → OrderEvent
    → World
    → Result Failure AdmissionResult
    → Result Failure Reply × World
unfolding settle settled
admit_reply signature aggregate candidate w (err f) = (err f, w)
admit_reply signature aggregate candidate w (ok r) =
    if is_admitted r.verdict then settle signature aggregate candidate w else (ok (admission r), w)

unfoldable pub admit :
    RequestSignature → OrderAggregate → OrderEvent → World → Result Failure Reply × World
unfolding admit_reply settle settled
admit signature aggregate candidate w =
    let (r, store') = append_if_admitted candidate aggregate.current_version w.store in
    admit_reply signature aggregate candidate (record w { store = store' }) r

-- Step 4: the validation against the accepted history.
pub by_action :
    EnforcementAction
    → ValidationDecision
    → RequestSignature
    → OrderAggregate
    → OrderEvent
    → World
    → Result Failure Reply × World
by_action allow decision signature aggregate candidate w = admit signature aggregate candidate w
by_action block decision signature aggregate candidate w = (ok (validation decision), w)

unfoldable pub propose :
    ValidationRuntime
    → RequestSignature
    → OrderAggregate
    → List OrderEvent
    → Result Failure OrderEvent
    → World
    → Result Failure Reply × World
unfolding by_action validation_context
propose runtime signature aggregate history (err f) w = (err f, w)
propose runtime signature aggregate history (ok candidate) w =
    let decision = decide runtime candidate (validation_context aggregate (last? history)) in
    by_action decision.action decision signature aggregate candidate w

-- Steps 2 and 3: the rehydrated aggregate makes the candidate.
unfoldable pub process :
    ValidationRuntime
    → Stamp
    → RequestSignature
    → World
    → Result Failure (OrderAggregate × List OrderEvent)
    → Result Failure Reply × World
process runtime stamp signature w (err f) = (err f, w)
process runtime stamp signature w (ok (aggregate, history)) =
    propose runtime signature aggregate history
      (run_command signature.command_type aggregate stamp signature.request_id
        (decimal signature.amount))
      w

pub after_check :
    ValidationRuntime
    → Stamp
    → RequestSignature
    → World
    → Option Reply
    → Result Failure Reply × World
after_check runtime stamp signature w (some reply) = (ok reply, w)
after_check runtime stamp signature w none =
    process runtime stamp signature w (rehydrate signature.order_id w.store)

-- `handle_create` and `handle_pay`, which differ in the command type and the aggregate's method.
unfoldable pub handle :
    ValidationRuntime → Stamp → RequestSignature → World → Result Failure Reply × World
unfolding after_check
handle runtime stamp signature w =
    after_check runtime stamp signature w (check_idempotency signature w.idem)

unfoldable pub handle_create :
    ValidationRuntime → Stamp → String → String → Decimal → World → Result Failure Reply × World
handle_create runtime stamp request_id order_id amount = handle runtime stamp (record {
  request_id = request_id;
  command_type = CommandType.create;
  order_id = order_id;
  amount = amount;
})

unfoldable pub handle_pay :
    ValidationRuntime → Stamp → String → String → Decimal → World → Result Failure Reply × World
handle_pay runtime stamp request_id order_id amount = handle runtime stamp (record {
  request_id = request_id;
  command_type = CommandType.pay;
  order_id = order_id;
  amount = amount;
})
