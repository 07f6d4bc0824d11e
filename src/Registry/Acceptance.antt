-- ===== src/Registry/Acceptance.antt =====
-- Which new requests are accepted, and what they append.
use streaming_system_compass.Base.{false, none, List, String, ◌≡◌, refl, ◌∙◌, ap, last?}
use streaming_system_compass.Base.Text.{is_blank}
use streaming_system_compass.Base.Dict.{lookup}
use streaming_system_compass.Base.Result.{Result, ok, err}
use streaming_system_compass.Failure.{Failure}
use streaming_system_compass.Decimal.{Decimal}
use streaming_system_compass.Money.{decimal}
use streaming_system_compass.Order.{EventType, OrderEvent, Stamp, Proof}
use streaming_system_compass.Order.Aggregate.{OrderAggregate, fresh}
use streaming_system_compass.Order.History.{IsNext, IsHistory, IsLegal, final, final-last_event}
use streaming_system_compass.Transition.{ValidationMode, strict, off, allow, no_op_validate}
use streaming_system_compass.Transition.Runtime.{decide, default_runtime, policy, validate, select}
use streaming_system_compass.Transition.Soundness.{IsTruthful, predecessor, validate-passed}
use streaming_system_compass.Storage.EventStore.{load}
use streaming_system_compass.Storage.Idempotency.{RequestSignature}
use streaming_system_compass.Registry.{
  World, Reply, event, propose, by_action, handle, validation_context, run_command,
}
use streaming_system_compass.Registry.Steps.{handle-new}
use streaming_system_compass.Registry.Invariant.{current, admit-IsNext}
use streaming_system_compass.Registry.Handling.{rehydrate-current, command-IsNext}

-- A candidate that continues the current state of its order tells the truth about its history.
IsNext-IsTruthful :
    (o : String) (history : List OrderEvent) (e : OrderEvent)
    → IsNext (final (fresh o) history) e
    → IsTruthful e (validation_context (final (fresh o) history) (last? history))
unfolding validation_context
IsNext-IsTruthful o history e n =
    let a = final (fresh o) history in
    (
      n.next_sequence,
      ap (λ (p : Proof). p.prev_event_id) n.honest ∙ final-last_event o history,
      ap (λ (p : Proof). p.prev_version) n.honest,
      ap (λ (p : Proof). p.prev_status) n.honest,
      legal_predecessor e.event_type a e.amount n.legal,
    )
  where
    legal_predecessor :
        (t : EventType) (a : OrderAggregate) (d : Decimal)
        → IsLegal t a d
        → a.status ≡ predecessor t
    legal_predecessor EventType.created a d l = l
    legal_predecessor EventType.paid a d l = l.0

-- The runtime that the program wires lets every such candidate through, in both modes.
default_runtime-allow :
    (mode : ValidationMode) (o : String) (history : List OrderEvent) (e : OrderEvent)
    → IsNext (final (fresh o) history) e
    → (decide
        (default_runtime mode)
        e
        (validation_context (final (fresh o) history) (last? history))).action
      ≡ allow
unfolding decide policy validate select no_op_validate
default_runtime-allow off o history e n = refl
default_runtime-allow strict o history e n =
    let ctx = validation_context (final (fresh o) history) (last? history) in
    rw ((validate-passed e ctx).1 (IsNext-IsTruthful o history e n)) refl

-- The reply that carries a command's event.
abbrev pub answer : Result Failure OrderEvent → Result Failure Reply
answer (ok e) = ok (event e)
answer (err f) = err f

module _ (mode : ValidationMode) (stamp : Stamp) (signature : RequestSignature) (w : World)
    (sound : (o : String) → IsHistory (fresh o) (load o w.store)) where
  -- a candidate of the current state goes through validation and admission
  propose-event :
      (c : OrderEvent)
      → IsNext (current w signature.order_id) c
      → (propose
          (default_runtime mode)
          signature
          (current w signature.order_id)
          (load signature.order_id w.store)
          (ok c)
          w).0
        ≡ ok (event c)
  unfolding propose by_action
  propose-event c n =
      rw
        (
          default_runtime-allow mode signature.order_id (load signature.order_id w.store) c n,
          by_action,
          (admit-IsNext signature (current w signature.order_id) c w (sound signature.order_id) refl
              n).0,
        )
        refl

  propose-err :
      (f : Failure)
      → (propose
          (default_runtime mode)
          signature
          (current w signature.order_id)
          (load signature.order_id w.store)
          (err f)
          w).0
        ≡ err f
  unfolding propose
  propose-err f = refl

  -- With the wired runtime in either mode, where the stored histories are accepted histories, a
  -- request whose id is not remembered and whose order id is not blank is answered exactly as its
  -- command decides: the event that the command makes, or the exception that it raises.
  pub handle-command :
      lookup signature.request_id w.idem ≡ none
      → is_blank signature.order_id ≡ false
      → (handle (default_runtime mode) stamp signature w).0
        ≡ answer (
            run_command signature.command_type
              (current w signature.order_id)
              stamp
              signature.request_id
              (decimal signature.amount))
  handle-command new named =
      let a = current w signature.order_id in
      let history = load signature.order_id w.store in
      let made : Result Failure OrderEvent =
        run_command signature.command_type a stamp signature.request_id
          (decimal signature.amount) in
      rw
        (handle-new signature (default_runtime mode) stamp w a history new
          (rw named at (rehydrate-current stamp signature w sound)))
        (go made (λ c h.
          (command-IsNext stamp signature w sound signature.command_type (decimal signature.amount)
            c h).0))
    where
      go :
          (m : Result Failure OrderEvent)
          → ((c : OrderEvent) → m ≡ ok c → IsNext (current w signature.order_id) c)
          → (propose
              (default_runtime mode)
              signature
              (current w signature.order_id)
              (load signature.order_id w.store)
              m
              w).0
            ≡ answer m
      go (err f) next = propose-err f
      go (ok c) next = propose-event c (next c refl)
