-- ===== src/Registry/Handling.antt =====
-- What a handler does to the state, whatever the request: src/pipeline/transactional/registry.py,
-- `handle_create` and `handle_pay`.
use streaming_system_compass.Registry.Steps.{handle-known, handle-unreadable, handle-new}
use streaming_system_compass.Base.{
  none, String, ◌≡◌, inl, inr, refl, ap, arith, last?, if◌then◌else◌, Option-cases, Bool-cases,
}
use streaming_system_compass.Base.Dict.{lookup}
use streaming_system_compass.Base.Result.{Result, ok, err}
use streaming_system_compass.Failure.{Failure, empty_order_id}
use streaming_system_compass.Order.{CommandType, OrderEvent, Stamp}
use streaming_system_compass.Order.Aggregate.{fresh, new_aggregate}
use streaming_system_compass.Order.History.{
  IsNext, IsHistory, IsCoherent, final-IsCoherent, fresh-IsCoherent, replay-IsHistory,
}
use streaming_system_compass.Transition.Runtime.{ValidationRuntime, decide}
use streaming_system_compass.Storage.EventStore.{load}
use streaming_system_compass.Storage.Idempotency.{RequestSignature}
use streaming_system_compass.Base.Text.{is_blank}
use streaming_system_compass.Money.{MoneyInput, decimal, ensure_positive_money}
use streaming_system_compass.Order.Aggregate.Legality.{create-ok, pay-ok}
use streaming_system_compass.Order.Candidates.{create-IsNext, pay-IsNext}
use streaming_system_compass.Transition.{EnforcementAction, allow, block, ValidationDecision}
use streaming_system_compass.Registry.{
  World, by_action, propose, handle, rehydrate, run_command, validation_context,
}
use streaming_system_compass.Registry.Invariant.{current, SameWorld, Handles, admit-IsNext}

same : (w : World) → SameWorld w w
same w = (λ j. refl, refl)

-- The candidate that a command makes from the current state carries the request and the stamp.
module _ (stamp : Stamp) (signature : RequestSignature) (w : World)
    (sound : (o : String) → IsHistory (fresh o) (load o w.store)) where
  coherent : (o : String) → IsCoherent (current w o)
  coherent o = final-IsCoherent (fresh o) (load o w.store) (fresh-IsCoherent o) (sound o)

  pub command-IsNext :
      (t : CommandType) (v : MoneyInput) (c : OrderEvent)
      → run_command t (current w signature.order_id) stamp signature.request_id v ≡ ok c
      → IsNext (current w signature.order_id) c
        × (c.request_id ≡ signature.request_id)
        × (c.event_id ≡ stamp.event_id)
        × (ensure_positive_money v ≡ ok c.amount)
  unfolding run_command
  command-IsNext CommandType.create v c h =
      let (_, _, (_, paid, made)) =
        create-ok (current w signature.order_id) stamp signature.request_id v c h in
      (
        create-IsNext (current w signature.order_id) stamp signature.request_id v c h,
        ap (λ (x : OrderEvent). x.request_id) made,
        ap (λ (x : OrderEvent). x.event_id) made,
        cc (paid, ap (λ (x : OrderEvent). x.amount) made),
      )
  command-IsNext CommandType.pay v c h =
      let (_, _, (_, paid, _, made)) =
        pay-ok (current w signature.order_id) stamp signature.request_id v c h in
      (
        pay-IsNext (current w signature.order_id) stamp signature.request_id v c
            (coherent signature.order_id) h,
        ap (λ (x : OrderEvent). x.request_id) made,
        ap (λ (x : OrderEvent). x.event_id) made,
        cc (paid, ap (λ (x : OrderEvent). x.amount) made),
      )

  propose-Handles :
      (runtime : ValidationRuntime) (c : Result Failure OrderEvent)
      → lookup signature.request_id w.idem ≡ none
      → ((e : OrderEvent)
          → c ≡ ok e
          → IsNext (current w signature.order_id) e
            × (e.request_id ≡ signature.request_id)
            × (e.event_id ≡ stamp.event_id)
            × (ensure_positive_money (decimal signature.amount) ≡ ok e.amount))
      → Handles stamp signature w (
          propose runtime signature
            (current w signature.order_id)
            (load signature.order_id w.store)
            c
            w)
  unfolding propose
  propose-Handles runtime (err f) new next = inl (same w, λ n e p. cc)
  propose-Handles runtime (ok c) new next =
      let d : ValidationDecision = decide runtime c (
        validation_context (current w signature.order_id)
          (last? (load signature.order_id w.store))) in
      by d.action d
    where
      by :
          (a : EnforcementAction) (d : ValidationDecision)
          → Handles stamp signature w (by_action a d signature (current w signature.order_id) c w)
      by block d = inl (same w, λ n e p. cc)
      by allow d =
          let (n, req, stamped, payable) = next c refl in
          let (made, loads) =
            admit-IsNext signature (current w signature.order_id) c w (sound signature.order_id)
              refl n in
          rw made (
            inr (record {
              accepted_event = c;
              replied = refl;
              is_new = new;
              continues = n;
              same_request = req;
              stamped = stamped;
              payable = payable;
              stored = loads;
              noted = refl;
            }))

  pub rehydrate-current : rehydrate signature.order_id w.store ≡ (
      if is_blank signature.order_id
      then err empty_order_id
      else ok (current w signature.order_id, load signature.order_id w.store))
  unfolding rehydrate new_aggregate
  rehydrate-current = ground (
    arith,
    replay-IsHistory (fresh signature.order_id) (load signature.order_id w.store)
        (sound signature.order_id),
  )

  -- Whatever the request, the handler changes nothing or accepts one new event.
  pub handle-Handles :
      (runtime : ValidationRuntime) → Handles stamp signature w (handle runtime stamp signature w)
  handle-Handles runtime = elim (Option-cases (lookup signature.request_id w.idem)) [
    | inr (m, known) ↦
        rw (handle-known signature runtime stamp w m known) (inl (same w, λ n e p. cc))
    | inl new ↦ elim (Bool-cases (is_blank signature.order_id)) [
      | inl blank ↦
          rw
            (handle-unreadable signature runtime stamp w empty_order_id new
              (rw blank at rehydrate-current))
            (inl (same w, λ n e p. cc))
      | inr named ↦
          rw
            (handle-new signature runtime stamp w (current w signature.order_id)
              (load signature.order_id w.store) new (rw named at rehydrate-current))
            (propose-Handles runtime
              (run_command signature.command_type (current w signature.order_id) stamp
                signature.request_id (decimal signature.amount))
              new (command-IsNext signature.command_type (decimal signature.amount)))
    ]
  ]
