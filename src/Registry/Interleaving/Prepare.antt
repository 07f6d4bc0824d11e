-- ===== src/Registry/Interleaving/Prepare.antt =====
-- The handler cut at its admission: what is prepared is what the handler admits, and it is ready.
use streaming_system_compass.Base.{
  Option, none, some, List, [], String, ◌≡◌, refl, sym, subst, arith, last?, if◌then◌else◌,
}
use streaming_system_compass.Base.Result.{Result, ok, err}
use streaming_system_compass.Failure.{Failure}
use streaming_system_compass.Money.{decimal}
use streaming_system_compass.Order.{OrderEvent, Stamp}
use streaming_system_compass.Order.Aggregate.{OrderAggregate, fresh}
use streaming_system_compass.Order.History.{IsNext, IsHistory}
use streaming_system_compass.Transition.{EnforcementAction, allow, block}
use streaming_system_compass.Transition.Runtime.{ValidationRuntime, decide}
use streaming_system_compass.Storage.EventStore.{load}
use streaming_system_compass.Storage.Idempotency.{RequestSignature}
use streaming_system_compass.Transition.{ValidationDecision}
use streaming_system_compass.Base.Text.{is_blank}
use streaming_system_compass.Failure.{empty_order_id}
use mathlib.Core.List.{append-nil}
use streaming_system_compass.Registry.Invariant.{current}
use streaming_system_compass.Registry.Handling.{rehydrate-current, command-IsNext}
use streaming_system_compass.Registry.{
  World, Reply, admit, handle, rehydrate, run_command, validation_context, check_idempotency,
  propose, by_action, process, after_check,
}
use streaming_system_compass.Registry.Interleaving.{
  Pending, prepare, allowed, proposed, commanded, checked,
}
use streaming_system_compass.Registry.Interleaving.Ready.{IsReady}

module _ (runtime : ValidationRuntime) (stamp : Stamp) (signature : RequestSignature)
    (w : World) where
  -- Where a request prepares a writer, its handler is the admission of that writer at once.
  pub handle-prepare :
      (p : Pending)
      → prepare runtime stamp signature w ≡ some p
      → handle runtime stamp signature w ≡ admit p.signature p.aggregate p.candidate w
  unfolding handle prepare process propose
  handle-prepare p h = after (check_idempotency signature w.idem) h
    where
      by :
          (a : EnforcementAction) (d : ValidationDecision) (q : Pending)
          → allowed a q ≡ some p
          → by_action a d q.signature q.aggregate q.candidate w
            ≡ admit p.signature p.aggregate p.candidate w
      by block d q e = absurd (cc)
      by allow d q e = cc

      made :
          (m : Result Failure OrderEvent) (a : OrderAggregate) (history : List OrderEvent)
          → proposed runtime signature a history m ≡ some p
          → propose runtime signature a history m w ≡ admit p.signature p.aggregate p.candidate w
      made (err f) a history e = absurd (cc)
      made (ok c) a history e =
          let d : ValidationDecision = decide runtime c (validation_context a (last? history)) in
          by d.action d (record { signature = signature; aggregate = a; candidate = c }) e

      read :
          (m : Result Failure (OrderAggregate × List OrderEvent))
          → commanded runtime stamp signature m ≡ some p
          → process runtime stamp signature w m ≡ admit p.signature p.aggregate p.candidate w
      read (err f) e = absurd (cc)
      read (ok (a, history)) e =
          made
            (run_command signature.command_type a stamp signature.request_id
              (decimal signature.amount))
            a history e

      after :
          (o : Option Reply)
          → checked runtime stamp signature w o ≡ some p
          → after_check runtime stamp signature w o ≡ admit p.signature p.aggregate p.candidate w
      after (some reply) e = absurd (cc)
      after none e = read (rehydrate signature.order_id w.store) e

  -- What is prepared from accepted histories is ready.
  pub prepare-IsReady :
      (p : Pending)
      → ((o : String) → IsHistory (fresh o) (load o w.store))
      → prepare runtime stamp signature w ≡ some p
      → IsReady w p
  unfolding prepare
  prepare-IsReady p sound h = after (check_idempotency signature w.idem) h
    where
      a : OrderAggregate
      a = current w signature.order_id

      history : List OrderEvent
      history = load signature.order_id w.store

      by :
          (t : EnforcementAction) (c : OrderEvent)
          → IsNext a c
          → allowed t (record { signature = signature; aggregate = a; candidate = c }) ≡ some p
          → IsReady w p
      by block c n e = absurd (cc)
      by allow c n e =
          let q : Pending = record { signature = signature; aggregate = a; candidate = c } in
          let same : q ≡ p = cc in
          subst (λ (x : Pending). IsReady w x) same
            (record {
              seen = history;
              since = [];
              stored = sym (append-nil history);
              was_history = sound signature.order_id;
              rebuilt = refl;
              continues = n;
            })

      made :
          (m : Result Failure OrderEvent)
          → ((c : OrderEvent) → m ≡ ok c → IsNext a c)
          → proposed runtime signature a history m ≡ some p
          → IsReady w p
      made (err f) next e = absurd (cc)
      made (ok c) next e =
          by (decide runtime c (validation_context a (last? history))).action c (next c refl) e

      read :
          (m : Result Failure (OrderAggregate × List OrderEvent))
          → m ≡ (if is_blank signature.order_id then err empty_order_id else ok (a, history))
          → commanded runtime stamp signature m ≡ some p
          → IsReady w p
      read (err f) q e = absurd (cc)
      read (ok (b, l)) q e =
          let same : (b, l) ≡ (a, history) = ground arith in
          made
            (run_command signature.command_type a stamp signature.request_id
              (decimal signature.amount))
            (λ c m.
              (command-IsNext stamp signature w sound signature.command_type
                (decimal signature.amount) c m).0)
            (subst
              (λ (x : OrderAggregate × List OrderEvent).
                commanded runtime stamp signature (ok x) ≡ some p)
              same e)

      after : (o : Option Reply) → checked runtime stamp signature w o ≡ some p → IsReady w p
      after (some reply) e = absurd (cc)
      after none e =
          read (rehydrate signature.order_id w.store) (rehydrate-current stamp signature w sound) e
