-- ===== src/Tests/Writes.antt =====
-- The write side's theorems at the sample order.
use streaming_system_compass.Registry.{
  event, World, Reply, handle, new_world, check_idempotency, process, rehydrate, propose,
  run_command, validation_context, admit, handle_create, handle_pay, idempotency,
}
use streaming_system_compass.Storage.Idempotency.{
  check, signature_eq, remember, RequestSignature, IdempotencyRecord, conflict,
}
use streaming_system_compass.Base.Dict.{lookup, empty, insert, lookup-empty}
use streaming_system_compass.Order.Aggregate.{
  new_aggregate, replay, create, pay, applied, apply, fresh,
}
use streaming_system_compass.Base.Text.{is_blank, is_space, strip}
use streaming_system_compass.Storage.EventStore.{load, append, Appends, append-Appends}
use streaming_system_compass.Money.{
  ensure_positive_money, normalize_money, parse_money, quantize_money, decimal,
}
use streaming_system_compass.Decimal.{rescale, decimal_eq, not_positive, Decimal, cents}
use streaming_system_compass.Order.{create_event, OrderEvent, EventType, CommandType}
use streaming_system_compass.Transition.Runtime.{decide, policy, select, validate}
use streaming_system_compass.Transition.{
  full_proof_validate, required_prev_status, validate_branches, strict,
}
use streaming_system_compass.Admission.{
  append_if_admitted, prepare_stream, admission_result, is_admitted,
}
use streaming_system_compass.Failure.{Failure}
use streaming_system_compass.Base.{
  List, [], ◌∷◌, ◌++◌, none, some, true, false, ◌≡◌, ◌↔◌, refl, sym, ap, subst, inl, if◌then◌else◌,
}
use streaming_system_compass.Base.Result.{Result, ok}
use streaming_system_compass.Order.Aggregate.Legality.{candidate}
use streaming_system_compass.Registry.Invariant.{IsSound, Occurs, current}
use streaming_system_compass.Registry.Soundness.{
  serve, serve_from_empty-IsSound, serve-append_only, one_event_per_request, new_world-IsSound,
}
use streaming_system_compass.Registry.Stored.{IsLifecycle, serve_from_empty-IsLifecycle}
use streaming_system_compass.Registry.Retry.{retry_is_idempotent}
use streaming_system_compass.Registry.Lifecycle.{create_accepted_iff, pay_accepted_iff}
use streaming_system_compass.Registry.Acceptance.{handle-command, answer}
use streaming_system_compass.Registry.Interleaving.{
  Pending, Site, Reach, here, next, begin, commit, prepare,
}
use streaming_system_compass.Registry.Interleaving.Atomic.{admit-atomic}
use streaming_system_compass.Registry.Interleaving.Safety.{IsSafe, Reach-IsSafe}
use streaming_system_compass.Tests.Runs.{create_run, serve_run-load, after_create}
use streaming_system_compass.Tests.{
  create_stamp, create_request, created_event, strict_runtime, pay_stamp, pay_request, paid_event,
  requests, ten_euros,
}

serve_from_empty-IsSound_example : IsSound (serve strict_runtime requests new_world)
serve_from_empty-IsSound_example = serve_from_empty-IsSound strict_runtime requests

created_Occurs : Occurs created_event (load "o1" (serve strict_runtime requests new_world).store)
created_Occurs = subst (Occurs created_event) (sym serve_run-load) (inl refl)

serve_from_empty-IsLifecycle_example :
    IsLifecycle "o1" (load "o1" (serve strict_runtime requests new_world).store)
serve_from_empty-IsLifecycle_example = serve_from_empty-IsLifecycle strict_runtime requests "o1"

one_event_per_request_example : created_event ≡ created_event
one_event_per_request_example =
    one_event_per_request strict_runtime requests "o1" "o1" created_event created_event
      created_Occurs created_Occurs refl

new_request : lookup "r1" new_world.idem ≡ none
unfolding new_world
new_request = lookup-empty "r1"

create_replied :
    (handle strict_runtime create_stamp create_request new_world).0 ≡ ok (event created_event)
create_replied = ap (λ (x : Result Failure Reply × World). x.0) create_run

-- the retried create after the payment, and a create of another amount under the same request id
abbrev other_request : RequestSignature
other_request = record create_request { amount = cents false 2000 }

retry_is_idempotent_example :
    let w' =
      serve strict_runtime
        ((pay_stamp, pay_request) ∷ [])
        (handle strict_runtime create_stamp create_request new_world).1 in
    let m : IdempotencyRecord = record {
      signature = create_request;
      accepted_event = created_event;
    } in
    (handle strict_runtime pay_stamp create_request w' ≡ (ok (event created_event), w'))
    × (handle strict_runtime pay_stamp other_request w' ≡ (
      ok (
          if signature_eq create_request other_request
          then event created_event
          else idempotency (record { verdict = conflict; prior = some m })),
      w',
    ))
retry_is_idempotent_example =
    retry_is_idempotent strict_runtime create_stamp create_request new_world created_event
      new_world-IsSound new_request create_replied ((pay_stamp, pay_request) ∷ []) pay_stamp
      other_request refl

named_order : is_blank "o1" ≡ false
unfolding is_blank is_space
named_order = refl

create_accepted_iff_example :
    ((handle_create strict_runtime create_stamp "r1" "o1" ten_euros new_world).0
      ≡ ok (event created_event))
    ↔ ((is_blank "r1" ≡ false)
        × (load "o1" new_world.store ≡ [])
        × ((d : Decimal) × (ensure_positive_money (decimal ten_euros) ≡ ok d)
            × (created_event ≡ candidate (fresh "o1") create_stamp "r1" EventType.created d)))
create_accepted_iff_example =
    create_accepted_iff strict create_stamp "r1" "o1" ten_euros new_world new_world-IsSound
      new_request named_order created_event

new_payment :
    lookup "r2" (serve strict_runtime ((create_stamp, create_request) ∷ []) new_world).idem ≡ none
unfolding serve remember insert lookup empty
new_payment = ap (λ (x : Result Failure Reply × World). lookup "r2" x.1.idem) create_run

pay_accepted_iff_example :
    let w = serve strict_runtime ((create_stamp, create_request) ∷ []) new_world in
    ((handle_pay strict_runtime pay_stamp "r2" "o1" ten_euros w).0 ≡ ok (event paid_event)) ↔ (
      (is_blank "r2" ≡ false)
      × ((c : OrderEvent) × (load "o1" w.store ≡ c ∷ [])
          × ((d : Decimal) × (ensure_positive_money (decimal ten_euros) ≡ ok d)
              × (decimal_eq d c.amount ≡ true)
              × (paid_event ≡ candidate (current w "o1") pay_stamp "r2" EventType.paid d))))
pay_accepted_iff_example =
    pay_accepted_iff strict pay_stamp "r2" "o1" ten_euros
      (serve strict_runtime ((create_stamp, create_request) ∷ []) new_world)
      (serve_from_empty-IsSound strict_runtime ((create_stamp, create_request) ∷ [])) new_payment
      named_order paid_event

handle-command_example :
    (handle strict_runtime create_stamp create_request new_world).0
    ≡ answer (
        run_command CommandType.create
          (current new_world "o1")
          create_stamp
          "r1"
          (decimal ten_euros))
handle-command_example =
    handle-command strict create_stamp create_request new_world new_world-IsSound.histories
      new_request named_order

abbrev fresh_site : Site
fresh_site = record { world = new_world; pending = [] }

abbrev first_writer : Pending
first_writer = record {
  signature = create_request;
  aggregate = fresh "o1";
  candidate = created_event;
}

first_prepared : prepare strict_runtime create_stamp create_request new_world ≡ some first_writer
unfolding prepare new_world check_idempotency process rehydrate propose run_command
    validation_context admit check signature_eq remember lookup empty insert new_aggregate replay
    create pay applied apply is_blank is_space strip load append ensure_positive_money
    normalize_money parse_money quantize_money rescale decimal_eq not_positive create_event decide
    policy select validate full_proof_validate required_prev_status validate_branches
    append_if_admitted prepare_stream admission_result is_admitted
first_prepared = refl

fresh_site-IsSafe : IsSafe fresh_site
fresh_site-IsSafe = record { histories = new_world-IsSound.histories; ready = tt }

-- Another order's writer is prepared and admitted between the first writer and its admission.
abbrev second_order_request : RequestSignature
second_order_request = record create_request { request_id = "r9"; order_id = "o2" }

abbrev other_writer : Pending
other_writer = record {
  signature = second_order_request;
  aggregate = fresh "o2";
  candidate = record created_event { request_id = "r9"; order_id = "o2" };
}

other_prepared :
    prepare strict_runtime create_stamp second_order_request new_world ≡ some other_writer
unfolding prepare new_world check_idempotency process rehydrate propose run_command
    validation_context admit check signature_eq remember lookup empty insert new_aggregate replay
    create pay applied apply is_blank is_space strip load append ensure_positive_money
    normalize_money parse_money quantize_money rescale decimal_eq not_positive create_event decide
    policy select validate full_proof_validate required_prev_status validate_branches
    append_if_admitted prepare_stream admission_result is_admitted
other_prepared = refl

abbrev other_admitted : Site
other_admitted = record {
  world = (admit second_order_request (fresh "o2") other_writer.candidate new_world).1;
  pending = first_writer ∷ [];
}

overtaken : Reach strict_runtime fresh_site other_admitted
overtaken =
    next
      (next (next here (begin create_stamp create_request first_writer first_prepared refl))
        (begin create_stamp second_order_request other_writer other_prepared refl))
      (commit [] (first_writer ∷ []) other_writer refl refl)

still_new : check_idempotency create_request other_admitted.world.idem ≡ none
unfolding new_world check_idempotency check admit remember lookup empty insert apply load append
    append_if_admitted admission_result is_admitted
still_new = refl

first_admitted :
    (admit create_request (fresh "o1") created_event other_admitted.world).0
    ≡ ok (event created_event)
unfolding new_world admit remember lookup empty insert apply load append append_if_admitted
    admission_result is_admitted
first_admitted = refl

admit-atomic_example :
    handle strict_runtime create_stamp create_request other_admitted.world
    ≡ admit create_request (fresh "o1") created_event other_admitted.world
admit-atomic_example =
    admit-atomic strict_runtime create_stamp create_request fresh_site other_admitted first_writer
      created_event fresh_site-IsSafe first_prepared overtaken still_new first_admitted

-- Two writers prepare the same create from the same state; the second is admitted after the first.
abbrev both_prepared : Site
both_prepared = record { world = new_world; pending = first_writer ∷ first_writer ∷ [] }

abbrev one_admitted : Site
one_admitted = record {
  world = (admit create_request (fresh "o1") created_event new_world).1;
  pending = first_writer ∷ [];
}

abbrev both_admitted : Site
both_admitted = record {
  world = (admit create_request (fresh "o1") created_event one_admitted.world).1;
  pending = [];
}

race : Reach strict_runtime fresh_site both_admitted
race =
    next
      (next
        (next (next here (begin create_stamp create_request first_writer first_prepared refl))
          (begin create_stamp create_request first_writer first_prepared refl))
        (commit [] (first_writer ∷ []) first_writer refl refl))
      (commit [] [] first_writer refl refl)

Reach-IsSafe_example : IsSafe both_admitted
Reach-IsSafe_example = Reach-IsSafe strict_runtime fresh_site-IsSafe race

append-Appends_example :
    Appends paid_event 1 after_create.store (append paid_event 1 after_create.store)
append-Appends_example = append-Appends paid_event 1 after_create.store

serve-append_only_example :
    (more : List OrderEvent) × (load "o1" (serve strict_runtime requests new_world).store
      ≡ load "o1" new_world.store ++ more)
serve-append_only_example =
    serve-append_only strict_runtime requests new_world "o1" new_world-IsSound
