-- ===== src/Tests/Reads.antt =====
-- The read side's theorems at the sample order.
use streaming_system_compass.Base.{
  List, [], ◌∷◌, none, some, true, false, String, ◌≡◌, ◌↔◌, refl, sym, ap, subst, ◌∙◌, inl, inr,
  Bool-cases, arith, str_eq, if◌then◌else◌,
}
use streaming_system_compass.Base.Result.{ok, err}
use streaming_system_compass.Base.Dict.{lookup, lookup-empty, empty}
use streaming_system_compass.Decimal.{zero_amount}
use streaming_system_compass.Failure.{sequence_gap}
use streaming_system_compass.Order.{OrderEvent, OrderState, OrderStatus}
use streaming_system_compass.Order.Aggregate.{OrderAggregate, fresh, replay}
use streaming_system_compass.Order.History.{IsHistory, final}
use streaming_system_compass.Storage.EventStore.{load, load-insert}
use streaming_system_compass.Registry.{World, new_world}
use streaming_system_compass.Registry.Invariant.{current}
use streaming_system_compass.Registry.Soundness.{serve, serve_from_empty-IsSound}
use streaming_system_compass.Projection.{
  reduce_order_event, reduce_all, build_empty_projection_state,
}
use streaming_system_compass.Projection.Worker.{
  Stores, ProjectionRecord, ProjectionProcessResult, load_or_init, process_record, save_state,
  already_consumed,
}
use streaming_system_compass.Projection.Worker.Progress.{
  crash_between_saves, process_record_idem, process_record-err,
}
use streaming_system_compass.Projection.Worker.Feed.{events_of}
use streaming_system_compass.Projection.Agreement.{project, reduce_all-replay}
use streaming_system_compass.Projection.Validator.{
  ReplayValidationResult, match, missing_projection, drift, validate_order, state_eq,
}
use streaming_system_compass.Projection.ReadModel.{
  no_stores, read_model_follows, validate_order-accepted,
}
use streaming_system_compass.Tests.Runs.{serve_run, serve_run-load, after_pay}
use streaming_system_compass.Tests.{created_event, strict_runtime, paid_event, requests, ten_euros}
use streaming_system_compass.Projection.Worker as W

abbrev first_record : ProjectionRecord
first_record = record { offset = 0; event = created_event }

abbrev second_record : ProjectionRecord
second_record = record { offset = 1; event = paid_event }

abbrev feed : List ProjectionRecord
feed = first_record ∷ second_record ∷ []

abbrev history : List OrderEvent
history = created_event ∷ paid_event ∷ []

history-IsHistory : IsHistory (fresh "o1") history
history-IsHistory =
    subst (IsHistory (fresh "o1")) serve_run-load
      ((serve_from_empty-IsSound strict_runtime requests).histories "o1")

reduce_all-replay_example :
    (a : OrderAggregate) × (replay (fresh "o1") history ≡ ok a)
    × (reduce_all (build_empty_projection_state "o1") history ≡ ok (project a))
reduce_all-replay_example = reduce_all-replay "o1" history history-IsHistory

stored : (o : String) → load o after_pay.store ≡ (if str_eq "o1" o then history else [])
unfolding load
stored o =
    load-insert "o1" o history empty
    ∙ ap (λ (l : List OrderEvent). if str_eq "o1" o then history else l)
        (rw (lookup-empty {V = List OrderEvent} o) refl)

fed : (o : String) → events_of o feed ≡ (if str_eq "o1" o then history else [])
fed o = elim (Bool-cases (str_eq "o1" o)) [ inl same ↦ rw same refl | inr other ↦ rw other refl ]

feed_carries :
    (o : String) → events_of o feed ≡ load o (serve strict_runtime requests new_world).store
feed_carries o = fed o ∙ sym (stored o) ∙ sym (ap (λ (w : World). load o w.store) serve_run)

read_model_follows_example :
    (xs : List ProjectionProcessResult) × ((W.replay "worker" feed no_stores).0 ≡ ok xs)
    × ((o : String)
        → load_or_init o (W.replay "worker" feed no_stores).1
          ≡ project (current (serve strict_runtime requests new_world) o))
read_model_follows_example =
    read_model_follows strict_runtime requests "worker" feed feed_carries (tt, (omega arith, tt))

abbrev created_state : OrderState
created_state = record {
  order_id = "o1";
  status = OrderStatus.created;
  total_amount = ten_euros;
  paid_amount = zero_amount;
  version = 1;
}

first_reduced : reduce_order_event (load_or_init "o1" no_stores) created_event ≡ ok created_state
unfolding reduce_order_event load_or_init lookup empty
first_reduced = refl

not_consumed_yet : already_consumed 0 (lookup "worker" no_stores.offsets) ≡ false
unfolding already_consumed lookup empty
not_consumed_yet = refl

crash_between_saves_example :
    (process_record "worker" first_record (save_state created_state no_stores)).1
    ≡ (process_record "worker" first_record no_stores).1
crash_between_saves_example =
    crash_between_saves "worker" first_record no_stores created_state not_consumed_yet first_reduced

process_record_idem_example :
    (process_record "worker" first_record (process_record "worker" first_record no_stores).1).1
    ≡ (process_record "worker" first_record no_stores).1
process_record_idem_example = process_record_idem "worker" first_record no_stores

gap_refused : (process_record "worker" second_record no_stores).0 ≡ err (sequence_gap 1 2)
unfolding process_record already_consumed load_or_init lookup empty
gap_refused = refl

process_record-err_example : (process_record "worker" second_record no_stores).1 ≡ no_stores
process_record-err_example =
    process_record-err "worker" second_record no_stores (sequence_gap 1 2) gap_refused

validate_order-accepted_example :
    let expected = project (final (fresh "o1") history) in
    (r : ReplayValidationResult) × (validate_order "o1" history (some created_state) ≡ ok r)
    × (r.expected_state ≡ some expected)
    × ((r.status ≡ match)
        ↔ ((s : OrderState) × (some created_state ≡ some s) × (state_eq s expected ≡ true)))
    × ((r.status ≡ missing_projection) ↔ (some created_state ≡ none))
    × ((r.status ≡ drift)
        ↔ ((s : OrderState) × (some created_state ≡ some s) × (state_eq s expected ≡ false)))
validate_order-accepted_example =
    validate_order-accepted "o1" created_event (paid_event ∷ []) history-IsHistory
      (some created_state)
