-- ===== src/Registry/Lifecycle.antt =====
-- The life of one order, as its clients see it.
use streaming_system_compass.Base.{
  true, false, none, List, [], ◌∷◌, String, ◌≡◌, ◌↔◌, refl, sym, ◌∙◌, ap, subst, arith, length,
}
use streaming_system_compass.Base.Text.{is_blank}
use streaming_system_compass.Base.Dict.{lookup}
use streaming_system_compass.Base.Result.{Result, ok, err}
use streaming_system_compass.Failure.{Failure}
use streaming_system_compass.Decimal.{Decimal, decimal_eq}
use streaming_system_compass.Money.{decimal, ensure_positive_money}
use streaming_system_compass.Order.{CommandType, EventType, OrderStatus, OrderEvent, Stamp}
use streaming_system_compass.Order.Aggregate.{OrderAggregate, fresh, applied}
use streaming_system_compass.Order.Aggregate.Legality.{
  candidate, create-total, pay-total, create-ok, pay-ok,
}
use streaming_system_compass.Order.History.{
  IsHistory, final, final-version, final-IsCoherent, fresh-IsCoherent, ShapeAt, IsNext, IsLegal,
}
use streaming_system_compass.Transition.{ValidationMode}
use streaming_system_compass.Transition.Runtime.{default_runtime}
use streaming_system_compass.Storage.EventStore.{load}
use streaming_system_compass.Registry.{World, event, handle_create, handle_pay, run_command}
use streaming_system_compass.Registry.Invariant.{IsSound, current}
use streaming_system_compass.Registry.Acceptance.{handle-command, answer}

no_events : {A : Type 0} (xs : List A) → length xs ≡ 0 → xs ≡ []
no_events [] h = refl
no_events (x ∷ xs) h = absurd (omega arith)

one_event : {A : Type 0} (xs : List A) → length xs ≡ 1 → (x : A) × (xs ≡ x ∷ [])
one_event [] h = absurd (omega arith)
one_event (x ∷ []) h = (x, refl)
one_event (x ∷ y ∷ xs) h = absurd (omega arith)

-- An order whose state is INIT has no events.
pub init_iff_empty :
    (o : String) (es : List OrderEvent)
    → IsHistory (fresh o) es
    → ((final (fresh o) es).status ≡ OrderStatus.init) ↔ (es ≡ [])
init_iff_empty o es h = (
  λ s.
      let c : ShapeAt OrderStatus.init (final (fresh o) es) =
        rw s at (final-IsCoherent (fresh o) es (fresh-IsCoherent o) h) in
      no_events es (omega (arith, c.0, final-version (fresh o) es h)),
  λ e. ap (λ (l : List OrderEvent). (final (fresh o) l).status) e,
)

applied_created :
    (t : EventType) (a : OrderAggregate) (e : OrderEvent)
    → IsLegal t a e.amount
    → a.status ≡ OrderStatus.init
    → ((applied a (record e { event_type = t })).status ≡ OrderStatus.created)
      × ((applied a (record e { event_type = t })).total_amount ≡ e.amount)
unfolding applied
applied_created EventType.created a e l s = (refl, refl)
applied_created EventType.paid a e l s = absurd (cc (l.0, s))

-- An order with one event is in the state CREATED, and its total is the event's amount.
pub one_event-state :
    (o : String) (es : List OrderEvent) (c : OrderEvent)
    → IsHistory (fresh o) es
    → es ≡ c ∷ []
    → ((final (fresh o) es).status ≡ OrderStatus.created)
      × ((final (fresh o) es).total_amount ≡ c.amount)
one_event-state o es c h only =
    let first : IsNext (fresh o) c = (rw only at h).0 in
    rw only (applied_created c.event_type (fresh o) c first.legal refl)

-- An order whose state is CREATED has one event.
pub created_iff_one :
    (o : String) (es : List OrderEvent)
    → IsHistory (fresh o) es
    → ((final (fresh o) es).status ≡ OrderStatus.created) ↔ ((c : OrderEvent) × (es ≡ c ∷ []))
created_iff_one o es h = (
  λ s.
      let shape : ShapeAt OrderStatus.created (final (fresh o) es) =
        rw s at (final-IsCoherent (fresh o) es (fresh-IsCoherent o) h) in
      one_event es (omega (arith, shape.0, final-version (fresh o) es h)),
  λ (c, only). (one_event-state o es c h only).0,
)

answer-ok : (m : Result Failure OrderEvent) (e : OrderEvent) → answer m ≡ ok (event e) → m ≡ ok e
answer-ok (ok c) e h = cc
answer-ok (err f) e h = absurd (cc)

module _ (mode : ValidationMode) (stamp : Stamp) (request_id o : String) (amount : Decimal)
    (w : World) (sound : IsSound w) (new : lookup request_id w.idem ≡ none)
    (named : is_blank o ≡ false) where
  -- With the wired runtime in either mode, in a sound state, for a request id that is not
  -- remembered and an order id that is not blank: a create is accepted exactly when the request id
  -- is not blank, the order has no events and the amount is a positive amount of money; its event
  -- is then the first candidate of the order.
  pub create_accepted_iff :
      (e : OrderEvent)
      → ((handle_create (default_runtime mode) stamp request_id o amount w).0 ≡ ok (event e)) ↔ (
          (is_blank request_id ≡ false)
          × (load o w.store ≡ [])
          × ((d : Decimal) × (ensure_positive_money (decimal amount) ≡ ok d)
              × (e ≡ candidate (fresh o) stamp request_id EventType.created d)))
  unfolding handle_create run_command
  create_accepted_iff e =
      let a = current w o in
      let answered =
        handle-command mode stamp
          (record {
            request_id = request_id;
            command_type = CommandType.create;
            order_id = o;
            amount = amount;
          })
          w sound.histories new named in
      let status_iff = init_iff_empty o (load o w.store) (sound.histories o) in
      (
        λ h.
            let (b, s, (d, paid, made)) =
              create-ok a stamp request_id (decimal amount) e (answer-ok _ e (sym answered ∙ h)) in
            let none_yet = status_iff.0 s in
            (
              b,
              none_yet,
              (
                d,
                paid,
                made
                    ∙ ap
                        (λ (l : List OrderEvent).
                          candidate (final (fresh o) l) stamp request_id EventType.created d)
                        none_yet,
              ),
            ),
        λ (b, none_yet, (d, paid, made)).
            answered
            ∙ rw (create-total a stamp request_id (decimal amount) b (status_iff.1 none_yet) paid) (
                ap (λ (x : OrderEvent). answer (ok x))
                  (ap
                      (λ (l : List OrderEvent).
                        candidate (final (fresh o) l) stamp request_id EventType.created d)
                      none_yet
                    ∙ sym made)),
      )

  -- With the wired runtime in either mode, in a sound state, for a request id that is not
  -- remembered and an order id that is not blank: a pay is accepted exactly when the request id is
  -- not blank, the order has one event, and
  -- the amount is a positive amount of money that equals that event's amount; its event is then the
  -- candidate that continues the order.
  pub pay_accepted_iff :
      (e : OrderEvent)
      → ((handle_pay (default_runtime mode) stamp request_id o amount w).0 ≡ ok (event e)) ↔ (
          (is_blank request_id ≡ false)
          × ((c : OrderEvent) × (load o w.store ≡ c ∷ [])
              × ((d : Decimal) × (ensure_positive_money (decimal amount) ≡ ok d)
                  × (decimal_eq d c.amount ≡ true)
                  × (e ≡ candidate (current w o) stamp request_id EventType.paid d))))
  unfolding handle_pay run_command
  pay_accepted_iff e =
      let a = current w o in
      let answered =
        handle-command mode stamp
          (record {
            request_id = request_id;
            command_type = CommandType.pay;
            order_id = o;
            amount = amount;
          })
          w sound.histories new named in
      let status_iff = created_iff_one o (load o w.store) (sound.histories o) in
      (
        λ h.
            let (b, s, (d, paid, equal, made)) =
              pay-ok a stamp request_id (decimal amount) e (answer-ok _ e (sym answered ∙ h)) in
            let (c, only) = status_iff.0 s in
            let total = (one_event-state o (load o w.store) c (sound.histories o) only).1 in
            (
              b,
              (
                c,
                only,
                (d, paid, subst (λ (x : Decimal). decimal_eq d x ≡ true) total equal, made),
              ),
            ),
        λ (b, (c, only, (d, paid, equal, made))).
            let total = (one_event-state o (load o w.store) c (sound.histories o) only).1 in
            answered
            ∙ rw
                (pay-total a stamp request_id (decimal amount) b (status_iff.1 (c, only)) paid
                  (subst (λ (x : Decimal). decimal_eq d x ≡ true) (sym total) equal))
                (ap (λ (x : OrderEvent). answer (ok x)) (sym made)),
      )
