-- ===== src/Order/Aggregate/Legality.antt =====
-- Which commands the aggregate accepts, and what they produce.
use streaming_system_compass.Base.{◌+◌, true, false, String, ◌≡◌, arith, inl, inr}
use streaming_system_compass.Base.Text.{is_blank}
use streaming_system_compass.Base.Result.{ok, Result-cases}
use streaming_system_compass.Decimal.{Decimal, decimal_eq}
use streaming_system_compass.Money.{MoneyInput, ensure_positive_money, normalize_money, decimal}
use streaming_system_compass.Money.Canonical.{
  ensure_positive-IsPositiveMoney, normalize-IsPositiveMoney,
}
use streaming_system_compass.Order.{EventType, OrderStatus, OrderEvent, Stamp, create_event}
use streaming_system_compass.Order.Aggregate.{OrderAggregate, claim, create, pay}

-- The candidate event of type `t` that continues the aggregate `a`.
abbrev pub candidate : OrderAggregate → Stamp → String → EventType → Decimal → OrderEvent
candidate a stamp request_id t amount = record {
  event_id = stamp.event_id;
  request_id = request_id;
  order_id = a.order_id;
  sequence = a.current_version + 1;
  event_type = t;
  amount = amount;
  occurred_at_ms = stamp.occurred_at_ms;
  proof = claim a;
}

module _ (a : OrderAggregate) (stamp : Stamp) (request_id : String) (v : MoneyInput) where
  -- A create that succeeds was asked of a fresh order with a request id and a positive amount, and
  -- its event is the candidate that continues the aggregate.
  pub create-ok :
      (e : OrderEvent)
      → create a stamp request_id v ≡ ok e
      → (is_blank request_id ≡ false)
        × (a.status ≡ OrderStatus.init)
        × ((d : Decimal) × (ensure_positive_money v ≡ ok d)
            × (e ≡ candidate a stamp request_id EventType.created d))
  unfolding create create_event
  create-ok e h = elim (Result-cases (ensure_positive_money v)) [
    | inr (f, p) ↦ absurd (ground arith)
    | inl (d, p) ↦
        let n : normalize_money (decimal d) ≡ ok d =
          normalize-IsPositiveMoney (ensure_positive-IsPositiveMoney v d p) in
        (ground arith, ground arith, (d, p, ground arith))
  ]

  -- Conversely, such a request is accepted.
  pub create-total :
      {d : Decimal}
      → is_blank request_id ≡ false
      → a.status ≡ OrderStatus.init
      → ensure_positive_money v ≡ ok d
      → create a stamp request_id v ≡ ok (candidate a stamp request_id EventType.created d)
  unfolding create create_event
  create-total {d} b s p =
      let n : normalize_money (decimal d) ≡ ok d =
        normalize-IsPositiveMoney (ensure_positive-IsPositiveMoney v d p) in
      ground arith

  -- A pay that succeeds was asked of a created order with a request id and an amount equal to the
  -- order's total, and its event is the candidate that continues the aggregate.
  pub pay-ok :
      (e : OrderEvent)
      → pay a stamp request_id v ≡ ok e
      → (is_blank request_id ≡ false)
        × (a.status ≡ OrderStatus.created)
        × ((d : Decimal) × (ensure_positive_money v ≡ ok d)
            × (decimal_eq d a.total_amount ≡ true)
            × (e ≡ candidate a stamp request_id EventType.paid d))
  unfolding pay create_event
  pay-ok e h = elim (Result-cases (ensure_positive_money v)) [
    | inr (f, p) ↦ absurd (ground arith)
    | inl (d, p) ↦
        let n : normalize_money (decimal d) ≡ ok d =
          normalize-IsPositiveMoney (ensure_positive-IsPositiveMoney v d p) in
        (ground arith, ground arith, (d, p, ground arith, ground arith))
  ]

  pub pay-total :
      {d : Decimal}
      → is_blank request_id ≡ false
      → a.status ≡ OrderStatus.created
      → ensure_positive_money v ≡ ok d
      → decimal_eq d a.total_amount ≡ true
      → pay a stamp request_id v ≡ ok (candidate a stamp request_id EventType.paid d)
  unfolding pay create_event
  pay-total {d} b s p q =
      let n : normalize_money (decimal d) ≡ ok d =
        normalize-IsPositiveMoney (ensure_positive-IsPositiveMoney v d p) in
      ground arith
