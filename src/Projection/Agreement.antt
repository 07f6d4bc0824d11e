-- ===== src/Projection/Agreement.antt =====
-- The read side agrees with the write side: reducing an accepted history never raises, and gives
-- the state that the aggregate replays.
use streaming_system_compass.Base.{◌+◌, true, List, [], ◌∷◌, String, ◌≡◌, refl, ◌∙◌, arith, eq_iff}
use streaming_system_compass.Base.Result.{ok}
use streaming_system_compass.Decimal.{Decimal, zero_amount, decimal_eq, decimal_eq-cents}
use streaming_system_compass.Money.Canonical.{IsPositiveMoney}
use streaming_system_compass.Order.{EventType, OrderStatus, OrderEvent, OrderState}
use streaming_system_compass.Order.Aggregate.{OrderAggregate, fresh, applied, replay}
use streaming_system_compass.Order.History.{
  IsNext, IsHistory, IsLegal, IsCoherent, ShapeAt, final, applied-IsCoherent, fresh-IsCoherent,
  replay-IsHistory,
}
use streaming_system_compass.Projection.{
  build_empty_projection_state, reduce_order_event, reduce_all,
}

-- The part of an aggregate that the read side projects.
abbrev pub project : OrderAggregate → OrderState
project a = record {
  order_id = a.order_id;
  status = a.status;
  total_amount = a.total_amount;
  paid_amount = a.paid_amount;
  version = a.current_version;
}

decimal_eq-IsPositiveMoney_refl : (d : Decimal) → IsPositiveMoney d → decimal_eq d d ≡ true
decimal_eq-IsPositiveMoney_refl d p =
    rw p.is_cents (decimal_eq-cents p.amount p.amount ∙ ground arith)

reduce_step :
    (t : EventType) (a : OrderAggregate) (e : OrderEvent)
    → IsCoherent a
    → e.order_id ≡ a.order_id
    → e.sequence ≡ a.current_version + 1
    → IsLegal t a e.amount
    → IsPositiveMoney e.amount
    → reduce_order_event (project a) (record e { event_type = t })
      ≡ ok (project (applied a (record e { event_type = t })))
unfolding reduce_order_event applied
reduce_step EventType.created a e c own next l p =
    let c' : ShapeAt OrderStatus.init a = rw l at c in
    let unpaid : a.paid_amount ≡ zero_amount = c'.2 in ground (arith, eq_iff e.order_id a.order_id)
reduce_step EventType.paid a e c own next l p =
    let status : a.status ≡ OrderStatus.created = l.0 in
    let amount : e.amount ≡ a.total_amount = l.1 in
    let same : decimal_eq e.amount a.total_amount ≡ true =
      rw (← amount) (decimal_eq-IsPositiveMoney_refl e.amount p) in
    ground (arith, eq_iff e.order_id a.order_id)

-- One accepted event moves the projected state as it moves the aggregate.
pub reduce-IsNext :
    (a : OrderAggregate) (e : OrderEvent)
    → IsCoherent a
    → IsNext a e
    → reduce_order_event (project a) e ≡ ok (project (applied a e))
reduce-IsNext a e c n =
    reduce_step e.event_type a e c n.same_order n.next_sequence n.legal n.positive

pub reduce_all-IsHistory :
    (a : OrderAggregate) (es : List OrderEvent)
    → IsCoherent a
    → IsHistory a es
    → reduce_all (project a) es ≡ ok (project (final a es))
unfolding reduce_all
reduce_all-IsHistory a [] c h = refl
reduce_all-IsHistory a (e ∷ es) c h =
    rw (reduce-IsNext a e c h.0)
      (reduce_all-IsHistory (applied a e) es (applied-IsCoherent a e c h.0) h.1)

-- On every accepted history, the reducer raises nothing and gives what the aggregate's replay
-- gives.
pub reduce_all-replay :
    (o : String) (es : List OrderEvent)
    → IsHistory (fresh o) es
    → (a : OrderAggregate) × (replay (fresh o) es ≡ ok a)
      × (reduce_all (build_empty_projection_state o) es ≡ ok (project a))
reduce_all-replay o es h = (
  final (fresh o) es,
  replay-IsHistory (fresh o) es h,
  reduce_all-IsHistory (fresh o) es (fresh-IsCoherent o) h,
)
