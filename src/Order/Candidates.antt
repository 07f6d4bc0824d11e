-- ===== src/Order/Candidates.antt =====
-- The candidates that the commands make continue the state that they were made from.
use streaming_system_compass.Base.{true, false, String, ◌≡◌, refl, arith, ◌==◌, ap}
use streaming_system_compass.Base.Result.{ok}
use streaming_system_compass.Decimal.{Decimal, cents, decimal_eq, decimal_eq-cents}
use streaming_system_compass.Money.{MoneyInput}
use streaming_system_compass.Money.Canonical.{IsPositiveMoney, ensure_positive-IsPositiveMoney}
use streaming_system_compass.Order.{OrderStatus, OrderEvent, Stamp}
use streaming_system_compass.Order.Aggregate.{OrderAggregate, create, pay}
use streaming_system_compass.Order.Aggregate.Legality.{create-ok, pay-ok}
use streaming_system_compass.Order.History.{IsNext, IsCoherent, ShapeAt}

-- Positive canonical amounts that compare equal are equal.
decimal_eq-IsPositiveMoney :
    (d e : Decimal) → IsPositiveMoney d → IsPositiveMoney e → decimal_eq d e ≡ true → d ≡ e
decimal_eq-IsPositiveMoney d e p q h =
    let n : (p.amount == q.amount) ≡ true =
      rw (← decimal_eq-cents p.amount q.amount) (rw (p.is_cents, q.is_cents) at h) in
    let same : p.amount ≡ q.amount = ground arith in
    cc (p.is_cents, q.is_cents, ap (cents false) same)

module _ (a : OrderAggregate) (stamp : Stamp) (request_id : String) (v : MoneyInput) where
  -- A successful create makes an event that continues the aggregate.
  pub create-IsNext : (e : OrderEvent) → create a stamp request_id v ≡ ok e → IsNext a e
  create-IsNext e h =
      let (_, fresh_order, (d, accepted, made)) = create-ok a stamp request_id v e h in
      rw made (record {
        same_order = refl;
        next_sequence = refl;
        honest = refl;
        legal = fresh_order;
        positive = ensure_positive-IsPositiveMoney v d accepted;
      })

  -- A successful pay, of a coherent order, makes an event that continues the aggregate.
  pub pay-IsNext : (e : OrderEvent) → IsCoherent a → pay a stamp request_id v ≡ ok e → IsNext a e
  pay-IsNext e c h =
      let (_, open_order, (d, accepted, total, made)) = pay-ok a stamp request_id v e h in
      let c' : ShapeAt OrderStatus.created a = rw open_order at c in
      let p : IsPositiveMoney d = ensure_positive-IsPositiveMoney v d accepted in
      rw made (record {
        same_order = refl;
        next_sequence = refl;
        honest = refl;
        legal = (open_order, decimal_eq-IsPositiveMoney d a.total_amount p c'.1 total);
        positive = p;
      })
