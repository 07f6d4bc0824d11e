-- ===== src/Order/History.antt =====
-- Accepted histories, described apart from the code: each event continues the state that the
-- events before it leave. The aggregate's replay computes that state.
use streaming_system_compass.Base.{
  ◌+◌, ◌≤◌, Option, none, some, List, [], ◌∷◌, ◌++◌, String, ◌≡◌, ◌∙◌, refl, arith, length, last?,
  eq_iff,
}
use streaming_system_compass.Base.Result.{ok}
use streaming_system_compass.Decimal.{Decimal, zero_amount}
use streaming_system_compass.Money.Canonical.{IsPositiveMoney}
use streaming_system_compass.Order.{EventType, OrderStatus, OrderEvent}
use streaming_system_compass.Order.Aggregate.{OrderAggregate, fresh, claim, applied, apply, replay}

-- From which state an event of each type may follow, and with which amount.
abbrev pub IsLegal : EventType → OrderAggregate → Decimal → Type 0
IsLegal EventType.created a amount = a.status ≡ OrderStatus.init
IsLegal EventType.paid a amount = (a.status ≡ OrderStatus.created) × (amount ≡ a.total_amount)

-- The event `e` continues the state `a`.
pub record IsNext (a : OrderAggregate) (e : OrderEvent) : Type 0 where
  pub same_order : e.order_id ≡ a.order_id
  pub next_sequence : e.sequence ≡ a.current_version + 1
  pub honest : e.proof ≡ claim a
  pub legal : IsLegal e.event_type a e.amount
  pub positive : IsPositiveMoney e.amount

abbrev pub IsHistory : OrderAggregate → List OrderEvent → Type 0
IsHistory a [] = Unit {0}
IsHistory a (e ∷ es) = IsNext a e × IsHistory (applied a e) es

-- The state that a history leaves.
abbrev pub final : OrderAggregate → List OrderEvent → OrderAggregate
final a [] = a
final a (e ∷ es) = final (applied a e) es

pub apply-IsNext : (a : OrderAggregate) (e : OrderEvent) → IsNext a e → apply a e ≡ ok (applied a e)
unfolding apply
apply-IsNext a e h =
    let p : e.order_id ≡ a.order_id = h.same_order in
    let q : e.sequence ≡ a.current_version + 1 = h.next_sequence in
    ground (arith, eq_iff e.order_id a.order_id)

-- Replaying an accepted history raises nothing, and leaves the state that the history describes.
pub replay-IsHistory :
    (a : OrderAggregate) (es : List OrderEvent) → IsHistory a es → replay a es ≡ ok (final a es)
unfolding replay
replay-IsHistory a [] h = refl
replay-IsHistory a (e ∷ es) h = rw (apply-IsNext a e h.0) (replay-IsHistory (applied a e) es h.1)

pub final-snoc :
    (a : OrderAggregate) (es : List OrderEvent) (e : OrderEvent)
    → final a (es ++ e ∷ []) ≡ applied (final a es) e
final-snoc a [] e = refl
final-snoc a (x ∷ es) e = final-snoc (applied a x) es e

pub IsHistory-snoc :
    (a : OrderAggregate) (es : List OrderEvent) (e : OrderEvent)
    → IsHistory a es
    → IsNext (final a es) e
    → IsHistory a (es ++ e ∷ [])
IsHistory-snoc a [] e h n = (n, tt)
IsHistory-snoc a (x ∷ es) e h n = (h.0, IsHistory-snoc (applied a x) es e h.1 n)

applied-version : (a : OrderAggregate) (e : OrderEvent) → (applied a e).current_version ≡ e.sequence
unfolding applied
applied-version a e = refl

pub applied-order : (a : OrderAggregate) (e : OrderEvent) → (applied a e).order_id ≡ a.order_id
unfolding applied
applied-order a e = ground arith

applied-last : (a : OrderAggregate) (e : OrderEvent) → (applied a e).last_event_id ≡ some e.event_id
unfolding applied
applied-last a e = refl

-- The version of an accepted history is its length.
pub final-version :
    (a : OrderAggregate) (es : List OrderEvent)
    → IsHistory a es
    → (final a es).current_version ≡ a.current_version + length es
final-version a [] h = omega arith
final-version a (e ∷ es) h =
    omega (arith, final-version (applied a e) es h.1, applied-version a e, h.0.next_sequence)

pub final-order : (a : OrderAggregate) (es : List OrderEvent) → (final a es).order_id ≡ a.order_id
final-order a [] = refl
final-order a (e ∷ es) = cc (final-order (applied a e) es, applied-order a e)

abbrev pub last_id : Option String → List OrderEvent → Option String
last_id start [] = start
last_id start (e ∷ es) = last_id (some e.event_id) es

final-last :
    (a : OrderAggregate) (es : List OrderEvent)
    → (final a es).last_event_id ≡ last_id a.last_event_id es
final-last a [] = refl
final-last a (e ∷ es) = rw (← applied-last a e) (final-last (applied a e) es)

-- `None if event is None else event.event_id`
abbrev pub event_id_of : Option OrderEvent → Option String
event_id_of none = none
event_id_of (some e) = some e.event_id

last_id-last? :
    (s : Option String) (e : OrderEvent) (es : List OrderEvent)
    → last_id s (e ∷ es) ≡ event_id_of (last? (e ∷ es))
last_id-last? s e [] = refl
last_id-last? s e (f ∷ es) = last_id-last? (some e.event_id) f es

-- The last event id of a replayed order is that of the last event in its stream.
pub final-last_event :
    (o : String) (es : List OrderEvent)
    → (final (fresh o) es).last_event_id ≡ event_id_of (last? es)
final-last_event o [] = refl
final-last_event o (e ∷ es) = final-last (fresh o) (e ∷ es) ∙ last_id-last? none e es

-- What the status says of the other fields.
abbrev pub ShapeAt : OrderStatus → OrderAggregate → Type 0
ShapeAt OrderStatus.init a =
    (a.current_version ≡ 0) × (a.total_amount ≡ zero_amount) × (a.paid_amount ≡ zero_amount)
ShapeAt OrderStatus.created a =
    (a.current_version ≡ 1) × IsPositiveMoney a.total_amount × (a.paid_amount ≡ zero_amount)
ShapeAt OrderStatus.paid a =
    (a.current_version ≡ 2) × IsPositiveMoney a.total_amount × (a.paid_amount ≡ a.total_amount)

abbrev pub IsCoherent : OrderAggregate → Type 0
IsCoherent a = ShapeAt a.status a

-- The step of one event, by its type, with the fields of the event as variables.
abbrev step_as : EventType → OrderEvent → OrderAggregate → OrderAggregate
step_as t e a = applied a (record e { event_type = t })

shape_step :
    (t : EventType) (a : OrderAggregate) (e : OrderEvent)
    → IsCoherent a
    → IsLegal t a e.amount
    → IsPositiveMoney e.amount
    → e.sequence ≡ a.current_version + 1
    → IsCoherent (step_as t e a)
unfolding applied
shape_step EventType.created a e c l p q =
    let c' : ShapeAt OrderStatus.init a = rw l at c in (omega (arith, c'.0), p, c'.2)
shape_step EventType.paid a e c l p q =
    let c' : ShapeAt OrderStatus.created a = rw l.0 at c in (omega (arith, c'.0), c'.1, l.1)

pub applied-IsCoherent :
    (a : OrderAggregate) (e : OrderEvent) → IsCoherent a → IsNext a e → IsCoherent (applied a e)
applied-IsCoherent a e c n = shape_step e.event_type a e c n.legal n.positive n.next_sequence

pub final-IsCoherent :
    (a : OrderAggregate) (es : List OrderEvent)
    → IsCoherent a
    → IsHistory a es
    → IsCoherent (final a es)
final-IsCoherent a [] c h = c
final-IsCoherent a (e ∷ es) c h =
    final-IsCoherent (applied a e) es (applied-IsCoherent a e c h.0) h.1

pub fresh-IsCoherent : (o : String) → IsCoherent (fresh o)
fresh-IsCoherent o = (refl, refl, refl)

version-le : (s : OrderStatus) (a : OrderAggregate) → ShapeAt s a → a.current_version ≤ 2
version-le OrderStatus.init a c = omega arith
version-le OrderStatus.created a c = omega arith
version-le OrderStatus.paid a c = omega arith

-- No order has more than two accepted events.
pub length-IsHistory : (o : String) (es : List OrderEvent) → IsHistory (fresh o) es → length es ≤ 2
length-IsHistory o es h = omega (
  arith,
  final-version (fresh o) es h,
  version-le (final (fresh o) es).status (final (fresh o) es)
      (final-IsCoherent (fresh o) es (fresh-IsCoherent o) h),
)
