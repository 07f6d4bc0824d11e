-- ===== src/Registry/Stored.antt =====
-- What the event store holds of an order after a run of src/pipeline/transactional/registry.py,
-- without the aggregate: a creation, and perhaps its payment.
use streaming_system_compass.Base.{some, none, List, [], ◌∷◌, String, ◌≡◌, ◌∙◌, refl, arith}
use streaming_system_compass.Decimal.{Decimal}
use streaming_system_compass.Money.Canonical.{IsPositiveMoney}
use streaming_system_compass.Order.{EventType, OrderStatus, OrderEvent, Stamp}
use streaming_system_compass.Order.Aggregate.{OrderAggregate, fresh, applied}
use streaming_system_compass.Order.History.{IsNext, IsLegal, IsHistory, length-IsHistory}
use streaming_system_compass.Transition.Runtime.{ValidationRuntime}
use streaming_system_compass.Storage.EventStore.{load}
use streaming_system_compass.Storage.Idempotency.{RequestSignature}
use streaming_system_compass.Registry.{new_world}
use streaming_system_compass.Registry.Soundness.{serve, serve_from_empty-IsSound}

pub record IsCreation (o : String) (e : OrderEvent) : Type 0 where
  pub own : e.order_id ≡ o
  pub first : e.sequence ≡ 1
  pub of_type : e.event_type ≡ EventType.created
  pub positive : IsPositiveMoney e.amount
  pub unclaimed : e.proof.prev_event_id ≡ none

pub record IsPayment (o : String) (e f : OrderEvent) : Type 0 where
  pub own : f.order_id ≡ o
  pub second : f.sequence ≡ 2
  pub of_type : f.event_type ≡ EventType.paid
  pub in_full : f.amount ≡ e.amount
  pub claims : f.proof.prev_event_id ≡ some e.event_id

-- No event, a creation, or a creation and its payment in full.
abbrev pub IsLifecycle : String → List OrderEvent → Type 0
IsLifecycle o [] = Unit {0}
IsLifecycle o (e ∷ []) = IsCreation o e
IsLifecycle o (e ∷ f ∷ []) = IsCreation o e × IsPayment o e f
IsLifecycle o (e ∷ f ∷ g ∷ es) = ⊥

legal-fresh :
    (t : EventType) (o : String) (d : Decimal) → IsLegal t (fresh o) d → t ≡ EventType.created
legal-fresh EventType.created o d h = refl
legal-fresh EventType.paid o d h = absurd (cc)

legal-created :
    (t : EventType) (a : OrderAggregate) (d : Decimal)
    → a.status ≡ OrderStatus.created
    → IsLegal t a d
    → (t ≡ EventType.paid) × (d ≡ a.total_amount)
legal-created EventType.created a d s h = absurd (cc)
legal-created EventType.paid a d s h = (refl, h.1)

applied-creation :
    (o : String) (e : OrderEvent)
    → e.event_type ≡ EventType.created
    → ((applied (fresh o) e).status ≡ OrderStatus.created)
      × ((applied (fresh o) e).total_amount ≡ e.amount)
      × ((applied (fresh o) e).order_id ≡ o)
unfolding applied
applied-creation o e h = rw h (refl, refl, refl)

next-IsCreation : (o : String) (e : OrderEvent) → IsNext (fresh o) e → IsCreation o e
next-IsCreation o e n = record {
  own = n.same_order;
  first = omega (arith, n.next_sequence);
  of_type = legal-fresh e.event_type o e.amount n.legal;
  positive = n.positive;
  unclaimed = rw n.honest refl;
}

next-IsPayment :
    (o : String) (e f : OrderEvent)
    → IsCreation o e
    → IsNext (applied (fresh o) e) f
    → IsPayment o e f
unfolding applied
next-IsPayment o e f c n =
    let (status, total, own) = applied-creation o e c.of_type in
    let (paid, full) = legal-created f.event_type (applied (fresh o) e) f.amount status n.legal in
    record {
      own = n.same_order ∙ own;
      second = omega (arith, n.next_sequence, c.first);
      of_type = paid;
      in_full = full ∙ total;
      claims = rw n.honest refl;
    }

history-IsLifecycle :
    (o : String) (es : List OrderEvent) → IsHistory (fresh o) es → IsLifecycle o es
history-IsLifecycle o [] h = tt
history-IsLifecycle o (e ∷ []) h = next-IsCreation o e h.0
history-IsLifecycle o (e ∷ f ∷ []) h =
    let c = next-IsCreation o e h.0 in (c, next-IsPayment o e f c h.1.0)
history-IsLifecycle o (e ∷ f ∷ g ∷ es) h = omega (arith, length-IsHistory o (e ∷ f ∷ g ∷ es) h)

-- After any run of the handlers from the empty stores, with any validation runtime, the store holds
-- of every order nothing, or one CREATED event with sequence 1, a positive amount of money and no
-- predecessor, or that event and one PAID event with sequence 2, the same amount and the first
-- event as its predecessor; never a third event.
pub serve_from_empty-IsLifecycle :
    (runtime : ValidationRuntime) (requests : List (Stamp × RequestSignature)) (o : String)
    → IsLifecycle o (load o (serve runtime requests new_world).store)
serve_from_empty-IsLifecycle runtime requests o =
    history-IsLifecycle o (load o (serve runtime requests new_world).store)
      ((serve_from_empty-IsSound runtime requests).histories o)
