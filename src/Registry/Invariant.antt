-- ===== src/Registry/Invariant.antt =====
-- The invariant of the registry's state, and what a handled request does to it.
use streaming_system_compass.Registry.Steps.{admit-ok}
use streaming_system_compass.Base.{
  none, some, List, [], ◌∷◌, ◌++◌, String, ◌≡◌, ◌≢◌, ◌⊎◌, ◌∙◌, ap, subst, arith, length, str_eq,
  if◌then◌else◌,
}
use streaming_system_compass.Base.Dict.{lookup}
use streaming_system_compass.Base.Result.{Result, ok}
use streaming_system_compass.Failure.{Failure}
use streaming_system_compass.Order.{OrderEvent, Stamp}
use streaming_system_compass.Order.Aggregate.{OrderAggregate, fresh, applied}
use streaming_system_compass.Order.History.{
  IsNext, IsHistory, final, apply-IsNext, final-version, final-order,
}
use streaming_system_compass.Storage.EventStore.{load, append, append-ok}
use streaming_system_compass.Storage.Idempotency.{RequestSignature, IdempotencyRecord, remember}
use streaming_system_compass.Admission.{append_if_admitted-ok}
use streaming_system_compass.Money.{decimal, ensure_positive_money}
use streaming_system_compass.Registry.{World, Reply, event, admit}

abbrev pub Occurs : OrderEvent → List OrderEvent → Type 0
Occurs e [] = ⊥
Occurs e (x ∷ xs) = (x ≡ e) ⊎ Occurs e xs

-- What a request remembered under `r` says of the stored histories.
pub record IsRemembered (w : World) (r : String) (m : IdempotencyRecord) : Type 0 where
  pub own_request : m.signature.request_id ≡ r
  pub event_request : m.accepted_event.request_id ≡ r
  pub event_order : m.accepted_event.order_id ≡ m.signature.order_id
  pub accepted : Occurs m.accepted_event (load m.signature.order_id w.store)

-- Every stored history is an accepted history; every remembered request has its event in one; and
-- every stored event is remembered under its request.
pub record IsSound (w : World) : Type 0 where
  pub histories : (o : String) → IsHistory (fresh o) (load o w.store)
  pub remembered :
      (r : String) (m : IdempotencyRecord) → lookup r w.idem ≡ some m → IsRemembered w r m
  pub recorded :
      (o : String) (e : OrderEvent)
      → Occurs e (load o w.store)
      → (signature : RequestSignature) × (lookup e.request_id w.idem
          ≡ some (record { signature = signature; accepted_event = e }))

-- The state of an order, as its stored history gives it.
abbrev pub current : World → String → OrderAggregate
current w o = final (fresh o) (load o w.store)

-- A request that changed nothing that can be observed.
abbrev pub SameWorld : World → World → Type 0
SameWorld w w' = ((j : String) → load j w'.store ≡ load j w.store) × (w'.idem ≡ w.idem)

-- A new request whose event continues its order's history, and nothing else changed.
pub record Accepts (stamp : Stamp) (signature : RequestSignature) (w : World)
    (r : Result Failure Reply) (w' : World) : Type 0 where
  pub accepted_event : OrderEvent
  pub replied : r ≡ ok (event accepted_event)
  pub is_new : lookup signature.request_id w.idem ≡ none
  pub continues : IsNext (current w signature.order_id) accepted_event
  pub same_request : accepted_event.request_id ≡ signature.request_id
  pub stamped : accepted_event.event_id ≡ stamp.event_id
  pub payable : ensure_positive_money (decimal signature.amount) ≡ ok accepted_event.amount
  pub stored :
      (j : String)
      → load j w'.store ≡ (
          if str_eq signature.order_id j
          then load j w.store ++ accepted_event ∷ []
          else load j w.store)
  pub noted : w'.idem ≡ remember signature accepted_event w.idem

-- A candidate that continues the current state is admitted, applied and remembered.
pub admit-IsNext :
    (signature : RequestSignature) (a : OrderAggregate) (c : OrderEvent) (w : World)
    → IsHistory (fresh signature.order_id) (load signature.order_id w.store)
    → a ≡ current w signature.order_id
    → IsNext a c
    → (admit signature a c w ≡ (
      ok (event c),
      record { store = (append c a.current_version w.store).1; idem = remember signature c w.idem },
    ))
      × ((j : String)
          → load j (append c a.current_version w.store).1
            ≡ (if str_eq signature.order_id j then load j w.store ++ c ∷ [] else load j w.store))
admit-IsNext signature a c w h e n =
    let o = signature.order_id in
    let own : c.order_id ≡ o =
      n.same_order
      ∙ ap (λ (x : OrderAggregate). x.order_id) e
      ∙ final-order (fresh o) (load o w.store) in
    let version : length (load c.order_id w.store) ≡ a.current_version =
      ap (λ (k : String). length (load k w.store)) own
      ∙ omega (
        arith,
        final-version (fresh o) (load o w.store) h,
        ap (λ (x : OrderAggregate). x.current_version) e,
      ) in
    let (done, loads) = append-ok c a.current_version w.store version n.next_sequence in
    (
      admit-ok signature a (applied a c) c w (append c a.current_version w.store).1
          (append_if_admitted-ok c a.current_version w.store done) (apply-IsNext a c n),
      λ j.
          subst
            (λ (k : String).
              load j (append c a.current_version w.store).1
              ≡ (if str_eq k j then load j w.store ++ c ∷ [] else load j w.store))
            own (loads j),
    )

-- Nothing observable changed, and a request that is new got no event back.
abbrev pub Quiet : RequestSignature → World → Result Failure Reply × World → Type 0
Quiet signature w (r, w') =
    SameWorld w w'
    × (lookup signature.request_id w.idem ≡ none → (e : OrderEvent) → r ≢ ok (event e))

-- What a handler does: nothing that can be observed, or the acceptance of a new event.
abbrev pub Handles : Stamp → RequestSignature → World → Result Failure Reply × World → Type 0
Handles stamp signature w (r, w') = Quiet signature w (r, w') ⊎ Accepts stamp signature w r w'
