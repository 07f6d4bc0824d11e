-- ===== src/Registry/Retry.antt =====
-- Retries: what a request id that is remembered answers, and that an accepted request can be
-- repeated without a second effect.
use streaming_system_compass.Base.{
  true, Option, none, some, List, [], ◌∷◌, String, ◌≡◌, ◌≢◌, inl, inr, refl, ◌∙◌, ap, arith,
  eq_refl, if◌then◌else◌,
}
use streaming_system_compass.Base.Dict.{lookup, lookup-insert_self, lookup-insert_ne}
use streaming_system_compass.Base.Result.{ok}
use streaming_system_compass.Decimal.{Decimal, finite, infinity, nan, decimal_eq}
use streaming_system_compass.Money.{decimal, ensure_positive_money, normalize_money, parse_money}
use streaming_system_compass.Order.{CommandType, command_eq, OrderEvent, Stamp}
use streaming_system_compass.Transition.Runtime.{ValidationRuntime}
use streaming_system_compass.Storage.Idempotency.{
  RequestSignature, IdempotencyRecord, remember, signature_eq, conflict,
}
use streaming_system_compass.Registry.{World, event, idempotency, handle}
use streaming_system_compass.Registry.Steps.{handle-known}
use streaming_system_compass.Registry.Soundness.{serve, handle-IsSound}
use streaming_system_compass.Registry.Invariant.{IsSound}
use streaming_system_compass.Registry.Handling.{handle-Handles}

-- An amount that is accepted is a number, and so equal to itself.
decimal_eq-accepted :
    (d r : Decimal) → ensure_positive_money (decimal d) ≡ ok r → decimal_eq d d ≡ true
unfolding ensure_positive_money normalize_money parse_money decimal_eq
decimal_eq-accepted (finite s c e) r h = ground arith
decimal_eq-accepted (infinity s) r h = ground arith
decimal_eq-accepted nan r h = absurd (ground arith)

command_eq_refl : (t : CommandType) → command_eq t t ≡ true
command_eq_refl CommandType.create = refl
command_eq_refl CommandType.pay = refl

signature_eq_refl :
    (g : RequestSignature) → decimal_eq g.amount g.amount ≡ true → signature_eq g g ≡ true
unfolding signature_eq
signature_eq_refl g h = simp (eq_refl, command_eq_refl, h)

-- A request that is remembered stays remembered, whatever is handled next.
handle-keeps :
    (runtime : ValidationRuntime) (stamp : Stamp) (signature : RequestSignature) (w : World)
    (k : String) (m : IdempotencyRecord)
    → IsSound w
    → lookup k w.idem ≡ some m
    → lookup k (handle runtime stamp signature w).1.idem ≡ some m
unfolding remember
handle-keeps runtime stamp signature w k m s h =
    elim (handle-Handles stamp signature w s.histories runtime) [
      | inl quiet ↦ rw (quiet.0.1) h
      | inr acc ↦
          let ne : signature.request_id ≢ k =
            λ p. cc (acc.is_new, h, ap (λ (x : String). lookup x w.idem) p) in
          let note : IdempotencyRecord = record {
            signature = signature;
            accepted_event = acc.accepted_event;
          } in
          rw acc.noted
            (lookup-insert_ne {V = IdempotencyRecord} signature.request_id k note w.idem ne ∙ h)
    ]

serve-keeps :
    (runtime : ValidationRuntime) (requests : List (Stamp × RequestSignature)) (w : World)
    (k : String) (m : IdempotencyRecord)
    → IsSound w
    → lookup k w.idem ≡ some m
    → lookup k (serve runtime requests w).idem ≡ some m
unfolding serve
serve-keeps runtime [] w k m s h = h
serve-keeps runtime ((stamp, signature) ∷ requests) w k m s h =
    serve-keeps runtime requests (handle runtime stamp signature w).1 k m
      (handle-IsSound runtime stamp signature w s) (handle-keeps runtime stamp signature w k m s h)

abbrev note_of : RequestSignature → OrderEvent → Option IdempotencyRecord
note_of signature e = some (record { signature = signature; accepted_event = e })

-- The memory that a new request leaves when it gets an event back.
accepted-remembered :
    (runtime : ValidationRuntime) (stamp : Stamp) (signature : RequestSignature) (w : World)
    (e : OrderEvent)
    → IsSound w
    → lookup signature.request_id w.idem ≡ none
    → (handle runtime stamp signature w).0 ≡ ok (event e)
    → (lookup signature.request_id (handle runtime stamp signature w).1.idem
        ≡ some (record { signature = signature; accepted_event = e }))
      × (signature_eq signature signature ≡ true)
unfolding remember
accepted-remembered runtime stamp signature w e s new replied =
    elim (handle-Handles stamp signature w s.histories runtime) [
      | inl quiet ↦ absurd (quiet.1 new e replied)
      | inr acc ↦
          let note : IdempotencyRecord = record {
            signature = signature;
            accepted_event = acc.accepted_event;
          } in
          let same : acc.accepted_event ≡ e = cc (acc.replied, replied) in
          (
            rw acc.noted (
                lookup-insert_self {V = IdempotencyRecord} signature.request_id note w.idem
                ∙ ap (note_of signature) same),
            signature_eq_refl signature
                (decimal_eq-accepted signature.amount acc.accepted_event.amount acc.payable),
          )
    ]

-- In a sound state, after a request that was not remembered has got an event back, and after any
-- further requests, its request id is answered from the memory and changes nothing: the same payload gets the same event back, and
-- another payload gets a conflict.
pub retry_is_idempotent :
    (runtime : ValidationRuntime) (stamp : Stamp) (signature : RequestSignature) (w : World)
    (e : OrderEvent)
    → IsSound w
    → lookup signature.request_id w.idem ≡ none
    → (handle runtime stamp signature w).0 ≡ ok (event e)
    → (requests : List (Stamp × RequestSignature)) (stamp' : Stamp) (signature' : RequestSignature)
    → signature'.request_id ≡ signature.request_id
    → let w' = serve runtime requests (handle runtime stamp signature w).1 in
      let m : IdempotencyRecord = record { signature = signature; accepted_event = e } in
      (handle runtime stamp' signature w' ≡ (ok (event e), w'))
      × (handle runtime stamp' signature' w' ≡ (
        ok (
            if signature_eq signature signature'
            then event e
            else idempotency (record { verdict = conflict; prior = some m })),
        w',
      ))
retry_is_idempotent runtime stamp signature w e s new replied requests stamp' signature' same =
    let (noted, own) = accepted-remembered runtime stamp signature w e s new replied in
    let m : IdempotencyRecord = record { signature = signature; accepted_event = e } in
    let w' = serve runtime requests (handle runtime stamp signature w).1 in
    let known : lookup signature.request_id w'.idem ≡ some m =
      serve-keeps runtime requests (handle runtime stamp signature w).1 signature.request_id m
        (handle-IsSound runtime stamp signature w s) noted in
    let known' : lookup signature'.request_id w'.idem ≡ some m =
      ap (λ (k : String). lookup k w'.idem) same ∙ known in
    (
      handle-known signature runtime stamp' w' m known ∙ rw own refl,
      handle-known signature' runtime stamp' w' m known',
    )
