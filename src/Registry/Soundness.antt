-- ===== src/Registry/Soundness.antt =====
-- Every request keeps the registry's state sound, and so does every run of requests.
use mathlib.Core.List.{append-nil, append_assoc}
use streaming_system_compass.Base.{
  List, [], ◌∷◌, ◌++◌, String, ◌≡◌, inl, inr, refl, sym, ◌∙◌, ap, str_eq, Bool-cases,
}
use streaming_system_compass.Base.Dict.{lookup, lookup-empty}
use streaming_system_compass.Order.{OrderEvent, Stamp}
use streaming_system_compass.Transition.Runtime.{ValidationRuntime}
use streaming_system_compass.Storage.EventStore.{load}
use streaming_system_compass.Storage.Idempotency.{RequestSignature, IdempotencyRecord}
use streaming_system_compass.Registry.{World, handle, new_world}
use streaming_system_compass.Registry.Invariant.{IsSound, Occurs}
use streaming_system_compass.Registry.Handling.{handle-Handles}
use streaming_system_compass.Registry.Preservation.{SameWorld-IsSound, Accepts-IsSound}

-- Every request, in any validation mode, keeps the state sound.
pub handle-IsSound :
    (runtime : ValidationRuntime) (stamp : Stamp) (signature : RequestSignature) (w : World)
    → IsSound w
    → IsSound (handle runtime stamp signature w).1
handle-IsSound runtime stamp signature w s =
    elim (handle-Handles stamp signature w s.histories runtime) [
      | inl quiet ↦ SameWorld-IsSound w (handle runtime stamp signature w).1 quiet.0 s
      | inr acc ↦
          let (r, w') = handle runtime stamp signature w in
          Accepts-IsSound stamp signature w w' r acc s
    ]

pub new_world-IsSound : IsSound new_world
unfolding new_world load
new_world-IsSound = record {
  histories = λ o. rw (lookup-empty {V = List OrderEvent} o) tt;
  remembered = λ r m h. absurd (cc (h, lookup-empty {V = IdempotencyRecord} r));
  recorded = λ o e h. absurd (rw (lookup-empty {V = List OrderEvent} o) at h);
}

-- A run of the registry: the requests in order, each with the stamp that its candidate would get.
unfoldable pub serve : ValidationRuntime → List (Stamp × RequestSignature) → World → World
serve runtime [] w = w
serve runtime ((stamp, signature) ∷ requests) w =
    serve runtime requests (handle runtime stamp signature w).1

pub serve-IsSound :
    (runtime : ValidationRuntime) (requests : List (Stamp × RequestSignature)) (w : World)
    → IsSound w
    → IsSound (serve runtime requests w)
unfolding serve
serve-IsSound runtime [] w s = s
serve-IsSound runtime ((stamp, signature) ∷ requests) w s =
    serve-IsSound runtime requests (handle runtime stamp signature w).1
      (handle-IsSound runtime stamp signature w s)

-- From the empty stores, whatever the requests and the validation runtime, every stored history is
-- an accepted history, in which each event continues the state that the events before it leave;
-- every remembered request has its event in the history of its order; and every stored event is
-- remembered under its request id.
pub serve_from_empty-IsSound :
    (runtime : ValidationRuntime) (requests : List (Stamp × RequestSignature))
    → IsSound (serve runtime requests new_world)
serve_from_empty-IsSound runtime requests =
    serve-IsSound runtime requests new_world new_world-IsSound

handle-append_only :
    (runtime : ValidationRuntime) (stamp : Stamp) (signature : RequestSignature) (w : World)
    (o : String)
    → IsSound w
    → (more : List OrderEvent) × (load o (handle runtime stamp signature w).1.store
        ≡ load o w.store ++ more)
handle-append_only runtime stamp signature w o s =
    elim (handle-Handles stamp signature w s.histories runtime) [
      | inl quiet ↦ ([], quiet.0.0 o ∙ sym (append-nil (load o w.store)))
      | inr acc ↦ elim (Bool-cases (str_eq signature.order_id o)) [
        | inl same ↦ (acc.accepted_event ∷ [], acc.stored o ∙ rw same refl)
        | inr other ↦ ([], acc.stored o ∙ rw other (sym (append-nil (load o w.store))))
      ]
    ]

-- From a sound state, a run only puts events at the end of the histories: each order's history
-- before the run is the beginning of its history after it.
pub serve-append_only :
    (runtime : ValidationRuntime) (requests : List (Stamp × RequestSignature)) (w : World)
    (o : String)
    → IsSound w
    → (more : List OrderEvent) × (load o (serve runtime requests w).store ≡ load o w.store ++ more)
unfolding serve
serve-append_only runtime [] w o s = ([], sym (append-nil (load o w.store)))
serve-append_only runtime ((stamp, signature) ∷ requests) w o s =
    let w' = (handle runtime stamp signature w).1 in
    let (first, p) = handle-append_only runtime stamp signature w o s in
    let (rest, q) =
      serve-append_only runtime requests w' o (handle-IsSound runtime stamp signature w s) in
    (
      first ++ rest,
      q ∙ ap (λ (l : List OrderEvent). l ++ rest) p ∙ append_assoc (load o w.store) first rest,
    )

-- In a run from the empty stores, at most one event is ever accepted for a request id, whichever
-- orders the requests name.
pub one_event_per_request :
    (runtime : ValidationRuntime) (requests : List (Stamp × RequestSignature)) (o o' : String)
    (e e' : OrderEvent)
    → Occurs e (load o (serve runtime requests new_world).store)
    → Occurs e' (load o' (serve runtime requests new_world).store)
    → e.request_id ≡ e'.request_id
    → e ≡ e'
one_event_per_request runtime requests o o' e e' h h' same =
    let s = serve_from_empty-IsSound runtime requests in
    let (g, p) = s.recorded o e h in
    let (g', p') = s.recorded o' e' h' in
    cc (p, p', ap (λ (k : String). lookup k (serve runtime requests new_world).idem) same)
