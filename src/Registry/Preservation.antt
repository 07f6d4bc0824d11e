-- ===== src/Registry/Preservation.antt =====
-- An accepted event, and a request that changes nothing, keep the registry's state sound.
use streaming_system_compass.Base.{
  false, some, List, [], ◌∷◌, ◌++◌, String, ◌≡◌, ◌≢◌, ◌⊎◌, inl, inr, refl, ◌∙◌, ap, subst, arith,
  str_eq, eq_iff, Bool-cases,
}
use streaming_system_compass.Base.Dict.{lookup, lookup-insert_self, lookup-insert_ne}
use streaming_system_compass.Base.Result.{Result}
use streaming_system_compass.Failure.{Failure}
use streaming_system_compass.Order.{OrderEvent, Stamp}
use streaming_system_compass.Order.Aggregate.{fresh}
use streaming_system_compass.Order.History.{IsHistory, IsHistory-snoc, final-order}
use streaming_system_compass.Storage.EventStore.{load}
use streaming_system_compass.Storage.Idempotency.{RequestSignature, IdempotencyRecord, remember}
use streaming_system_compass.Registry.{World, Reply}
use streaming_system_compass.Registry.Invariant.{IsSound, IsRemembered, Occurs, SameWorld, Accepts}

Occurs-append : (e : OrderEvent) (xs ys : List OrderEvent) → Occurs e xs → Occurs e (xs ++ ys)
Occurs-append e [] ys h = absurd h
Occurs-append e (x ∷ xs) ys (inl h) = inl h
Occurs-append e (x ∷ xs) ys (inr h) = inr (Occurs-append e xs ys h)

Occurs-snoc : (e : OrderEvent) (xs : List OrderEvent) → Occurs e (xs ++ e ∷ [])
Occurs-snoc e [] = inl refl
Occurs-snoc e (x ∷ xs) = inr (Occurs-snoc e xs)

Occurs-snoc_cases :
    (e x : OrderEvent) (xs : List OrderEvent) → Occurs e (xs ++ x ∷ []) → Occurs e xs ⊎ (x ≡ e)
Occurs-snoc_cases e x [] (inl h) = inr h
Occurs-snoc_cases e x [] (inr h) = absurd h
Occurs-snoc_cases e x (y ∷ xs) (inl h) = inl (inl h)
Occurs-snoc_cases e x (y ∷ xs) (inr h) = elim (Occurs-snoc_cases e x xs h) [
  | inl old ↦ inl (inr old)
  | inr new ↦ inr new
]

-- A state in which nothing observable changed is as sound as before.
pub SameWorld-IsSound : (w w' : World) → SameWorld w w' → IsSound w → IsSound w'
SameWorld-IsSound w w' (loads, idem) s = record {
  histories = λ o. rw (loads o) (s.histories o);
  remembered = λ r m h.
      let old : IsRemembered w r m = s.remembered r m (rw idem at h) in
      record {
        own_request = old.own_request;
        event_request = old.event_request;
        event_order = old.event_order;
        accepted = rw (loads m.signature.order_id) old.accepted;
      };
  recorded = λ o e h. rw idem (s.recorded o e (rw (loads o) at h));
}

module _ (stamp : Stamp) (signature : RequestSignature) (w w' : World) (r : Result Failure Reply)
    (acc : Accepts stamp signature w r w') (s : IsSound w) where
  -- an accepted event stands at the end of its own order's history, and nowhere else
  stored_own :
      load signature.order_id w'.store ≡ load signature.order_id w.store ++ acc.accepted_event ∷ []
  stored_own =
      acc.stored signature.order_id
      ∙ rw ((eq_iff signature.order_id signature.order_id).1 refl) refl

  stored_other :
      (j : String) → str_eq signature.order_id j ≡ false → load j w'.store ≡ load j w.store
  stored_other j other = acc.stored j ∙ rw other refl

  Occurs-stored :
      (o : String) (e : OrderEvent) → Occurs e (load o w.store) → Occurs e (load o w'.store)
  Occurs-stored o e h = elim (Bool-cases (str_eq signature.order_id o)) [
    | inl same ↦
        rw (acc.stored o, same) (Occurs-append e (load o w.store) (acc.accepted_event ∷ []) h)
    | inr other ↦ rw (stored_other o other) h
  ]

  histories-accepts : (o : String) → IsHistory (fresh o) (load o w'.store)
  histories-accepts o = elim (Bool-cases (str_eq signature.order_id o)) [
    | inr other ↦ rw (stored_other o other) (s.histories o)
    | inl same ↦
        let own : signature.order_id ≡ o = (eq_iff signature.order_id o).0 same in
        subst (λ (k : String). IsHistory (fresh k) (load k w'.store)) own
          (rw stored_own (
            IsHistory-snoc (fresh signature.order_id) (load signature.order_id w.store)
              acc.accepted_event (s.histories signature.order_id) acc.continues))
  ]

  own_record : IdempotencyRecord
  own_record = record { signature = signature; accepted_event = acc.accepted_event }

  idem_own : lookup signature.request_id w'.idem ≡ some own_record
  unfolding remember own_record
  idem_own =
      rw acc.noted
        (lookup-insert_self {V = IdempotencyRecord} signature.request_id own_record w.idem)

  idem_other : (k : String) → signature.request_id ≢ k → lookup k w'.idem ≡ lookup k w.idem
  unfolding remember own_record
  idem_other k ne =
      rw acc.noted
        (lookup-insert_ne {V = IdempotencyRecord} signature.request_id k own_record w.idem ne)

  own-IsRemembered : IsRemembered w' signature.request_id own_record
  unfolding own_record
  own-IsRemembered = record {
    own_request = refl;
    event_request = acc.same_request;
    event_order =
        acc.continues.same_order
        ∙ final-order (fresh signature.order_id) (load signature.order_id w.store);
    accepted = rw stored_own (Occurs-snoc acc.accepted_event (load signature.order_id w.store));
  }

  accepts-IsRemembered :
      (k : String) (m : IdempotencyRecord) → lookup k w'.idem ≡ some m → IsRemembered w' k m
  accepts-IsRemembered k m h = elim (Bool-cases (str_eq signature.request_id k)) [
    | inl same ↦
        let own : signature.request_id ≡ k = (eq_iff signature.request_id k).0 same in
        let found : own_record ≡ m = cc (idem_own, own, h) in
        subst (λ (x : IdempotencyRecord). IsRemembered w' k x) found
          (subst (λ (x : String). IsRemembered w' x own_record) own own-IsRemembered)
    | inr other ↦
        let ne : signature.request_id ≢ k = λ p. ground (arith, eq_iff signature.request_id k, p) in
        let old : IsRemembered w k m = s.remembered k m (rw (idem_other k ne) at h) in
        record {
          own_request = old.own_request;
          event_request = old.event_request;
          event_order = old.event_order;
          accepted = Occurs-stored m.signature.order_id m.accepted_event old.accepted;
        }
  ]

  -- the request of an event that was stored before is not the new one
  recorded_old :
      (e : OrderEvent) (g : RequestSignature)
      → lookup e.request_id w.idem ≡ some (record { signature = g; accepted_event = e })
      → lookup e.request_id w'.idem ≡ some (record { signature = g; accepted_event = e })
  recorded_old e g known =
      let ne : signature.request_id ≢ e.request_id =
        λ p. cc (acc.is_new, known, ap (λ (k : String). lookup k w.idem) p) in
      idem_other e.request_id ne ∙ known

  recorded_new :
      (e : OrderEvent)
      → acc.accepted_event ≡ e
      → lookup e.request_id w'.idem ≡ some (record { signature = signature; accepted_event = e })
  unfolding own_record
  recorded_new e p =
      subst
        (λ (x : OrderEvent).
          lookup x.request_id w'.idem ≡ some (record { signature = signature; accepted_event = x }))
        p (ap (λ (k : String). lookup k w'.idem) acc.same_request ∙ idem_own)

  recorded_in_old :
      (o : String) (e : OrderEvent)
      → Occurs e (load o w.store)
      → (g : RequestSignature) × (lookup e.request_id w'.idem
          ≡ some (record { signature = g; accepted_event = e }))
  recorded_in_old o e h = let (g, known) = s.recorded o e h in (g, recorded_old e g known)

  recorded-accepts :
      (o : String) (e : OrderEvent)
      → Occurs e (load o w'.store)
      → (g : RequestSignature) × (lookup e.request_id w'.idem
          ≡ some (record { signature = g; accepted_event = e }))
  recorded-accepts o e h = elim (Bool-cases (str_eq signature.order_id o)) [
    | inr other ↦ recorded_in_old o e (rw (stored_other o other) at h)
    | inl same ↦
        elim (Occurs-snoc_cases e acc.accepted_event (load o w.store)
          (rw (acc.stored o, same) at h)) [
            | inl old ↦ recorded_in_old o e old
            | inr new ↦ (signature, recorded_new e new)
          ]
  ]

  pub Accepts-IsSound : IsSound w'
  Accepts-IsSound = record {
    histories = histories-accepts;
    remembered = accepts-IsRemembered;
    recorded = recorded-accepts;
  }
