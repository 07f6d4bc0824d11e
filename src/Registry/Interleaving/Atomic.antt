-- ===== src/Registry/Interleaving/Atomic.antt =====
-- An admission seen as a handler that runs at once: the cut between validation and admission of
-- src/pipeline/transactional/registry.py cannot be observed in what is accepted.
use streaming_system_compass.Base.{
  Option, none, some, List, [], ◌∷◌, ◌++◌, String, ◌≡◌, refl, sym, ◌∙◌, ap, subst, arith, length,
}
use streaming_system_compass.Base.Result.{Result, ok, err}
use streaming_system_compass.Failure.{Failure}
use streaming_system_compass.Order.{OrderEvent, Stamp}
use streaming_system_compass.Order.Aggregate.{OrderAggregate}
use streaming_system_compass.Transition.{EnforcementAction, allow, block}
use streaming_system_compass.Transition.Runtime.{ValidationRuntime}
use streaming_system_compass.Storage.EventStore.{EventStore, load, append, Appends, append-Appends}
use streaming_system_compass.Storage.Idempotency.{RequestSignature}
use streaming_system_compass.Admission.{
  append_if_admitted, admission_result, is_admitted, translate,
}
use mathlib.Core.List.{append_assoc}
use streaming_system_compass.Registry.{
  World, Reply, event, admit, admit_reply, handle, rehydrate, check_idempotency,
}
use streaming_system_compass.Registry.Interleaving.{
  Pending, Site, Reach, prepare, allowed, proposed, commanded, checked,
}
use streaming_system_compass.Registry.Interleaving.Ready.{IsReady}
use streaming_system_compass.Registry.Interleaving.Prepare.{handle-prepare, prepare-IsReady}
use streaming_system_compass.Registry.Interleaving.Admit.{unchanged-IsReady}
use streaming_system_compass.Registry.Interleaving.Safety.{IsSafe, Reach-Grows}

rehydrate-load :
    (o : String) (s t : EventStore) → load o s ≡ load o t → rehydrate o s ≡ rehydrate o t
unfolding rehydrate
rehydrate-load o s t h = rw h refl

module _ (runtime : ValidationRuntime) (stamp : Stamp) (signature : RequestSignature) where
  -- Preparing looks at nothing but the answer of the request memory and the order's own history.
  prepare-again :
      (w w' : World) (p : Pending)
      → check_idempotency signature w'.idem ≡ none
      → load signature.order_id w.store ≡ load signature.order_id w'.store
      → prepare runtime stamp signature w ≡ some p
      → prepare runtime stamp signature w' ≡ some p
  unfolding prepare
  prepare-again w w' p new same h = rw new (after (check_idempotency signature w.idem) h)
    where
      after :
          (o : Option Reply)
          → checked runtime stamp signature w o ≡ some p
          → checked runtime stamp signature w' none ≡ some p
      after (some reply) e = absurd (cc)
      after none e = rw (← rehydrate-load signature.order_id w.store w'.store same) e

  -- A pending writer has the signature of its request.
  prepare-signature :
      (w : World) (p : Pending)
      → prepare runtime stamp signature w ≡ some p
      → p.signature ≡ signature
  unfolding prepare
  prepare-signature w p h = after (check_idempotency signature w.idem) h
    where
      by : (t : EnforcementAction) (q : Pending) → allowed t q ≡ some p → p.signature ≡ q.signature
      by block q e = absurd (cc)
      by allow q e = cc

      made :
          (m : Result Failure OrderEvent) (a : OrderAggregate) (history : List OrderEvent)
          → proposed runtime signature a history m ≡ some p
          → p.signature ≡ signature
      made (err f) a history e = absurd (cc)
      made (ok c) a history e = by _ _ e

      read :
          (m : Result Failure (OrderAggregate × List OrderEvent))
          → commanded runtime stamp signature m ≡ some p
          → p.signature ≡ signature
      read (err f) e = absurd (cc)
      read (ok (a, history)) e = made _ a history e

      after :
          (o : Option Reply)
          → checked runtime stamp signature w o ≡ some p
          → p.signature ≡ signature
      after (some reply) e = absurd (cc)
      after none e = read (rehydrate signature.order_id w.store) e

-- An event is returned only where the order's history is as long as the aggregate's version says.
admit-current :
    (signature : RequestSignature) (a : OrderAggregate) (c e : OrderEvent) (w : World)
    → (admit signature a c w).0 ≡ ok (event e)
    → length (load c.order_id w.store) ≡ a.current_version
unfolding admit append_if_admitted translate admission_result is_admitted
admit-current signature a c e w h =
    go (append c a.current_version w.store) (append-Appends c a.current_version w.store) h
  where
    go :
        (r : Result Failure (Unit {0}) × EventStore)
        → Appends c a.current_version w.store r
        → (admit_reply signature a c (record w { store = r.1 }) (translate c r.0)).0 ≡ ok (event e)
        → length (load c.order_id w.store) ≡ a.current_version
    go (ok _, s') done q = done.0
    go (err f, s') done q = ground arith

append-shrunk :
    (xs ys zs : List OrderEvent)
    → length ((xs ++ ys) ++ zs) ≡ length xs
    → xs ++ ys ≡ (xs ++ ys) ++ zs
append-shrunk [] [] [] h = refl
append-shrunk [] [] (z ∷ zs) h = absurd (omega arith)
append-shrunk [] (y ∷ ys) zs h = absurd (omega arith)
append-shrunk (x ∷ xs) ys zs h =
    ap (λ (l : List OrderEvent). x ∷ l) (append-shrunk xs ys zs (omega arith))

module _ (runtime : ValidationRuntime) (stamp : Stamp) (signature : RequestSignature) (s t : Site)
    (p : Pending) (e : OrderEvent) where
  at_once :
      IsSafe s
      → prepare runtime stamp p.signature s.world ≡ some p
      → Reach runtime s t
      → check_idempotency p.signature t.world.idem ≡ none
      → (admit p.signature p.aggregate p.candidate t.world).0 ≡ ok (event e)
      → handle runtime stamp p.signature t.world ≡ admit p.signature p.aggregate p.candidate t.world
  at_once safe prepared run new accepted =
      let ready = prepare-IsReady runtime stamp p.signature s.world p safe.histories prepared in
      let (more, grown) = Reach-Grows runtime safe run p.signature.order_id in
      let whole : load p.signature.order_id t.world.store ≡ (ready.seen ++ ready.since) ++ more =
        grown ∙ ap (λ (l : List OrderEvent). l ++ more) ready.stored in
      let later : IsReady t.world p = record {
        seen = ready.seen;
        since = ready.since ++ more;
        stored = whole ∙ append_assoc ready.seen ready.since more;
        was_history = ready.was_history;
        rebuilt = ready.rebuilt;
        continues = ready.continues;
      } in
      let read : load p.signature.order_id t.world.store ≡ ready.seen =
        unchanged-IsReady t.world p later
          (admit-current p.signature p.aggregate p.candidate e t.world accepted) in
      let same : load p.signature.order_id s.world.store ≡ load p.signature.order_id t.world.store =
        ready.stored
        ∙ append-shrunk ready.seen ready.since more (ap length (sym whole ∙ read))
        ∙ sym whole in
      handle-prepare runtime stamp p.signature t.world p
        (prepare-again runtime stamp p.signature s.world t.world p new same prepared)

  -- An accepted admission is atomic. Let a writer be prepared at a safe state, and admitted at any
  -- state that the writers reach from there, whoever was admitted or gave up in between. Where the
  -- admission returns an event, and the request memory still knows nothing of the request, the
  -- handler that runs at once at the moment of the admission gives the same reply and leaves the
  -- same stores.
  pub admit-atomic :
      IsSafe s
      → prepare runtime stamp signature s.world ≡ some p
      → Reach runtime s t
      → check_idempotency signature t.world.idem ≡ none
      → (admit p.signature p.aggregate p.candidate t.world).0 ≡ ok (event e)
      → handle runtime stamp signature t.world ≡ admit p.signature p.aggregate p.candidate t.world
  admit-atomic safe prepared run new accepted =
      let same : p.signature ≡ signature =
        prepare-signature runtime stamp signature s.world p prepared in
      subst
        (λ (g : RequestSignature).
          handle runtime stamp g t.world ≡ admit p.signature p.aggregate p.candidate t.world)
        same
        (at_once safe
          (subst (λ (g : RequestSignature). prepare runtime stamp g s.world ≡ some p) (sym same)
            prepared)
          run
          (subst (λ (g : RequestSignature). check_idempotency g t.world.idem ≡ none) (sym same) new)
          accepted)
