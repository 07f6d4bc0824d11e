-- ===== src/Registry/Interleaving/Admit.antt =====
-- What admitting a ready writer does to the stored histories.
use streaming_system_compass.Registry.Steps.{admit-store}
use streaming_system_compass.Base.{
  List, [], ◌∷◌, ◌++◌, String, ◌≡◌, ◌⊎◌, inl, inr, refl, sym, ◌∙◌, ap, subst, arith, length, str_eq,
  if◌then◌else◌,
}
use streaming_system_compass.Base.Result.{Result, ok, err}
use streaming_system_compass.Failure.{Failure}
use streaming_system_compass.Order.{OrderEvent}
use streaming_system_compass.Order.Aggregate.{OrderAggregate, fresh}
use streaming_system_compass.Order.History.{IsNext, final, final-version, final-order}
use streaming_system_compass.Storage.EventStore.{EventStore, load, append, Appends, append-Appends}
use streaming_system_compass.Admission.{append_if_admitted}
use streaming_system_compass.Registry.Invariant.{current}
use streaming_system_compass.Registry.{World, admit}
use streaming_system_compass.Registry.Interleaving.{Pending}
use streaming_system_compass.Registry.Interleaving.Ready.{IsReady}

append-same : (xs ys : List OrderEvent) → length (xs ++ ys) ≡ length xs → xs ++ ys ≡ xs
append-same [] [] h = refl
append-same [] (y ∷ ys) h = absurd (omega arith)
append-same (x ∷ xs) ys h = ap (λ (l : List OrderEvent). x ∷ l) (append-same xs ys (omega arith))

module _ (w : World) (p : Pending) (ready : IsReady w p) where
  own-IsReady : p.candidate.order_id ≡ p.signature.order_id
  own-IsReady =
      ready.continues.same_order
      ∙ ap (λ (a : OrderAggregate). a.order_id) ready.rebuilt
      ∙ final-order (fresh p.signature.order_id) ready.seen

  version-IsReady : p.aggregate.current_version ≡ length ready.seen
  version-IsReady = omega (
    arith,
    ap (λ (a : OrderAggregate). a.current_version) ready.rebuilt,
    final-version (fresh p.signature.order_id) ready.seen ready.was_history,
  )

  -- Where the history is still as long as the version of the writer, it is what the writer read.
  pub unchanged-IsReady :
      length (load p.candidate.order_id w.store) ≡ p.aggregate.current_version
      → load p.signature.order_id w.store ≡ ready.seen
  unchanged-IsReady h =
      ready.stored
      ∙ append-same ready.seen ready.since (
          ap length (sym ready.stored)
          ∙ ap (λ (k : String). length (load k w.store)) (sym own-IsReady)
          ∙ h
          ∙ version-IsReady)

  -- What an admission of a ready writer does to the histories: nothing, or its candidate continues
  -- the current state and is put at the end.
  pub admit_histories :
      ((j : String) → load j (admit p.signature p.aggregate p.candidate w).1.store ≡ load j w.store)
      ⊎ (IsNext (final (fresh p.signature.order_id) (load p.signature.order_id w.store)) p.candidate
          × ((j : String)
              → load j (admit p.signature p.aggregate p.candidate w).1.store ≡ (
                  if str_eq p.signature.order_id j
                  then load j w.store ++ p.candidate ∷ []
                  else load j w.store)))
  unfolding append_if_admitted
  admit_histories = rw (admit-store p.signature p.aggregate p.candidate w) (
      go (append p.candidate p.aggregate.current_version w.store)
        (append-Appends p.candidate p.aggregate.current_version w.store))
    where
      go :
          (r : Result Failure (Unit {0}) × EventStore)
          → Appends p.candidate p.aggregate.current_version w.store r
          → ((j : String) → load j r.1 ≡ load j w.store)
            ⊎ (IsNext
                  (final (fresh p.signature.order_id) (load p.signature.order_id w.store))
                  p.candidate
                × ((j : String)
                    → load j r.1 ≡ (
                        if str_eq p.signature.order_id j
                        then load j w.store ++ p.candidate ∷ []
                        else load j w.store)))
      go (err f, s') (_, _, loads) = inl loads
      go (ok _, s') (current, _, loads) = inr (
        subst (λ (a : OrderAggregate). IsNext a p.candidate)
            (ready.rebuilt
              ∙ ap (final (fresh p.signature.order_id)) (sym (unchanged-IsReady current)))
            ready.continues,
        λ j.
            subst
              (λ (k : String).
                load j s'
                ≡ (if str_eq k j then load j w.store ++ p.candidate ∷ [] else load j w.store))
              own-IsReady (loads j),
      )
