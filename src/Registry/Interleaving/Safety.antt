-- ===== src/Registry/Interleaving/Safety.antt =====
-- The version test of src/core/storage/event_store.py and the gate before it keep the histories
-- accepted, whatever the order in which prepared writers are admitted.
use streaming_system_compass.Base.{
  List, [], ◌∷◌, ◌++◌, String, ◌≡◌, inl, inr, refl, sym, ◌∙◌, ap, subst, str_eq, eq_iff, Bool-cases,
}
use streaming_system_compass.Order.{OrderEvent}
use streaming_system_compass.Order.Aggregate.{fresh}
use streaming_system_compass.Order.History.{IsHistory, IsHistory-snoc}
use streaming_system_compass.Transition.Runtime.{ValidationRuntime}
use streaming_system_compass.Storage.EventStore.{load}
use mathlib.Core.List.{append-nil, append_assoc}
use streaming_system_compass.Registry.{World, admit}
use streaming_system_compass.Registry.Interleaving.{
  Pending, Site, Step, begin, commit, abandon, Reach, here, next,
}
use streaming_system_compass.Registry.Interleaving.Ready.{IsReady, IsReady-grow}
use streaming_system_compass.Registry.Interleaving.Prepare.{prepare-IsReady}
use streaming_system_compass.Registry.Interleaving.Admit.{admit_histories}

abbrev AllReady : World → List Pending → Type 0
AllReady w [] = Unit {0}
AllReady w (p ∷ ps) = IsReady w p × AllReady w ps

-- Every stored history is an accepted history, and every pending writer is ready.
pub record IsSafe (s : Site) : Type 0 where
  pub histories : (o : String) → IsHistory (fresh o) (load o s.world.store)
  pub ready : AllReady s.world s.pending

AllReady-drop :
    (w : World) (earlier later : List Pending) (p : Pending)
    → AllReady w (earlier ++ p ∷ later)
    → IsReady w p × AllReady w (earlier ++ later)
AllReady-drop w [] later p h = h
AllReady-drop w (q ∷ earlier) later p h =
    let (r, rest) = AllReady-drop w earlier later p h.1 in (r, (h.0, rest))

-- histories of the second state are those of the first with something behind
abbrev pub Grows : World → World → Type 0
Grows w w' = (j : String) → (more : List OrderEvent) × (load j w'.store ≡ load j w.store ++ more)

AllReady-grow : (w w' : World) (ps : List Pending) → Grows w w' → AllReady w ps → AllReady w' ps
AllReady-grow w w' [] g h = tt
AllReady-grow w w' (p ∷ ps) g h =
    let (more, grown) = g p.signature.order_id in
    (IsReady-grow w w' p more grown h.0, AllReady-grow w w' ps g h.1)

module _ (w : World) (p : Pending) (ready : IsReady w p)
    (sound : (o : String) → IsHistory (fresh o) (load o w.store)) where
  abbrev after_admit : World
  after_admit = (admit p.signature p.aggregate p.candidate w).1

  admit-Grows : Grows w after_admit
  admit-Grows j = elim (admit_histories w p ready) [
    | inl same ↦ ([], same j ∙ sym (append-nil (load j w.store)))
    | inr (n, stored) ↦ elim (Bool-cases (str_eq p.signature.order_id j)) [
      | inl own ↦ (p.candidate ∷ [], stored j ∙ rw own refl)
      | inr other ↦ ([], stored j ∙ rw other (sym (append-nil (load j w.store))))
    ]
  ]

  admit_sound : (o : String) → IsHistory (fresh o) (load o after_admit.store)
  admit_sound o = elim (admit_histories w p ready) [
    | inl same ↦ rw (same o) (sound o)
    | inr (n, stored) ↦ elim (Bool-cases (str_eq p.signature.order_id o)) [
      | inr other ↦ rw (stored o, other) (sound o)
      | inl own ↦
          rw (stored o, own)
            (subst (λ (k : String). IsHistory (fresh k) (load k w.store ++ p.candidate ∷ []))
              ((eq_iff p.signature.order_id o).0 own)
              (IsHistory-snoc (fresh p.signature.order_id) (load p.signature.order_id w.store)
                p.candidate (sound p.signature.order_id) n))
    ]
  ]

-- Each step of the writers keeps the histories accepted and the pending writers ready.
Step-IsSafe : (runtime : ValidationRuntime) {s t : Site} → IsSafe s → Step runtime s t → IsSafe t
Step-IsSafe runtime {s} h (begin stamp signature p e q) = rw q (record {
  histories = h.histories;
  ready = (prepare-IsReady runtime stamp signature s.world p h.histories e, h.ready);
})
Step-IsSafe runtime {s} h (commit earlier later p e q) =
    let (r, rest) = AllReady-drop s.world earlier later p (rw e at h.ready) in
    rw q (record {
      histories = admit_sound s.world p r h.histories;
      ready =
          AllReady-grow s.world (admit p.signature p.aggregate p.candidate s.world).1
            (earlier ++ later) (admit-Grows s.world p r h.histories) rest;
    })
Step-IsSafe runtime {s} h (abandon earlier later p e q) =
    let (r, rest) = AllReady-drop s.world earlier later p (rw e at h.ready) in
    rw q (record { histories = h.histories; ready = rest })

-- However writers interleave, only safe states are reached from a safe state: every stored history
-- is an accepted history, and every pending writer was validated against the state of an earlier
-- part of its order's history, which its candidate continues.
pub Reach-IsSafe :
    (runtime : ValidationRuntime) {s t : Site} → IsSafe s → Reach runtime s t → IsSafe t
Reach-IsSafe runtime h here = h
Reach-IsSafe runtime h (next r st) = Step-IsSafe runtime (Reach-IsSafe runtime h r) st

Step-Grows :
    (runtime : ValidationRuntime) {s t : Site} → IsSafe s → Step runtime s t → Grows s.world t.world
Step-Grows runtime {s} h (begin stamp signature p e q) =
    rw q (λ j. ([], sym (append-nil (load j s.world.store))))
Step-Grows runtime {s} h (commit earlier later p e q) =
    let (r, rest) = AllReady-drop s.world earlier later p (rw e at h.ready) in
    rw q (admit-Grows s.world p r h.histories)
Step-Grows runtime {s} h (abandon earlier later p e q) =
    rw q (λ j. ([], sym (append-nil (load j s.world.store))))

-- No step of the writers takes an event away.
pub Reach-Grows :
    (runtime : ValidationRuntime) {s t : Site}
    → IsSafe s
    → Reach runtime s t
    → Grows s.world t.world
Reach-Grows runtime {s} h here j = ([], sym (append-nil (load j s.world.store)))
Reach-Grows runtime {s} h (next {t} {u} r st) j =
    let (more, grown) = Reach-Grows runtime h r j in
    let (last, added) = Step-Grows runtime (Reach-IsSafe runtime h r) st j in
    (
      more ++ last,
      added
          ∙ ap (λ (l : List OrderEvent). l ++ last) grown
          ∙ append_assoc (load j s.world.store) more last,
    )
