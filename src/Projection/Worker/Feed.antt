-- ===== src/Projection/Worker/Feed.antt =====
-- A whole feed: the accepted events of many orders, in one stream of increasing offsets.
use streaming_system_compass.Base.{
  ℕ, ◌<◌, false, Option, none, some, List, [], ◌∷◌, String, ◌≡◌, inl, inr, refl, ◌∙◌, ap, subst,
  arith, str_eq, eq_iff, if◌then◌else◌, Bool-cases,
}
use streaming_system_compass.Base.Dict.{lookup, lookup-insert_self}
use streaming_system_compass.Base.Result.{Result, ok, err}
use streaming_system_compass.Failure.{Failure}
use streaming_system_compass.Order.{OrderEvent, OrderState}
use streaming_system_compass.Order.Aggregate.{OrderAggregate, applied}
use streaming_system_compass.Order.History.{
  IsNext, IsHistory, IsCoherent, final, applied-IsCoherent, applied-order,
}
use streaming_system_compass.Projection.{reduce_order_event}
use streaming_system_compass.Projection.Agreement.{project, reduce-IsNext}
use streaming_system_compass.Projection.Worker.{
  Stores, ProjectionRecord, ProjectionProcessResult, process_record, load_or_init, save_state,
  save_offset, already_consumed, report, replay, replay_rest,
}
use streaming_system_compass.Projection.Worker as W
use streaming_system_compass.Projection.Worker.Progress.{process_record-applied, load_or_init-save}

-- The events of one order in a feed.
abbrev pub events_of : String → List ProjectionRecord → List OrderEvent
events_of o [] = []
events_of o (r ∷ rs) =
    let rest = events_of o rs in if str_eq r.event.order_id o then r.event ∷ rest else rest

abbrev pub IsAbove : ℕ → Option ℕ → Type 0
IsAbove n none = Unit {0}
IsAbove n (some c) = c < n

-- The offsets go up, from above the checkpoint.
abbrev pub IsIncreasing : Option ℕ → List ProjectionRecord → Type 0
IsIncreasing c [] = Unit {0}
IsIncreasing c (r ∷ rs) = IsAbove r.offset c × IsIncreasing (some r.offset) rs

not_consumed : (n : ℕ) (c : Option ℕ) → IsAbove n c → already_consumed n c ≡ false
unfolding already_consumed
not_consumed n none h = refl
not_consumed n (some c) h = ground arith

load_or_init-save_offset :
    (o worker : String) (n : ℕ) (st : Stores)
    → load_or_init o (save_offset worker n st) ≡ load_or_init o st
unfolding load_or_init
load_or_init-save_offset o worker n st = refl

-- The projected states are those of the aggregates, one for each order.
pub record IsProjected (at_ : String → OrderAggregate) (st : Stores) : Type 0 where
  pub loads : (o : String) → load_or_init o st ≡ project (at_ o)
  pub coherent : (o : String) → IsCoherent (at_ o)
  pub named : (o : String) → (at_ o).order_id ≡ o

-- The aggregates after one event.
abbrev advance : (String → OrderAggregate) → OrderEvent → String → OrderAggregate
advance at_ e o = if str_eq e.order_id o then applied (at_ o) e else at_ o

module _ (worker : String) (r : ProjectionRecord) (at_ : String → OrderAggregate) (st : Stores)
    (p : IsProjected at_ st) (n : IsNext (at_ r.event.order_id) r.event)
    (above : IsAbove r.offset (lookup worker st.offsets)) where
  abbrev key : String
  key = r.event.order_id

  abbrev next_state : OrderState
  next_state = project (applied (at_ key) r.event)

  abbrev next_stores : Stores
  next_stores = save_offset worker r.offset (save_state next_state st)

  feed_step : process_record worker r st ≡ (ok (report r W.applied next_state.version), next_stores)
  feed_step =
      process_record-applied worker r st next_state
        (not_consumed r.offset (lookup worker st.offsets) above)
        (ap (λ (s : OrderState). reduce_order_event s r.event) (p.loads key)
          ∙ reduce-IsNext (at_ key) r.event (p.coherent key) n)

  own_key : next_state.order_id ≡ key
  own_key = applied-order (at_ key) r.event ∙ p.named key

  loads_next : (o : String) → load_or_init o next_stores ≡ project (advance at_ r.event o)
  loads_next o =
      load_or_init-save_offset o worker r.offset (save_state next_state st)
      ∙ load_or_init-save next_state o st
      ∙ ap (λ (k : String). if str_eq k o then next_state else load_or_init o st) own_key
      ∙ elim (Bool-cases (str_eq key o))
          as (λ _.
            (if str_eq key o then next_state else load_or_init o st)
            ≡ project (advance at_ r.event o)) [
              | inl same ↦
                  rw same
                    (ap (λ (k : String). project (applied (at_ k) r.event)) ((eq_iff key o).0 same))
              | inr other ↦ rw other (p.loads o)
            ]

  feed-IsProjected : IsProjected (advance at_ r.event) next_stores
  feed-IsProjected = record {
    loads = loads_next;
    coherent = λ o. elim (Bool-cases (str_eq key o)) [
      | inl same ↦
          let own : key ≡ o = (eq_iff key o).0 same in
          rw same (
            applied-IsCoherent (at_ o) r.event (p.coherent o)
              (subst (λ (k : String). IsNext (at_ k) r.event) own n))
      | inr other ↦ rw other (p.coherent o)
    ];
    named = λ o. elim (Bool-cases (str_eq key o)) [
      | inl same ↦ rw same (applied-order (at_ o) r.event ∙ p.named o)
      | inr other ↦ rw other (p.named o)
    ];
  }

-- the histories that remain, after the head of the feed
rest_histories :
    (r : ProjectionRecord) (rs : List ProjectionRecord) (at_ : String → OrderAggregate)
    → ((o : String) → IsHistory (at_ o) (events_of o (r ∷ rs)))
    → (o : String) → IsHistory (advance at_ r.event o) (events_of o rs)
rest_histories r rs at_ h o = elim (Bool-cases (str_eq r.event.order_id o)) [
  | inl same ↦ rw same (rw same at (h o)).1
  | inr other ↦ rw other (rw other at (h o))
]

head-IsNext :
    (r : ProjectionRecord) (rs : List ProjectionRecord) (at_ : String → OrderAggregate)
    → ((o : String) → IsHistory (at_ o) (events_of o (r ∷ rs)))
    → IsNext (at_ r.event.order_id) r.event
head-IsNext r rs at_ h =
    let same = (eq_iff r.event.order_id r.event.order_id).1 refl in
    (rw same at (h r.event.order_id)).0

final-advance :
    (r : ProjectionRecord) (rs : List ProjectionRecord) (at_ : String → OrderAggregate) (o : String)
    → final (advance at_ r.event o) (events_of o rs) ≡ final (at_ o) (events_of o (r ∷ rs))
final-advance r rs at_ o = elim (Bool-cases (str_eq r.event.order_id o)) [
  | inl same ↦ rw same refl
  | inr other ↦ rw other refl
]

replay_rest-ok :
    (x : ProjectionProcessResult) (xs : List ProjectionProcessResult) (st : Stores)
    (rest : Result Failure (List ProjectionProcessResult) × Stores)
    → rest.0 ≡ ok xs
    → replay_rest (ok x) rest st ≡ (ok (x ∷ xs), rest.1)
unfolding replay_rest
replay_rest-ok x xs st (ok ys, st') h = cc
replay_rest-ok x xs st (err f, st') h = absurd (cc)

-- From stores that project some aggregates, a feed that continues them is projected to its end,
-- with no exception.
pub replay-IsProjected :
    (worker : String) (rs : List ProjectionRecord) (at_ : String → OrderAggregate) (st : Stores)
    → IsProjected at_ st
    → ((o : String) → IsHistory (at_ o) (events_of o rs))
    → IsIncreasing (lookup worker st.offsets) rs
    → (xs : List ProjectionProcessResult) × ((replay worker rs st).0 ≡ ok xs)
      × ((o : String)
          → load_or_init o (replay worker rs st).1 ≡ project (final (at_ o) (events_of o rs)))
unfolding replay
replay-IsProjected worker [] at_ st p h inc = ([], refl, p.loads)
replay-IsProjected worker (r ∷ rs) at_ st p h (above, inc) =
    let n = head-IsNext r rs at_ h in
    let a = applied (at_ r.event.order_id) r.event in
    let x = report r W.applied a.current_version in
    let st' = save_offset worker r.offset (save_state (project a) st) in
    let step = feed_step worker r at_ st p n above in
    let (xs, done, loads) =
      replay-IsProjected worker rs (advance at_ r.event) st'
        (feed-IsProjected worker r at_ st p n above) (rest_histories r rs at_ h)
        (rw (lookup-insert_self {V = ℕ} worker r.offset st.offsets) inc) in
    let whole = replay_rest-ok x xs st' (replay worker rs st') done in
    rw step (
      x ∷ xs,
      ap (λ (y : Result Failure (List ProjectionProcessResult) × Stores). y.0) whole,
      λ o.
          ap (λ (y : Result Failure (List ProjectionProcessResult) × Stores). load_or_init o y.1)
            whole
          ∙ loads o
          ∙ ap project (final-advance r rs at_ o),
    )
