-- ===== src/Projection/Worker/Progress.antt =====
-- One record: what the worker saves, what it leaves alone, and recovery from a crash between the
-- two saves.
use streaming_system_compass.Base.{
  ℕ, ◌+◌, ◌≤◌, true, false, String, ◌≡◌, ◌⊎◌, inl, inr, refl, sym, ◌∙◌, ap, arith, leb, ltb, str_eq,
  eq_iff, if◌then◌else◌, Bool-cases,
}
use streaming_system_compass.Base.Dict.{Dict, lookup, insert, lookup-insert, lookup-insert_self}
use streaming_system_compass.Base.Result.{Result, ok, err, Result-cases}
use streaming_system_compass.Failure.{Failure}
use streaming_system_compass.Order.{OrderEvent, OrderState, EventType}
use streaming_system_compass.Projection.{reduce_order_event, reduce_by_type}
use streaming_system_compass.Projection.Worker.{
  Stores, ProjectionRecord, ProjectionProcessResult, applied, skipped_already_projected,
  process_record, load_or_init, save_state, save_offset, already_consumed, report, or_empty,
  save_reduced,
}

-- What a reduction that succeeds says of its state.
reduce-version :
    (t : EventType) (s s' : OrderState) (e : OrderEvent)
    → reduce_by_type t s e ≡ ok s'
    → (s'.order_id ≡ s.order_id) × (s'.version ≡ e.sequence)
unfolding reduce_by_type
reduce-version EventType.created s s' e h = ground arith
reduce-version EventType.paid s s' e h = ground arith

pub reduce_order_event-ok :
    (s s' : OrderState) (e : OrderEvent)
    → reduce_order_event s e ≡ ok s'
    → (e.order_id ≡ s.order_id)
      × (e.sequence ≡ s.version + 1)
      × (s'.order_id ≡ e.order_id)
      × (s'.version ≡ e.sequence)
unfolding reduce_order_event
reduce_order_event-ok s s' e h =
    ground (arith, eq_iff e.order_id s.order_id, reduce-version e.event_type s s' e)

pub load_or_init-save :
    (s : OrderState) (o : String) (st : Stores)
    → load_or_init o (save_state s st) ≡ (if str_eq s.order_id o then s else load_or_init o st)
unfolding load_or_init or_empty
load_or_init-save s o st = ground (arith, lookup-insert s.order_id o s st.states)

module _ (worker : String) (r : ProjectionRecord) (st : Stores) where
  abbrev current_state : OrderState
  current_state = load_or_init r.event.order_id st

  -- A record is applied when it is not consumed and the reducer takes it.
  pub process_record-applied :
      (s : OrderState)
      → already_consumed r.offset (lookup worker st.offsets) ≡ false
      → reduce_order_event current_state r.event ≡ ok s
      → process_record worker r st
        ≡ (ok (report r applied s.version), save_offset worker r.offset (save_state s st))
  unfolding process_record
  process_record-applied s fresh_offset reduced =
      let (_, next, _, _) = reduce_order_event-ok current_state s r.event reduced in
      let newer : leb r.event.sequence current_state.version ≡ false = ground arith in
      let no_gap : ltb (current_state.version + 1) r.event.sequence ≡ false = ground arith in
      rw (fresh_offset, newer, no_gap, reduced) refl

  process_record-projected :
      already_consumed r.offset (lookup worker st.offsets) ≡ false
      → r.event.sequence ≤ current_state.version
      → process_record worker r st ≡ (
        ok (report r skipped_already_projected current_state.version),
        save_offset worker r.offset st,
      )
  unfolding process_record
  process_record-projected fresh_offset old =
      let older : leb r.event.sequence current_state.version ≡ true = ground arith in
      rw (fresh_offset, older) refl

  -- Whatever the record, one of these happens: nothing is saved; the event is projected already
  -- and only the offset is saved; or the event is reduced, and the state and the offset are saved.
  pub process_record-cases :
      ((process_record worker r st).1 ≡ st)
      ⊎ ((process_record worker r st).1 ≡ save_offset worker r.offset st)
      ⊎ ((s : OrderState) × (reduce_order_event current_state r.event ≡ ok s)
          × ((process_record worker r st).1 ≡ save_offset worker r.offset (save_state s st)))
  unfolding process_record
  process_record-cases = elim (Bool-cases (already_consumed r.offset (lookup worker st.offsets))) [
    | inl consumed ↦ inl (rw consumed refl)
    | inr fresh_offset ↦ elim (Bool-cases (leb r.event.sequence current_state.version)) [
      | inl old ↦ inr (inl (rw (fresh_offset, old) refl))
      | inr newer ↦ elim (Bool-cases (ltb (current_state.version + 1) r.event.sequence)) [
        | inl gap ↦ inl (rw (fresh_offset, newer, gap) refl)
        | inr no_gap ↦ elim (Result-cases (reduce_order_event current_state r.event)) [
          | inl (s, reduced) ↦
              inr (inr (s, reduced, rw (fresh_offset, newer, no_gap, reduced) refl))
          | inr (f, refused) ↦ inl (rw (fresh_offset, newer, no_gap, refused) refl)
        ]
      ]
    ]
  ]

  -- If the worker raises, it has saved nothing.
  pub process_record-err :
      (f : Failure) → (process_record worker r st).0 ≡ err f → (process_record worker r st).1 ≡ st
  unfolding process_record save_reduced
  process_record-err f h = ground arith

consumed_after :
    (worker : String) (r : ProjectionRecord) (offsets : Dict ℕ)
    → already_consumed r.offset (lookup worker (insert worker r.offset offsets)) ≡ true
unfolding already_consumed
consumed_after worker r offsets =
    rw (lookup-insert_self {V = ℕ} worker r.offset offsets) (ground arith)

skip :
    (worker : String) (r : ProjectionRecord) (st : Stores)
    → already_consumed r.offset (lookup worker st.offsets) ≡ true
    → (process_record worker r st).1 ≡ st
unfolding process_record
skip worker r st h = rw h refl

module _ (worker : String) (r : ProjectionRecord) (st : Stores) where
  -- A record that is delivered twice has the effect of one delivery on the stores, whatever it is.
  pub process_record_idem :
      (process_record worker r (process_record worker r st).1).1 ≡ (process_record worker r st).1
  process_record_idem = elim (process_record-cases worker r st) [
    | inl same ↦ ap (λ (x : Stores). (process_record worker r x).1) same
    | inr (inl saved) ↦
        settled (save_offset worker r.offset st) saved (consumed_after worker r st.offsets)
    | inr (inr (s, reduced, saved)) ↦
        settled (save_offset worker r.offset (save_state s st)) saved
          (consumed_after worker r st.offsets)
  ]
    where
      settled :
          (x : Stores)
          → (process_record worker r st).1 ≡ x
          → already_consumed r.offset (lookup worker x.offsets) ≡ true
          → (process_record worker r (process_record worker r st).1).1
            ≡ (process_record worker r st).1
      settled x saved consumed =
          ap (λ (y : Stores). (process_record worker r y).1) saved
          ∙ skip worker r x consumed
          ∙ sym saved

  -- For a record above the checkpoint whose event the reducer takes: if the process dies after it
  -- saved the state and before it saved the offset, delivering the record again ends in the stores
  -- that an undisturbed delivery leaves.
  pub crash_between_saves :
      (s : OrderState)
      → already_consumed r.offset (lookup worker st.offsets) ≡ false
      → reduce_order_event (load_or_init r.event.order_id st) r.event ≡ ok s
      → (process_record worker r (save_state s st)).1 ≡ (process_record worker r st).1
  crash_between_saves s fresh_offset reduced =
      let (_, _, own, version) =
        reduce_order_event-ok (load_or_init r.event.order_id st) s r.event reduced in
      let loaded : load_or_init r.event.order_id (save_state s st) ≡ s =
        load_or_init-save s r.event.order_id st
        ∙ rw ((eq_iff s.order_id r.event.order_id).1 own) refl in
      let projected : r.event.sequence ≤ (load_or_init r.event.order_id (save_state s st)).version =
        rw (loaded, version) (omega arith) in
      ap (λ (x : Result Failure ProjectionProcessResult × Stores). x.1)
        (process_record-projected worker r (save_state s st) fresh_offset projected)
      ∙ ap (λ (x : Result Failure ProjectionProcessResult × Stores). x.1)
          (sym (process_record-applied worker r st s fresh_offset reduced))
