-- ===== src/Postgres/Gate.antt =====
-- src/pipeline/transactional/postgres_admission.py: the two admission gates.
pub mod Verdict
use streaming_system_compass.Base.{
  ℕ, Bool, true, false, ◌||◌, Option, none, some, List, [], ◌∷◌, String, str_eq, if◌then◌else◌,
}
use streaming_system_compass.Base.Result.{Result, ok, err}
use streaming_system_compass.Base.Action.{Action, ◌>>=◌, ◌>>◌, return, raise, lift}
use streaming_system_compass.Failure.{
  Failure, is_value_error, append_version_mismatch, stale_write_error, append_conflict_error,
  storage_infrastructure_error, unique_violation, lock_not_available,
}
use streaming_system_compass.Order.{OrderEvent}
use streaming_system_compass.Admission.{
  AdmissionVerdict, admitted, stale_write, lock_timeout, infrastructure_error,
  StreamAdmissionResult, AdmissionResult, version_mismatch_evidence, admission_result,
}
use streaming_system_compass.Postgres.Session.{Session}
use streaming_system_compass.Postgres.EventStore.{append_event}
use streaming_system_compass.Base.Result

-- `PostgresOptimisticAdmissionGate` and `PostgresPessimisticAdmissionGate`
pub data Gate : Type 0 where
  optimistic pessimistic : Gate

-- `_is_stream_position_conflict`, on the constraint name of the exception
unfoldable pub is_stream_position_conflict : Option String → Bool
is_stream_position_conflict none = false
is_stream_position_conflict (some name) =
    str_eq name "uq_order_events_order_id_sequence"
    || str_eq name "order_events_order_id_sequence_key"

rejected : OrderEvent → AdmissionVerdict → Result Failure AdmissionResult
unfolding admission_result
rejected candidate verdict = admission_result verdict candidate.event_id none none

-- The `except` clauses of `_append_with_translation`, in their order.
unfoldable pub translate_failure : OrderEvent → Failure → Result Failure AdmissionResult
unfolding rejected is_stream_position_conflict is_value_error
translate_failure candidate (append_version_mismatch expected observed) =
    Result.◌>>=◌ (version_mismatch_evidence expected observed)
      λ evidence. admission_result stale_write candidate.event_id none (some evidence)
translate_failure candidate stale_write_error = rejected candidate stale_write
translate_failure candidate append_conflict_error = rejected candidate stale_write
translate_failure candidate (unique_violation name) =
    rejected candidate
      (if is_stream_position_conflict name then stale_write else infrastructure_error)
translate_failure candidate lock_not_available = rejected candidate lock_timeout
translate_failure candidate storage_infrastructure_error = rejected candidate infrastructure_error
translate_failure candidate e = if is_value_error e then rejected candidate stale_write else err e

pub translate_append :
    {S : Type 0} → OrderEvent → Result Failure (Unit {0}) × S → Result Failure AdmissionResult × S
unfolding translate_failure admission_result
translate_append candidate (ok _, s) =
    (admission_result admitted candidate.event_id (some candidate.event_id) none, s)
translate_append candidate (err e, s) = (translate_failure candidate e, s)

-- `order_id in self._prepared_order_ids`
unfoldable pub is_prepared : String → List String → Bool
is_prepared order_id [] = false
is_prepared order_id (x ∷ xs) = let rest = is_prepared order_id xs in str_eq order_id x || rest

abbrev stream_result : AdmissionVerdict → String → StreamAdmissionResult
stream_result verdict order_id = record { verdict = verdict; order_id = order_id }

module _ {D : Type 0} (db : Session D) where
  -- `_append_with_translation`
  unfoldable pub append_with_translation : OrderEvent → ℕ → Action D AdmissionResult
  unfolding translate_append
  append_with_translation candidate expected s =
      translate_append candidate (append_event db candidate expected s)

  -- `PostgresPessimisticAdmissionGate.prepare_stream`, behind the test of autocommit
  lock_stream : List String → String → Action D (StreamAdmissionResult × List String)
  lock_stream prepared order_id = do
    acquired ← db.try_lock order_id
    return (
        if acquired
        then (stream_result admitted order_id, order_id ∷ prepared)
        else (stream_result lock_timeout order_id, prepared))

  -- `prepare_stream`, with the set of prepared ids before and after
  unfoldable pub gate_prepare :
      Gate → List String → String → Action D (StreamAdmissionResult × List String)
  unfolding lock_stream
  gate_prepare optimistic prepared order_id s = return (stream_result admitted order_id, prepared) s
  gate_prepare pessimistic prepared order_id s =
      if db.autocommit s
      then return (stream_result infrastructure_error order_id, prepared) s
      else lock_stream prepared order_id s

  -- `append_if_admitted`
  unfoldable pub gate_append : Gate → List String → OrderEvent → ℕ → Action D AdmissionResult
  unfolding rejected append_with_translation
  gate_append optimistic prepared candidate expected = append_with_translation candidate expected
  gate_append pessimistic prepared candidate expected =
      if is_prepared candidate.order_id prepared
      then append_with_translation candidate expected
      else lift (rejected candidate infrastructure_error)
