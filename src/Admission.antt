-- ===== src/Admission.antt =====
-- src/pipeline/transactional/admission.py: the admission results and the optimistic gate.
use streaming_system_compass.Base.{
  ℕ, Bool, true, false, Option, none, some, String, not, refl, ◌≡◌, ◌==◌, ◌&&◌, ◌||◌, if◌then◌else◌,
}
use streaming_system_compass.Base.Result.{Result, ok, err, ◌>>◌, raise_if}
use streaming_system_compass.Failure.{Failure, is_value_error, incoherent_evidence}
use streaming_system_compass.Order.{OrderEvent}
use streaming_system_compass.Storage.EventStore.{EventStore, append}

pub data AdmissionVerdict : Type 0 where
  admitted stale_write lock_timeout infrastructure_error : AdmissionVerdict

pub record AppendVersionMismatchEvidence : Type 0 where
  pub expected_current_version : ℕ
  pub observed_current_version : ℕ

-- The constructor with its `__post_init__`; versions are naturals here.
unfoldable pub version_mismatch_evidence : ℕ → ℕ → Result Failure AppendVersionMismatchEvidence
version_mismatch_evidence expected observed = do
  raise_if (expected == observed) incoherent_evidence
  ok (record { expected_current_version = expected; observed_current_version = observed })

pub record StreamAdmissionResult : Type 0 where
  pub verdict : AdmissionVerdict
  pub order_id : String

pub record AdmissionResult : Type 0 where
  pub verdict : AdmissionVerdict
  pub candidate_event_id : String
  pub accepted_event_id : Option String
  pub append_version_mismatch_evidence : Option AppendVersionMismatchEvidence

-- `verdict == AdmissionVerdict.ADMITTED`
unfoldable pub is_admitted : AdmissionVerdict → Bool
is_admitted admitted = true
is_admitted _ = false

is_stale : AdmissionVerdict → Bool
is_stale stale_write = true
is_stale _ = false

is_none {ℓ} : {A : Type ℓ} → Option A → Bool
is_none none = true
is_none (some _) = false

-- The constructor of AdmissionResult with its `__post_init__`.
unfoldable pub admission_result :
    AdmissionVerdict
    → String
    → Option String
    → Option AppendVersionMismatchEvidence
    → Result Failure AdmissionResult
unfolding is_stale is_none
admission_result verdict candidate accepted evidence = do
  raise_if (not (is_none evidence) && (not (is_stale verdict) || not (is_none accepted)))
      incoherent_evidence
  ok (record {
    verdict = verdict;
    candidate_event_id = candidate;
    accepted_event_id = accepted;
    append_version_mismatch_evidence = evidence;
  })

-- `OptimisticVersionGate.prepare_stream`
unfoldable pub prepare_stream : String → StreamAdmissionResult
prepare_stream order_id = record { verdict = admitted; order_id = order_id }

-- `try: store.append(...) except ValueError`, on what the append did
unfoldable pub translate : OrderEvent → Result Failure (Unit {0}) → Result Failure AdmissionResult
unfolding admission_result is_value_error
translate e (ok _) = admission_result admitted e.event_id (some e.event_id) none
translate e (err f) =
    if is_value_error f then admission_result stale_write e.event_id none none else err f

-- `OptimisticVersionGate.append_if_admitted`
unfoldable pub append_if_admitted :
    OrderEvent → ℕ → EventStore → Result Failure AdmissionResult × EventStore
unfolding translate
append_if_admitted e expected s = let (r, s') = append e expected s in (translate e r, s')

-- What the gate reports of an append that succeeded.
abbrev pub admitted_result : OrderEvent → AdmissionResult
admitted_result e = record {
  verdict = admitted;
  candidate_event_id = e.event_id;
  accepted_event_id = some e.event_id;
  append_version_mismatch_evidence = none;
}

pub append_if_admitted-ok :
    (e : OrderEvent) (expected : ℕ) (s : EventStore)
    → (append e expected s).0 ≡ ok tt
    → append_if_admitted e expected s ≡ (ok (admitted_result e), (append e expected s).1)
unfolding append_if_admitted translate admission_result is_none is_stale
append_if_admitted-ok e expected s h = rw h refl
