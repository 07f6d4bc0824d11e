-- ===== src/Registry/Interleaving.antt =====
-- Writers that interleave: each reads and validates against some state, and is admitted later, when
-- others may have been admitted in between (src/pipeline/transactional/registry.py, the handlers cut
-- between validation and admission). A handler's read and validation are one step, and an
-- admission with what follows it is one step.
pub mod Ready
pub mod Prepare
pub mod Admit
pub mod Safety
pub mod Atomic
use streaming_system_compass.Base.{
  ℕ, zero, suc, ◌+◌, Bool, true, false, Option, none, some, List, [], ◌∷◌, ◌++◌, String, ◌≡◌, ◌≢◌,
  ◌⊎◌, inl, inr, refl, sym, ◌∙◌, ap, subst, arith, length, last?, str_eq, eq_iff, if◌then◌else◌,
  Bool-cases,
}
use streaming_system_compass.Base.Result.{Result, ok, err}
use streaming_system_compass.Failure.{Failure}
use streaming_system_compass.Money.{decimal}
use streaming_system_compass.Order.{OrderEvent, Stamp}
use streaming_system_compass.Order.Aggregate.{OrderAggregate, fresh}
use streaming_system_compass.Order.History.{
  IsNext, IsHistory, final, final-version, final-order, IsHistory-snoc,
}
use streaming_system_compass.Transition.{EnforcementAction, allow, block}
use streaming_system_compass.Transition.Runtime.{ValidationRuntime, decide}
use streaming_system_compass.Storage.EventStore.{EventStore, load, append, Appends, append-Appends}
use streaming_system_compass.Storage.Idempotency.{RequestSignature}
use streaming_system_compass.Admission.{append_if_admitted}
use streaming_system_compass.Transition.{ValidationDecision}
use streaming_system_compass.Base.Text.{is_blank}
use streaming_system_compass.Failure.{empty_order_id}
use mathlib.Core.List.{append-nil, append_assoc}
use streaming_system_compass.Registry.Invariant.{current}
use streaming_system_compass.Registry.Handling.{rehydrate-current, command-IsNext}
use streaming_system_compass.Registry.{
  World, Reply, admit, handle, rehydrate, run_command, validation_context, check_idempotency,
  propose, by_action, process, after_check,
}

-- A writer that has validated its candidate and is about to be admitted.
pub record Pending : Type 0 where
  pub signature : RequestSignature
  pub aggregate : OrderAggregate
  pub candidate : OrderEvent

-- The state with its pending writers.
pub record Site : Type 0 where
  pub world : World
  pub pending : List Pending

pub allowed : EnforcementAction → Pending → Option Pending
allowed allow p = some p
allowed block p = none

pub proposed :
    ValidationRuntime
    → RequestSignature
    → OrderAggregate
    → List OrderEvent
    → Result Failure OrderEvent
    → Option Pending
unfolding allowed
proposed runtime signature a history (err f) = none
proposed runtime signature a history (ok c) =
    allowed (decide runtime c (validation_context a (last? history))).action
      (record { signature = signature; aggregate = a; candidate = c })

pub commanded :
    ValidationRuntime
    → Stamp
    → RequestSignature
    → Result Failure (OrderAggregate × List OrderEvent)
    → Option Pending
commanded runtime stamp signature (err f) = none
commanded runtime stamp signature (ok (a, history)) =
    proposed runtime signature a history
      (run_command signature.command_type a stamp signature.request_id (decimal signature.amount))

pub checked : ValidationRuntime → Stamp → RequestSignature → World → Option Reply → Option Pending
checked runtime stamp signature w (some reply) = none
checked runtime stamp signature w none =
    commanded runtime stamp signature (rehydrate signature.order_id w.store)

-- The handler up to its admission.
unfoldable pub prepare : ValidationRuntime → Stamp → RequestSignature → World → Option Pending
unfolding checked commanded proposed allowed
prepare runtime stamp signature w =
    checked runtime stamp signature w (check_idempotency signature w.idem)

-- One writer prepares, one pending writer is admitted, or one gives up.
pub data Step (runtime : ValidationRuntime) (s t : Site) : Type 0 where
  begin :
      (stamp : Stamp) (signature : RequestSignature) (p : Pending)
      → prepare runtime stamp signature s.world ≡ some p
      → t ≡ record { world = s.world; pending = p ∷ s.pending }
      → Step runtime s t
  commit :
      (earlier later : List Pending) (p : Pending)
      → s.pending ≡ earlier ++ p ∷ later
      → t ≡ record {
        world = (admit p.signature p.aggregate p.candidate s.world).1;
        pending = earlier ++ later;
      }
      → Step runtime s t
  abandon :
      (earlier later : List Pending) (p : Pending)
      → s.pending ≡ earlier ++ p ∷ later
      → t ≡ record { world = s.world; pending = earlier ++ later }
      → Step runtime s t

pub data Reach (runtime : ValidationRuntime) (s : Site) : Site → Type 0 where
  here : Reach runtime s s
  next : {t u : Site} → Reach runtime s t → Step runtime t u → Reach runtime s u
