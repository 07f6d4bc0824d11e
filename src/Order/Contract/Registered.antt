-- ===== src/Order/Contract/Registered.antt =====
-- The contract that src/core/order/correctness_contract.py materializes, and the numbers that
-- src/core/order/aggregate.py uses.
use streaming_system_compass.Base.{
  ℕ, ◌+◌, ◌*◌, ◌<◌, false, ◌&&◌, String, str_eq, eq_iff, ◌==◌, ◌≡◌, ◌⊎◌, ◌∙◌, refl, ap, arith, inl,
  inr, Bool-cases,
}
use streaming_system_compass.Base.Result.{ok, Result-cases}
use streaming_system_compass.Decimal.{Decimal, finite, infinity, nan, cents}
use streaming_system_compass.Money.{MoneyInput}
use streaming_system_compass.Money.Canonical.{IsPositiveMoney, ensure_positive-IsPositiveMoney}
use streaming_system_compass.Order.{EventType, OrderEvent, Stamp}
use streaming_system_compass.Order.Aggregate.{OrderAggregate, create, pay}
use streaming_system_compass.Order.Aggregate.Legality.{candidate, create-ok, pay-ok}
use streaming_system_compass.Order.Contract.{contract_id, contract_version}
use streaming_system_compass.Order.Contract.Edition.{
  OrderCorrectnessContract, from_identity, order_correctness_contract_v0, from_identity-v0,
  require_trimmed,
}

-- An identity that materializes is the registered one.
registered :
    (id : String) (version : ℕ) (c : OrderCorrectnessContract)
    → from_identity id version ≡ ok c
    → (id ≡ contract_id) × (version ≡ contract_version)
unfolding from_identity
registered id version c h = elim (Result-cases (require_trimmed id)) [
  | inr (f, p) ↦ absurd (ground arith)
  | inl (u, p) ↦ elim (Bool-cases (str_eq id contract_id && version == 0)) [
    | inr other ↦ absurd (ground arith)
    | inl known ↦ ground (arith, eq_iff id contract_id)
  ]
]

-- The number `n` times a quantum.
abbrev pub times : ℕ → Decimal → Decimal
times n (finite s c e) = finite s (n * c) e
times n (infinity s) = infinity s
times n nan = nan

module _ (c : OrderCorrectnessContract) (known : c ≡ order_correctness_contract_v0) where
  -- A candidate of the aggregate is in the contract's units.
  abbrev pub IsInUnits : OrderAggregate → OrderEvent → Type 0
  IsInUnits a e =
      (e.sequence ≡ a.current_version + c.next_sequence_increment)
      × ((n : ℕ) × (0 < n) × (e.amount ≡ times n c.normalization_quantum))

  candidate-IsInUnits :
      (a : OrderAggregate) (stamp : Stamp) (request_id : String) (t : EventType) (d : Decimal)
      → IsPositiveMoney d
      → IsInUnits a (candidate a stamp request_id t d)
  candidate-IsInUnits a stamp request_id t d p =
      let one : p.amount ≡ p.amount * 1 = omega arith in
      rw known (refl, (p.amount, p.above_zero, p.is_cents ∙ ap (cents false) one))

-- The numbers of a materialized contract are those of the code. For whatever contract an identity
-- materializes: every event that the aggregate's create or pay returns has the sequence that the
-- contract's increment makes from the aggregate's version, and an amount that is a positive number
-- of the contract's normalization quanta.
pub from_identity-implemented :
    (id : String) (version : ℕ) (c : OrderCorrectnessContract)
    → from_identity id version ≡ ok c
    → (a : OrderAggregate) (stamp : Stamp) (request_id : String) (v : MoneyInput) (e : OrderEvent)
    → (create a stamp request_id v ≡ ok e) ⊎ (pay a stamp request_id v ≡ ok e)
    → (e.sequence ≡ a.current_version + c.next_sequence_increment)
      × ((n : ℕ) × (0 < n) × (e.amount ≡ times n c.normalization_quantum))
from_identity-implemented id version c h a stamp request_id v e made =
    let (name, number) = registered id version c h in
    let known : c ≡ order_correctness_contract_v0 = cc (from_identity-v0, h, name, number) in
    elim made [
      | inl m ↦
          let (_, _, (d, paid, same)) = create-ok a stamp request_id v e m in
          rw same (
            candidate-IsInUnits c known a stamp request_id EventType.created d
              (ensure_positive-IsPositiveMoney v d paid))
      | inr m ↦
          let (_, _, (d, paid, _, same)) = pay-ok a stamp request_id v e m in
          rw same (
            candidate-IsInUnits c known a stamp request_id EventType.paid d
              (ensure_positive-IsPositiveMoney v d paid))
    ]
