-- ===== src/Order/Contract/Parity.antt =====
-- The aggregate's commands against the declarative contract: src/core/order/aggregate.py implements
-- the allowed transitions and the amount constraints of src/core/order/correctness_contract.py.
use streaming_system_compass.Base.{
  Bool, true, false, ◌&&◌, not, Option, none, some, List, [], ◌∷◌, String, ◌≡◌, ◌↔◌, refl, sym, ap,
  ◌∙◌, subst, arith, if◌then◌else◌, inl, inr,
}
use streaming_system_compass.Base.Text.{is_blank}
use streaming_system_compass.Base.Result.{ok, Result-cases}
use streaming_system_compass.Decimal.{Decimal, decimal_eq, not_positive}
use streaming_system_compass.Money.{MoneyInput, normalize_money, ensure_positive_money}
use streaming_system_compass.Order.{
  CommandType, OrderStatus, OrderEvent, Stamp, status_eq, command_eq,
}
use streaming_system_compass.Order.Aggregate.{OrderAggregate, create, pay, applied}
use streaming_system_compass.Order.Aggregate.Legality.{
  candidate, create-ok, create-total, pay-ok, pay-total,
}
use streaming_system_compass.Order.Contract.{contract_id, contract_version}
use streaming_system_compass.Order.Contract.Rules.{
  AllowedTransition, create_transition, pay_transition, CommandAmountConstraint,
  AmountConstraintKind, normalized_value_greater_than_zero,
  normalized_value_equals_current_total_amount,
}
use streaming_system_compass.Order.Contract.Edition.{
  OrderCorrectnessContract, from_identity, order_correctness_contract_v0, from_identity-v0,
}
use streaming_system_compass.Registry.{run_command}

-- What the declared constraints say of a normalized amount.
abbrev pub satisfies : AmountConstraintKind → OrderAggregate → Decimal → Bool
satisfies normalized_value_greater_than_zero a d = not (not_positive d)
satisfies normalized_value_equals_current_total_amount a d = decimal_eq d a.total_amount

-- All constraints of a command hold.
abbrev pub amounts_hold :
    List CommandAmountConstraint → CommandType → OrderAggregate → Decimal → Bool
amounts_hold [] t a d = true
amounts_hold (c ∷ cs) t a d =
    (if command_eq c.command t then satisfies c.constraint a d else true) && amounts_hold cs t a d

-- The declared edge of a command from a status.
abbrev pub edge_for : List AllowedTransition → CommandType → OrderStatus → Option AllowedTransition
edge_for [] t s = none
edge_for (e ∷ es) t s =
    let rest = edge_for es t s in
    if command_eq e.command t && status_eq e.predecessor_status s then some e else rest

-- A positive normalized amount is what `ensure_positive_money` accepts.
ensure_positive-normalize :
    (v : MoneyInput) (d : Decimal)
    → (ensure_positive_money v ≡ ok d) ↔ ((normalize_money v ≡ ok d) × (not_positive d ≡ false))
unfolding ensure_positive_money
ensure_positive-normalize v d = elim (Result-cases (normalize_money v)) [
  | inr (f, p) ↦ (λ h. absurd (ground arith), λ h. absurd (ground arith))
  | inl (n, p) ↦ (λ h. ground arith, λ h. ground arith)
]

-- What the contract demands of a command: a request id, a declared edge from the aggregate's
-- status, and a normalized amount for which the command's declared constraints hold. The event is
-- the candidate of the edge's type, and applying it leads to the edge's resulting status.
abbrev pub Permits :
    OrderCorrectnessContract
    → CommandType
    → OrderAggregate
    → Stamp
    → String
    → MoneyInput
    → OrderEvent
    → Type 0
Permits c t a stamp request_id v e =
    (is_blank request_id ≡ false)
    × ((edge : AllowedTransition) × (edge_for c.allowed_transitions t a.status ≡ some edge)
        × ((d : Decimal) × (normalize_money v ≡ ok d)
            × (amounts_hold c.amount_constraints t a d ≡ true)
            × (e ≡ candidate a stamp request_id edge.candidate_event_type d)
            × ((applied a e).status ≡ edge.resulting_status)))

module _ (a : OrderAggregate) (stamp : Stamp) (request_id : String) (v : MoneyInput)
    (e : OrderEvent) where
  create-Permits :
      (create a stamp request_id v ≡ ok e)
      ↔ Permits order_correctness_contract_v0 CommandType.create a stamp request_id v e
  unfolding applied
  create-Permits = (
    λ h.
        let (b, s, (d, paid, made)) = create-ok a stamp request_id v e h in
        let (normal, positive) = (ensure_positive-normalize v d).0 paid in
        (b, (create_transition, rw s refl, (d, normal, rw positive refl, made, rw made refl))),
    λ (b, (edge, found, (d, normal, hold, made, _))).
        let s : a.status ≡ OrderStatus.init = ground arith in
        let which : create_transition ≡ edge = ground arith in
        let paid = (ensure_positive-normalize v d).1 (normal, ground arith) in
        create-total a stamp request_id v b s paid
        ∙ ap ok (
            ap (λ (x : AllowedTransition). candidate a stamp request_id x.candidate_event_type d)
              which
            ∙ sym made),
  )

  pay-Permits :
      (pay a stamp request_id v ≡ ok e)
      ↔ Permits order_correctness_contract_v0 CommandType.pay a stamp request_id v e
  unfolding applied
  pay-Permits = (
    λ h.
        let (b, s, (d, paid, equal, made)) = pay-ok a stamp request_id v e h in
        let (normal, positive) = (ensure_positive-normalize v d).0 paid in
        (
          b,
          (pay_transition, rw s refl, (d, normal, rw (positive, equal) refl, made, rw made refl)),
        ),
    λ (b, (edge, found, (d, normal, hold, made, _))).
        let s : a.status ≡ OrderStatus.created = ground arith in
        let which : pay_transition ≡ edge = ground arith in
        let paid = (ensure_positive-normalize v d).1 (normal, ground arith) in
        let equal : decimal_eq d a.total_amount ≡ true = ground arith in
        pay-total a stamp request_id v b s paid equal
        ∙ ap ok (
            ap (λ (x : AllowedTransition). candidate a stamp request_id x.candidate_event_type d)
              which
            ∙ sym made),
  )

  run_command-Permits :
      (t : CommandType)
      → (run_command t a stamp request_id v ≡ ok e)
        ↔ Permits order_correctness_contract_v0 t a stamp request_id v e
  unfolding run_command
  run_command-Permits CommandType.create = create-Permits
  run_command-Permits CommandType.pay = pay-Permits

-- For the contract that the program's contract identity materializes, each command of the aggregate
-- makes exactly the events that the contract permits: there is a declared edge from the aggregate's
-- status, the command's amount constraints hold of the normalized amount, the request id is not
-- blank, the event is the candidate of the edge's type, and applying it leads to the edge's
-- resulting status.
pub commands_implement_contract :
    (c : OrderCorrectnessContract)
    → from_identity contract_id contract_version ≡ ok c
    → (t : CommandType) (a : OrderAggregate) (stamp : Stamp) (request_id : String) (v : MoneyInput)
      (e : OrderEvent)
    → (run_command t a stamp request_id v ≡ ok e) ↔ Permits c t a stamp request_id v e
commands_implement_contract c h t a stamp request_id v e =
    let same : order_correctness_contract_v0 ≡ c = cc (h, from_identity-v0) in
    subst
      (λ (x : OrderCorrectnessContract).
        (run_command t a stamp request_id v ≡ ok e) ↔ Permits x t a stamp request_id v e)
      same (run_command-Permits a stamp request_id v e t)
