-- ===== src/Simulation/Untouched.antt =====
-- What a simulation leaves alone: the queues, the database and the waits.
use relayer_node.Base.{
  ℕ, ◌+◌, String, Bool, true, false, Option, none, some, List, str_eq, inl, inr, Bool-cases,
}
use relayer_node.Exec.{bind_cases, try_cases, or_throw_cases}
use relayer_node.Types.{GasPriceType}
use relayer_node.Backend.{Backend, State}
use relayer_node.TransactionService.Keeps.{
  Keeps, get_gas_price-Keeps, get_gas_price_for_simulation-Keeps,
}
use relayer_node.Consumers.{UserOperation}
use relayer_node.Simulation.{
  ScwSimulationData, RefundInfo, LogInput, TransactionLog, TenderlyTransaction, Simulators,
  SimulationState, check_value, check_input, find_input, check_log, find_log,
  check_if_relayer_is_paid_fully,
}
use relayer_node.Simulation.Simulate.{
  Posted, answered, not_answered, post_simulation, with_status, after_post, simulate_scw,
  validate_user_op, after_validation, simulate_aa,
}
use relayer_node.Exec.{JsError}

module _ (b : Backend) where
  check_value-Keeps :
      (value : Option String) (gas_used : ℕ) (r : RefundInfo) (s t : State b)
      → Keeps b s t
      → Keeps b s (check_value b value gas_used r t).1
  unfolding check_value
  check_value-Keeps none gas_used r s t k = k
  check_value-Keeps (some value) gas_used r s t k = elim (Bool-cases (str_eq value "")) [
    | inl e ↦ rw e k
    | inr e ↦
        let priced = get_gas_price-Keeps b GasPriceType.default s t k in
        rw e (bind_cases (Keeps b s) _ _ t priced (λ price. priced))
  ]

  check_input-Keeps :
      (input : Option LogInput) (gas_used : ℕ) (r : RefundInfo) (s t : State b)
      → Keeps b s t
      → Keeps b s (check_input b input gas_used r t).1
  unfolding check_input
  check_input-Keeps none gas_used r s t k = k
  check_input-Keeps (some input) gas_used r s t k = check_value-Keeps input.value gas_used r s t k

  check_log-Keeps :
      (log : Option TransactionLog) (gas_used : ℕ) (r : RefundInfo) (s t : State b)
      → Keeps b s t
      → Keeps b s (check_log b log gas_used r t).1
  unfolding check_log
  check_log-Keeps none gas_used r s t k = k
  check_log-Keeps (some log) gas_used r s t k =
      or_throw_cases (Keeps b s) log.inputs _ _ t k
        (λ inputs. check_input-Keeps (find_input "payment" inputs) gas_used r s t k)

  check_if_relayer_is_paid_fully-Keeps :
      (logs : Option (List TransactionLog)) (gas_used : ℕ) (r : RefundInfo) (s t : State b)
      → Keeps b s t
      → Keeps b s (check_if_relayer_is_paid_fully b logs gas_used r t).1
  unfolding check_if_relayer_is_paid_fully
  check_if_relayer_is_paid_fully-Keeps logs gas_used r s t k =
      try_cases (Keeps b s) _ _ t
        (or_throw_cases (Keeps b s) logs _ _ t k
          (λ ls. check_log-Keeps (find_log "WalletHandlePayment" ls) gas_used r s t k))
        (λ e h. h)

  module _ (sim : Simulators) (s : State b) where
    abbrev KeepsBackend : SimulationState b sim.World → Type 0
    KeepsBackend t = Keeps b s t.backend

    with_status-Keeps :
        (status : Bool) (transaction : TenderlyTransaction) (r : RefundInfo)
        (t : SimulationState b sim.World)
        → Keeps b s t.backend
        → Keeps b s (with_status b sim status transaction r t).1.backend
    with_status-Keeps false transaction r t k = k
    with_status-Keeps true transaction r t k =
        or_throw_cases KeepsBackend transaction.call_trace _ _ t k (λ trace.
          let checked =
            check_if_relayer_is_paid_fully-Keeps trace.logs (trace.gas_used + trace.intrinsic_gas) r
              s t.backend k in
          bind_cases KeepsBackend _ _ t checked (λ payment. checked))

    after_post-Keeps :
        (posted : Posted) (r : RefundInfo) (t : SimulationState b sim.World)
        → Keeps b s t.backend
        → Keeps b s (after_post b sim posted r t).1.backend
    after_post-Keeps (not_answered e) r t k = k
    after_post-Keeps (answered none) r t k = k
    after_post-Keeps (answered (some transaction)) r t k =
        with_status-Keeps transaction.status transaction r t k

    pub simulate_scw-Keeps :
        (d : ScwSimulationData) (t : SimulationState b sim.World)
        → Keeps b s t.backend
        → Keeps b s (simulate_scw b sim d t).1.backend
    unfolding simulate_scw post_simulation
    simulate_scw-Keeps d t k =
        let priced = get_gas_price_for_simulation-Keeps b GasPriceType.default s t.backend k in
        bind_cases KeepsBackend _ _ t priced (λ price.
          let posted =
            try_cases KeepsBackend _ _ _ (bind_cases KeepsBackend _ _ _ priced (λ _. priced))
              (λ e h. h) in
          bind_cases KeepsBackend _ _ _ posted (λ p. after_post-Keeps p d.refund_info _ posted))

    after_validation-Keeps :
        (error : Option JsError) (contract : String) (op : Option UserOperation)
        (t : SimulationState b sim.World)
        → Keeps b s t.backend
        → Keeps b s (after_validation b sim error contract op t).1.backend
    after_validation-Keeps (some e) contract op t k = k
    after_validation-Keeps none contract op t k =
        or_throw_cases KeepsBackend _ _ _ t k
          (λ call_data. bind_cases KeepsBackend _ _ t k (λ _. k))

    pub simulate_aa-Keeps :
        (contract : String) (op : Option UserOperation) (t : SimulationState b sim.World)
        → Keeps b s t.backend
        → Keeps b s (simulate_aa b sim contract op t).1.backend
    unfolding simulate_aa validate_user_op
    simulate_aa-Keeps contract op t k =
        let validated =
          try_cases KeepsBackend _ _ t (bind_cases KeepsBackend _ _ t k (λ _. k)) (λ e h. h) in
        bind_cases KeepsBackend _ _ t validated
          (λ error. after_validation-Keeps error contract op _ validated)
