-- ===== src/Simulation/Outcomes.antt =====
-- What a simulation accepts.
use relayer_node.Base.{
  ℕ, ◌+◌, String, ◌≡◌, ◌≢◌, refl, Bool, true, false, Option, none, some, List, str_eq, Bool-cases,
  inl, inr,
}
use relayer_node.Js.Signed.{Number, times, less, number_of_ℕ}
use relayer_node.Exec.{returned, waiting, ◌>>=◌, or_throw, try_catch}
use relayer_node.Exec.Ends.{
  EndsIn, ReturnsIn, ne_waiting-EndsIn, ReturnsIn-value, bind-EndsIn, bind-ReturnsIn,
  or_throw-EndsIn, try-ReturnsIn,
}
use relayer_node.Types.{GasPriceType}
use relayer_node.Backend.{Backend, State}
use relayer_node.GasPrice.{get_gas_price, get_gas_price_for_simulation}
use relayer_node.Simulation.{
  ScwSimulationData, RefundInfo, LogInput, TransactionLog, CallTrace, TenderlyTransaction,
  Simulators, Payment, SimulationResponse, SimulationState, compare_refund, check_value,
  check_input, find_input, check_log, find_log, check_if_relayer_is_paid_fully,
}
use relayer_node.Simulation.Simulate.{
  tenderly_body, simulate_url, post_simulation, with_status, simulate_scw,
}

abbrev IsPaid : Payment → Type 0
IsPaid payment = payment.is_relayer_paid_fully ≡ true

compare_refund-IsPaid :
    (price payment native : Number) (gas_used : ℕ)
    → IsPaid (compare_refund price payment native gas_used)
unfolding compare_refund
compare_refund-IsPaid price payment native gas_used =
    elim (Bool-cases (less (times payment price) (times (number_of_ℕ gas_used) price))) [
      | inl e ↦ rw e refl
      | inr e ↦ rw e refl
    ]

module _ (b : Backend)
    (ends : (s : State b) → (get_gas_price b GasPriceType.default s).0 ≢ waiting) where
  check_value-EndsIn :
      (value : Option String) (gas_used : ℕ) (refund_info : RefundInfo) (s : State b)
      → EndsIn IsPaid (check_value b value gas_used refund_info s).0
  unfolding check_value
  check_value-EndsIn none gas_used refund_info s = refl
  check_value-EndsIn (some value) gas_used refund_info s = elim (Bool-cases (str_eq value "")) [
    | inl e ↦ rw e refl
    | inr e ↦ rw e (
        bind-EndsIn IsPaid (get_gas_price b GasPriceType.default) _ s (ne_waiting-EndsIn _ (ends s))
          (λ price t. compare_refund-IsPaid _ _ _ gas_used))
  ]

  check_input-EndsIn :
      (input : Option LogInput) (gas_used : ℕ) (refund_info : RefundInfo) (s : State b)
      → EndsIn IsPaid (check_input b input gas_used refund_info s).0
  unfolding check_input
  check_input-EndsIn none gas_used refund_info s = refl
  check_input-EndsIn (some input) gas_used refund_info s =
      check_value-EndsIn input.value gas_used refund_info s

  check_log-EndsIn :
      (log : Option TransactionLog) (gas_used : ℕ) (refund_info : RefundInfo) (s : State b)
      → EndsIn IsPaid (check_log b log gas_used refund_info s).0
  unfolding check_log
  check_log-EndsIn none gas_used refund_info s = refl
  check_log-EndsIn (some log) gas_used refund_info s =
      or_throw-EndsIn IsPaid log.inputs _ _ s
        (λ inputs t. check_input-EndsIn (find_input "payment" inputs) gas_used refund_info t)

  check_if_relayer_is_paid_fully-IsPaid :
      (logs : Option (List TransactionLog)) (gas_used : ℕ) (refund_info : RefundInfo) (s : State b)
      → ReturnsIn IsPaid (check_if_relayer_is_paid_fully b logs gas_used refund_info s).0
  unfolding check_if_relayer_is_paid_fully
  check_if_relayer_is_paid_fully-IsPaid logs gas_used refund_info s =
      try-ReturnsIn IsPaid _ _ s
        (or_throw-EndsIn IsPaid logs _ _ s
          (λ ls t. check_log-EndsIn (find_log "WalletHandlePayment" ls) gas_used refund_info t))
        (λ e t. refl)

  module _ (sim : Simulators) where
    abbrev Follows : Bool → SimulationResponse → Type 0
    Follows status r = r.is_simulation_successful ≡ status

    -- The part of the simulation after Tenderly's answer.
    with_status-Follows :
        (status : Bool) (transaction : TenderlyTransaction) (trace : CallTrace)
        (refund_info : RefundInfo) (s : SimulationState b sim.World)
        → transaction.call_trace ≡ some trace
        → ReturnsIn (Follows status) (with_status b sim status transaction refund_info s).0
    unfolding or_throw
    with_status-Follows false transaction trace refund_info s h = refl
    with_status-Follows true transaction trace refund_info s h = rw h (
        bind-ReturnsIn (λ t. t ≡ trace) (Follows true) _ _ s refl
          (λ t u e.
            bind-ReturnsIn IsPaid (Follows true) _ _ u
              (check_if_relayer_is_paid_fully-IsPaid t.logs (t.gas_used + t.intrinsic_gas)
                refund_info u.backend)
              (λ payment v paid. rw paid refl)))

    -- If the gas price can always be had or fails: once Tenderly has answered with a transaction and its
    -- call trace, the simulation returns, and it is successful exactly if the transaction is. What the
    -- transaction pays to the relayer, and the token and price of the refund, play no part.
    pub simulate_scw-follows_status :
        (d : ScwSimulationData) (s : SimulationState b sim.World) {gas_price : String}
        {transaction : TenderlyTransaction} {trace : CallTrace}
        → (get_gas_price_for_simulation b GasPriceType.default s.backend).0 ≡ returned gas_price
        → (sim.post
            (simulate_url b sim)
            sim.tenderly_access_key
            (tenderly_body d gas_price)
            s.simulators).0
          ≡ returned (some transaction)
        → transaction.call_trace ≡ some trace
        → (r : SimulationResponse) × ((simulate_scw b sim d s).0 ≡ returned r)
          × (r.is_simulation_successful ≡ transaction.status)
    unfolding simulate_scw post_simulation ◌>>=◌ try_catch
    simulate_scw-follows_status d s {transaction} {trace} priced posted traced =
        rw (priced, posted)
          (ReturnsIn-value (Follows transaction.status) _
            (with_status-Follows transaction.status transaction trace d.refund_info _ traced))
