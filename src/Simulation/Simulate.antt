-- ===== src/Simulation/Simulate.antt =====
-- TenderlySimulationService.simulate, SCWSimulationService.simulate and AASimulationService.simulate.
use relayer_node.Base.{ℕ, ◌+◌, String, Bool, true, false, Option, none, some, if◌then◌else◌}
use relayer_node.Js.Text.{◌&◌, to_string}
use relayer_node.Exec.{JsError, Exec, ◌>>=◌, ◌>>◌, pure, try_catch, or_throw}
use relayer_node.Types.{GasPriceType}
use relayer_node.Backend.{Backend, State, on_network}
use relayer_node.GasPrice.{get_gas_price_for_simulation}
use relayer_node.Consumers.{UserOperation}
use relayer_node.Simulation.{
  ScwSimulationData, RefundInfo, TenderlyBody, TenderlyTransaction, Simulators, SimulationMessage,
  text, error_in_tenderly, error_message, payment_is_incorrect, validation_error,
  SimulationResponse, SimulationState, Payment, check_if_relayer_is_paid_fully,
}

abbrev pub rejected : SimulationMessage → SimulationResponse
rejected message = record {
  is_simulation_successful = false;
  gas_limit_from_simulation = 0;
  msg_from_simulation = message;
}

abbrev pub accepted : ℕ → String → SimulationResponse
accepted gas_limit message = record {
  is_simulation_successful = true;
  gas_limit_from_simulation = gas_limit;
  msg_from_simulation = text message;
}

abbrev pub tenderly_body : ScwSimulationData → String → TenderlyBody
tenderly_body d gas_price_for_simulation = record {
  network_id = to_string d.chain_id;
  from = "0x040a9cbC4453B0eeaE12f3210117B422B890C1ED";
  input = d.call_data;
  gas = 8000000;
  gas_price = gas_price_for_simulation;
  value = "0";
  to = d.to;
  save = true;
}

-- Whether the request failed, and how.
pub data Posted : Type 0 where
  answered : Option TenderlyTransaction → Posted
  not_answered : JsError → Posted

module _ (b : Backend) (sim : Simulators) where
  open sim use {World}

  abbrev pub on_simulators {ℓ} : {A : Type ℓ} → Exec World A → Exec (SimulationState b World) A
  on_simulators m s = let (r, w) = m s.simulators in (r, record s { simulators = w })

  abbrev pub on_backend {ℓ} : {A : Type ℓ} → Exec (State b) A → Exec (SimulationState b World) A
  on_backend m s = let (r, t) = m s.backend in (r, record s { backend = t })

  abbrev pub simulate_url : String
  simulate_url =
      "https://api.tenderly.co/api/v1/account/" & sim.tenderly_user & "/project/"
      & sim.tenderly_project & "/simulate"

  -- try { response = await tAxios.post(…) } catch
  unfoldable pub post_simulation : TenderlyBody → Exec (SimulationState b World) Posted
  post_simulation body =
      try_catch
        (do
          response ← on_simulators (sim.post simulate_url sim.tenderly_access_key body)
          pure (answered response))
        (λ error. pure (not_answered error))

  abbrev pub after_payment : ℕ → Payment → SimulationResponse
  after_payment gas_used payment =
      if payment.is_relayer_paid_fully
      then accepted gas_used "Fee options fetched successfully"
      else rejected (payment_is_incorrect payment.success_or_revert_msg)

  abbrev pub with_status :
      Bool → TenderlyTransaction → RefundInfo → Exec (SimulationState b World) SimulationResponse
  with_status false transaction refund_info =
      pure (rejected (error_message transaction.error_message))
  with_status true transaction refund_info = do
    trace ← or_throw transaction.call_trace "Cannot read properties of undefined (reading 'logs')"
    payment ← on_backend (
        check_if_relayer_is_paid_fully b trace.logs (trace.gas_used + trace.intrinsic_gas)
          refund_info)
    pure (after_payment transaction.gas_used payment)

  abbrev pub after_post : Posted → RefundInfo → Exec (SimulationState b World) SimulationResponse
  after_post (not_answered error) refund_info = pure (rejected (error_in_tenderly error))
  after_post (answered none) refund_info = pure (rejected (error_message none))
  after_post (answered (some transaction)) refund_info =
      with_status transaction.status transaction refund_info

  -- TenderlySimulationService.simulate, and SCWSimulationService.simulate, which returns its answer
  unfoldable pub simulate_scw :
      ScwSimulationData → Exec (SimulationState b World) SimulationResponse
  simulate_scw d = do
    gas_price ← on_backend (get_gas_price_for_simulation b GasPriceType.default)
    posted ← post_simulation (tenderly_body d gas_price)
    after_post posted d.refund_info

  -- The call of simulateValidation, and whether it reverts.
  unfoldable pub validate_user_op :
      String → Option UserOperation → Exec (SimulationState b World) (Option JsError)
  validate_user_op contract user_op =
      try_catch (do on_simulators (sim.simulate_validation contract user_op); pure none)
        (λ error. pure (some error))

  abbrev pub after_validation :
      Option JsError
      → String
      → Option UserOperation
      → Exec (SimulationState b World) SimulationResponse
  after_validation (some error) contract user_op = pure (rejected (validation_error error))
  after_validation none contract user_op = do
    call_data ← or_throw (sim.encode_handle_ops user_op sim.refund_receiver) "invalid arguments"
    on_backend (on_network (b.network.fetch_gas_estimate sim.zero_address contract call_data))
    pure (accepted 1000000 "Success")

  -- AASimulationService.simulate: the gas is estimated, and the estimate is not used.
  unfoldable pub simulate_aa :
      String → Option UserOperation → Exec (SimulationState b World) SimulationResponse
  simulate_aa contract user_op = do
    error ← validate_user_op contract user_op
    after_validation error contract user_op
