-- ===== src/Simulation.antt =====
-- common/simulation: whether a transaction is accepted before it is queued. The texts of the answers
-- are kept with their parts, before they are put together.
pub mod Simulate
pub mod Outcomes
pub mod Untouched
use relayer_node.Base.{
  ℕ, ◌+◌, String, Bool, true, false, not, Option, none, some, List, [], ◌∷◌, str_eq, if◌then◌else◌,
}
use relayer_node.Js.Text.{◌&◌, to_string, parse_int}
use relayer_node.Js.Number.{integer_of_text}
use relayer_node.Js.Signed.{Number, nan, number_of_int, number_of_natural, number_of_ℕ, times, less}
use relayer_node.Exec.{JsError, Exec, ◌>>=◌, ◌>>◌, pure, throw, try_catch, type_error, or_throw}
use relayer_node.Types.{GasPriceType, NetworkBasedGasPrice, legacy, eip1559}
use relayer_node.Backend.{Backend, State, on_network}
use relayer_node.GasPrice.{get_gas_price, get_gas_price_for_simulation}
use relayer_node.Consumers.{UserOperation}

pub record RefundInfo : Type 0 where
  pub token_gas_price : String
  pub gas_token : String

-- SCWSimulationDataType
pub record ScwSimulationData : Type 0 where
  pub chain_id : ℕ
  pub call_data : String
  pub to : String
  pub refund_info : RefundInfo

-- The body of the request to Tenderly.
pub record TenderlyBody : Type 0 where
  pub network_id : String
  pub from : String
  pub input : String
  pub gas : ℕ
  pub gas_price : String
  pub value : String
  pub to : String
  pub save : Bool

pub record LogInput : Type 0 where
  pub soltype_name : String
  pub value : Option String

pub record TransactionLog : Type 0 where
  pub name : String
  pub inputs : Option (List LogInput)

-- transaction.transaction_info.call_trace
pub record CallTrace : Type 0 where
  pub logs : Option (List TransactionLog)
  pub gas_used : ℕ
  pub intrinsic_gas : ℕ

-- response.data.transaction
pub record TenderlyTransaction : Type 0 where
  pub status : Bool
  pub error_message : Option String
  pub gas_used : ℕ
  pub call_trace : Option CallTrace

-- The API of Tenderly, and the contract of an entry point: `simulate_validation` reverts or not, and
-- `encode_handle_ops` is encodeFunctionData, where `none` throws. An operation may be undefined.
pub record Simulators : Type 1 where
  pub World : Type 0
  pub tenderly_user : String
  pub tenderly_project : String
  pub tenderly_access_key : String
  pub post : (url access_key : String) → TenderlyBody → Exec World (Option TenderlyTransaction)
  pub simulate_validation : (contract : String) → Option UserOperation → Exec World (Unit {0})
  pub encode_handle_ops : Option UserOperation → (refund_receiver : String) → Option String
  -- config.feeOption.refundReceiver of the chain, and config.zeroAddress
  pub refund_receiver : String
  pub zero_address : String

-- successOrRevertMsg
pub data PaymentMessage : Type 0 where
  no_event no_payment no_value : PaymentMessage
  insufficient : (refund_to_relayer consumed : Number) → PaymentMessage
  sufficient : (refund_to_relayer : Number) → PaymentMessage
  something_wrong : JsError → PaymentMessage

pub record Payment : Type 0 where
  pub is_relayer_paid_fully : Bool
  pub success_or_revert_msg : PaymentMessage

pub data SimulationMessage : Type 0 where
  text : String → SimulationMessage
  error_in_tenderly : JsError → SimulationMessage
  error_message : Option String → SimulationMessage
  payment_is_incorrect : PaymentMessage → SimulationMessage
  validation_error : JsError → SimulationMessage

-- SimulationResponseType and ExternalSimulationResponseType
pub record SimulationResponse : Type 0 where
  pub is_simulation_successful : Bool
  pub gas_limit_from_simulation : ℕ
  pub msg_from_simulation : SimulationMessage

pub record SimulationState (b : Backend) (W : Type 0) : Type 0 where
  pub backend : State b
  pub simulators : W

-- transactionLogs.find((log) => log.name === name)
find_log : String → List TransactionLog → Option TransactionLog
find_log name [] = none
find_log name (log ∷ logs) = if str_eq log.name name then some log else find_log name logs

-- inputs.find((input) => input.soltype.name === name)
find_input : String → List LogInput → Option LogInput
find_input name [] = none
find_input name (input ∷ inputs) =
    if str_eq input.soltype_name name then some input else find_input name inputs

-- parseInt(gasPrice as string, 10): the pair of fees is an object, whose text is no number.
abbrev native_token_gas_price_of : NetworkBasedGasPrice → Number
native_token_gas_price_of (legacy gas_price) = number_of_int (parse_int gas_price)
native_token_gas_price_of (eip1559 priority fee) = nan

abbrev paid : PaymentMessage → Payment
paid message = record { is_relayer_paid_fully = true; success_or_revert_msg = message }

-- The comparison of the refund with what the transaction consumes, at the price of a token.
compare_refund : (token_gas_price payment native_price : Number) (gas_used : ℕ) → Payment
compare_refund token_gas_price payment native_price gas_used =
    let refund_to_relayer = times payment token_gas_price in
    if less refund_to_relayer (times (number_of_ℕ gas_used) token_gas_price)
    then paid (insufficient refund_to_relayer (times (number_of_ℕ gas_used) native_price))
    else paid (sufficient refund_to_relayer)

abbrev native_token : String
native_token = "0x0000000000000000000000000000000000000000"

module _ (b : Backend) where
  check_value : Option String → ℕ → RefundInfo → Exec (State b) Payment
  unfolding compare_refund
  check_value none gas_used refund_info = pure (paid no_value)
  check_value (some payment_value) gas_used refund_info =
      if str_eq payment_value "" then pure (paid no_value) else do
        gas_price ← get_gas_price b GasPriceType.default
        let native_price = native_token_gas_price_of gas_price
        let erc20_price = number_of_int (parse_int refund_info.token_gas_price)
        let price = if str_eq refund_info.gas_token native_token then native_price else erc20_price
        pure (
            compare_refund price (number_of_natural (integer_of_text payment_value)) native_price
              gas_used)

  check_input : Option LogInput → ℕ → RefundInfo → Exec (State b) Payment
  unfolding check_value
  check_input none gas_used refund_info = pure (paid no_payment)
  check_input (some payment_event_data) gas_used refund_info =
      check_value payment_event_data.value gas_used refund_info

  check_log : Option TransactionLog → ℕ → RefundInfo → Exec (State b) Payment
  unfolding check_input find_input
  check_log none gas_used refund_info = pure (paid no_event)
  check_log (some log) gas_used refund_info = do
    inputs ← or_throw log.inputs "Cannot read properties of null (reading 'find')"
    check_input (find_input "payment" inputs) gas_used refund_info

  unfoldable pub check_if_relayer_is_paid_fully :
      Option (List TransactionLog) → (gas_used : ℕ) → RefundInfo → Exec (State b) Payment
  unfolding check_log find_log
  check_if_relayer_is_paid_fully transaction_logs gas_used refund_info =
      try_catch
        (do
          logs ← or_throw transaction_logs "Cannot read properties of null (reading 'find')"
          check_log (find_log "WalletHandlePayment" logs) gas_used refund_info)
        (λ error. pure (paid (something_wrong error)))
