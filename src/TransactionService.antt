-- ===== src/TransactionService.antt =====
-- relayer/src/services/transaction-service/EVMTransactionService.ts: transactions are built, sent,
-- and sent again. The raw transaction is an object that a failed execution may change; the changed
-- one is returned beside the response.
pub mod SendTransaction
pub mod Execute
pub mod Send
pub mod Resubmit
pub mod Retry
pub mod Keeps
pub mod Outcome
use mathlib.Core.Option
use relayer_node.Base.{
  ℕ, suc, ◌*◌, String, Bool, true, false, not, ◌||◌, Option, none, some, List, [], ◌∷◌, ltb, str_eq,
  ℤ, pos, ltb_ℤ, if◌then◌else◌,
}
use relayer_node.Js.Text.{includes, parse_int, ◌&◌, to_string}
use relayer_node.Js.Number.{round_to_double, integer_of_text}
use relayer_node.Exec.{
  JsError, Exec, Result, returned, ◌>>=◌, ◌>>◌, pure, gets, throw, try_catch, type_error, or_throw,
}
use relayer_node.Types.{
  TransactionType, GasPriceType, NetworkBasedGasPrice, legacy, eip1559, Fetched, fetched,
  failed_with, EvmRawTransaction, Account, TransactionResponse, RetryTransactionQueueData,
}
use relayer_node.Backend.{
  NotifyParams, Backend, State, on_cache, on_network, on_slack, get_retry_transaction_count_key,
}
use relayer_node.Notification.{get_max_retry_count_notification_message}
use relayer_node.NonceManager.{get_nonce, increment_nonce}
use relayer_node.GasPrice.{get_gas_price}
use relayer_node.GasPrice.Bumping.{get_bumped_up_gas_price}
use relayer_node.TransactionListener.{NotifyResponse, notify}

-- TransactionDataType
pub record TransactionDataType : Type 0 where
  pub to : String
  pub value : String
  pub call_data : String
  pub gas_limit : String
  pub speed : Option GasPriceType
  pub wallet_address : String
  pub transaction_id : String
  pub meta_data : Option String

-- ExecuteTransactionResponseType
pub data ExecuteResponse : Type 0 where
  executed : TransactionResponse → ExecuteResponse
  not_executed : (error : String) → ExecuteResponse

-- The field `error` of a response, before it is printed as JSON: a text of the service, the
-- exception that was caught, or the error of an execution.
pub data ErrorField : Type 0 where
  text : String → ErrorField
  exception : JsError → ErrorField
  execution_error : String → ErrorField

-- SuccessTransactionResponseType and ErrorTransactionResponseType
pub data ServiceResponse : Type 0 where
  success : (code : ℕ) (transaction_id : String) (notified : NotifyResponse) → ServiceResponse
  failed : (code : ℕ) (error : ErrorField) (transaction_id : String) → ServiceResponse

-- parseError of an Error object
unfoldable pub parse_error : JsError → String
parse_error error = if str_eq error.message "" then "Unable to parse error" else error.message

-- s.indexOf(undefined) looks for the text 'undefined'.
abbrev pub text_or_undefined : Option String → String
text_or_undefined none = "undefined"
text_or_undefined (some message) = message

-- speed: a parameter that is undefined takes its default.
abbrev pub speed_of : Option GasPriceType → GasPriceType
speed_of none = GasPriceType.default
speed_of (some speed) = speed

-- retryTransactionCount > maxRetryCount: NaN and undefined compare false.
abbrev pub is_more : Option ℤ → Option ℕ → Bool
is_more (some count) (some maximum) = not (ltb_ℤ count (suc maximum))
is_more _ _ = false

module _ (b : Backend) where
  -- ethers.utils.hexlify(Number(price))
  abbrev pub number_of_price : String → Option ℕ
  number_of_price price = Option.map round_to_double (integer_of_text price)

  abbrev pub hexlify_number : Option ℕ → Option String
  hexlify_number none = none
  hexlify_number (some n) = b.hexlify n

  unfoldable pub hexlify_price : String → Exec (State b) String
  hexlify_price price = or_throw (hexlify_number (number_of_price price)) "invalid hexlify value"

  abbrev pub with_price :
      EvmRawTransaction → NetworkBasedGasPrice → Exec (State b) EvmRawTransaction
  with_price response (legacy price) = do
    gas_price ← hexlify_price price
    pure (record response { gas_price = some gas_price })
  with_price response (eip1559 max_priority_fee_per_gas max_fee_per_gas) = do
    max_fee ← hexlify_price max_fee_per_gas
    max_priority_fee ← hexlify_price max_priority_fee_per_gas
    pure (record response {
      max_fee_per_gas = some max_fee;
      max_priority_fee_per_gas = some max_priority_fee;
    })

  unfoldable pub create_transaction :
      TransactionDataType → Account → Exec (State b) EvmRawTransaction
  create_transaction transaction_data account = do
    let relayer_address = account.public_key
    nonce ← get_nonce b relayer_address false
    price ← get_gas_price b (speed_of transaction_data.speed)
    with_price
        (record {
          from = relayer_address;
          gas_price = none;
          max_priority_fee_per_gas = none;
          max_fee_per_gas = none;
          gas_limit = transaction_data.gas_limit;
          to = transaction_data.to;
          value = transaction_data.value;
          call_data = transaction_data.call_data;
          chain_id = b.chain_id;
          nonce = nonce;
          access_list = none;
          type = none;
        })
        price

  abbrev pub execute_response : Fetched TransactionResponse → ExecuteResponse
  execute_response (fetched response) = executed response
  execute_response (failed_with e) = not_executed (parse_error e)

  -- The nonce error's branch: the nonce is taken from the network.
  unfoldable pub renew_nonce :
      EvmRawTransaction → String → Exec (State b) (ExecuteResponse × EvmRawTransaction)
  renew_nonce raw_transaction error = do
    nonce ← on_network (b.network.fetch_nonce raw_transaction.from true)
    pure (not_executed error, record raw_transaction { nonce = nonce })

  -- The underpriced replacement's branch: the network's price times the multiplier, which is read
  -- as a percentage elsewhere. A multiplier that is undefined gives NaN.
  abbrev pub multiplied : Option ℕ → ℕ → String
  multiplied none price = "NaN"
  multiplied (some multiplier) price =
      to_string (round_to_double (multiplier * round_to_double price))

  unfoldable pub raise_price :
      EvmRawTransaction → String → Exec (State b) (ExecuteResponse × EvmRawTransaction)
  raise_price raw_transaction error = do
    gas_price ← on_network b.network.fetch_gas_price
    gas_price_in_number ← or_throw (b.big_number_from gas_price) "invalid BigNumber string"
    pure (
      not_executed error,
      record raw_transaction {
        gas_price = some (multiplied b.bump_gas_price_multiplier gas_price_in_number);
      },
    )

  -- The catch branch of executeTransaction
  unfoldable pub on_execution_error :
      EvmRawTransaction → JsError → Exec (State b) (ExecuteResponse × EvmRawTransaction)
  on_execution_error raw_transaction e =
      let error = parse_error e in
      if includes (text_or_undefined b.nonce_error) error
        || includes "increasing the gas price or incrementing the nonce" error
      then renew_nonce raw_transaction error
      else if includes b.replacement_underpriced error
      then raise_price raw_transaction error
      else if includes b.already_known error || includes b.insufficient_funds error
      then pure (not_executed error, raw_transaction)
      else pure (not_executed "transaction not being retried", raw_transaction)

  unfoldable pub execute_transaction :
      EvmRawTransaction → Option Account → Exec (State b) (ExecuteResponse × EvmRawTransaction)
  execute_transaction raw_transaction account =
      try_catch
        (do
          response ← on_network (b.network.submit raw_transaction account)
          pure (execute_response response, raw_transaction))
        (on_execution_error raw_transaction)
