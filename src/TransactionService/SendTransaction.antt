-- ===== src/TransactionService/SendTransaction.antt =====
-- sendTransaction of EVMTransactionService.
use relayer_node.Base.{String, Bool, true, false, none, some}
use relayer_node.Js.Text.{parse_int}
use relayer_node.Exec.{Exec, ◌>>=◌, ◌>>◌, pure, throw, try_catch, type_error}
use relayer_node.Types.{TransactionType, EvmRawTransaction, Account}
use relayer_node.Backend.{
  NotifyParams, Backend, State, on_cache, on_slack, get_retry_transaction_count_key,
}
use relayer_node.Notification.{get_max_retry_count_notification_message}
use relayer_node.NonceManager.{increment_nonce}
use relayer_node.TransactionListener.{notify}
use relayer_node.TransactionService.{
  ExecuteResponse, ServiceResponse, TransactionDataType, create_transaction, exception,
  execute_transaction, executed, failed, is_more, not_executed, success, text,
}

module _ (b : Backend) where
  unfoldable pub send_max_retry_count_exceeded_slack_notification :
      String → Account → TransactionType → Exec (State b) (Unit {0})
  send_max_retry_count_exceeded_slack_notification transaction_id account transaction_type =
      on_slack (
        b.send_slack_notification (
          get_max_retry_count_notification_message transaction_id account transaction_type
            b.chain_id))

  abbrev pub notify_params :
      TransactionDataType → Account → TransactionType → String → EvmRawTransaction → NotifyParams
  notify_params transaction_data account transaction_type relayer_manager_name raw_transaction =
      record {
        transaction_execution_response = none;
        transaction_id = transaction_data.transaction_id;
        relayer_address = account.public_key;
        transaction_type = transaction_type;
        previous_transaction_hash = none;
        raw_transaction = raw_transaction;
        wallet_address = transaction_data.wallet_address;
        meta_data = transaction_data.meta_data;
        relayer_manager_name = relayer_manager_name;
        error = none;
      }

  -- What follows the execution of a new transaction.
  abbrev pub after_execution : NotifyParams → ExecuteResponse → Exec (State b) ServiceResponse
  after_execution params (not_executed error) = do
    notify b (record params { error = some error })
    throw (type_error "Error in transaction execution")
  after_execution params (executed response) = do
    increment_nonce b params.relayer_address
    notified ← notify b (record params { transaction_execution_response = some response })
    pure (success 200 params.transaction_id notified)

  unfoldable pub send_new :
      TransactionDataType → Account → TransactionType → String → Exec (State b) ServiceResponse
  send_new transaction_data account transaction_type relayer_manager_name = do
    raw_transaction ← create_transaction b transaction_data account
    try_catch
        (do
          r ← execute_transaction b raw_transaction (some account)
          after_execution
              (notify_params transaction_data account transaction_type relayer_manager_name r.1)
              r.0)
        (λ e. pure (failed 500 (exception e) transaction_data.transaction_id))

  unfoldable pub refuse : String → Account → TransactionType → Exec (State b) ServiceResponse
  refuse transaction_id account transaction_type = do
    try_catch
        (send_max_retry_count_exceeded_slack_notification transaction_id account transaction_type)
        (λ _. pure tt)
    pure (
        failed 404 (text "Max retry count exceeded. Use end point to get transaction status")
          transaction_id)

  abbrev pub send_unless :
      Bool
      → TransactionDataType
      → Account
      → TransactionType
      → String
      → Exec (State b) ServiceResponse
  send_unless true transaction_data account transaction_type relayer_manager_name =
      refuse transaction_data.transaction_id account transaction_type
  send_unless false transaction_data account transaction_type relayer_manager_name =
      send_new transaction_data account transaction_type relayer_manager_name

  unfoldable pub send_transaction :
      TransactionDataType → Account → TransactionType → String → Exec (State b) ServiceResponse
  send_transaction transaction_data account transaction_type relayer_manager_name = do
    count ←
        on_cache
          (b.cache.get (get_retry_transaction_count_key transaction_data.transaction_id b.chain_id))
    send_unless (is_more (parse_int count) (b.max_retry_count transaction_type)) transaction_data
        account transaction_type relayer_manager_name
