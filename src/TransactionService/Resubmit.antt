-- ===== src/TransactionService/Resubmit.antt =====
-- retryTransaction of EVMTransactionService: a transaction is sent again with a higher gas price.
use mathlib.Core.Option
use relayer_node.Base.{String, Option, none, some}
use relayer_node.Exec.{Exec, ◌>>=◌, ◌>>◌, pure, try_catch, or_throw}
use relayer_node.Types.{
  TransactionType, NetworkBasedGasPrice, legacy, EvmRawTransaction, Account,
  RetryTransactionQueueData,
}
use relayer_node.Backend.{Backend, State, on_cache, get_retry_transaction_count_key}
use relayer_node.GasPrice.Bumping.{get_bumped_up_gas_price}
use relayer_node.TransactionListener.{notify}
use relayer_node.TransactionService.{
  ExecuteResponse, executed, not_executed, exception, execution_error, ServiceResponse, success,
  failed, execute_transaction,
}

module _ (b : Backend) where
  abbrev pub public_key_of : Option Account → Option String
  public_key_of none = none
  public_key_of (some account) = some account.public_key

  -- What follows the execution of a transaction that is sent again.
  abbrev pub after_retry :
      RetryTransactionQueueData
      → Option Account
      → TransactionType
      → ExecuteResponse × EvmRawTransaction
      → Exec (State b) ServiceResponse
  after_retry d account transaction_type (not_executed error, raw_transaction) =
      pure (failed 500 (execution_error error) d.transaction_id)
  after_retry d account transaction_type (executed response, raw_transaction) = do
    relayer_address ←
        or_throw (public_key_of account)
          "Cannot read properties of undefined (reading 'getPublicKey')"
    notified ← notify b (record {
      transaction_execution_response = some response;
      transaction_id = d.transaction_id;
      relayer_address = relayer_address;
      transaction_type = transaction_type;
      previous_transaction_hash = some d.transaction_hash;
      raw_transaction = raw_transaction;
      wallet_address = d.wallet_address;
      meta_data = d.meta_data;
      relayer_manager_name = d.relayer_manager_name;
      error = none;
    })
    pure (success 200 d.transaction_id notified)

  -- rawTransaction.gasPrice as string
  abbrev pub past_price : EvmRawTransaction → Option NetworkBasedGasPrice
  past_price raw_transaction = Option.map legacy raw_transaction.gas_price

  unfoldable pub retry_transaction :
      RetryTransactionQueueData → Option Account → TransactionType → Exec (State b) ServiceResponse
  retry_transaction d account transaction_type =
      try_catch
        (do
          on_cache
              (b.cache.increment (get_retry_transaction_count_key d.transaction_id b.chain_id) 1)
          bumped_up_gas_price ←
              get_bumped_up_gas_price b (past_price d.raw_transaction) b.bump_gas_price_multiplier
          r ←
              execute_transaction b
                (record d.raw_transaction { gas_price = some bumped_up_gas_price }) account
          after_retry d account transaction_type r)
        (λ e. pure (failed 500 (exception e) d.transaction_id))
