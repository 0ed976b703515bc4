-- ===== src/TransactionListener.antt =====
-- relayer/src/services/transaction-listener/EVMTransactionListener.ts: what is told to the clients,
-- the retry service and the database about a transaction that was sent. The database writes of
-- `notify` are not awaited: they begin before the messages are published, and their errors reach
-- nobody. The wait for the receipt is not awaited either: it stands in `waiting_for`, and
-- `wait_for_transaction` is the step that ends it.
pub mod Notify
pub mod Mined
use relayer_node.Base.{
  ℕ, zero, suc, String, Bool, true, false, Option, none, some, List, [], ◌∷◌, ◌++◌, ◌==◌,
  if◌then◌else◌,
}
use relayer_node.Exec.{
  JsError, Exec, returned, ◌>>=◌, ◌>>◌, pure, gets, modify, detach, throw, type_error,
}
use relayer_node.Types.{
  TransactionType, SocketEventType, TransactionStatus, Fetched, fetched, failed_with,
  TransactionResponse, TransactionReceipt, TransactionQueueMessage, RetryTransactionQueueData,
}
use relayer_node.TransactionDao.{
  TransactionData, no_data, dao_save, update_by_transaction_id,
  update_by_transaction_id_and_transaction_hash,
}
use relayer_node.Backend.{
  NotifyParams, Backend, State, on_cache, on_network, on_transaction_queue, on_retry_queue,
  on_database, get_retry_transaction_count_key,
}

-- TransactionListenerNotifyReturnType
pub record NotifyResponse : Type 0 where
  pub is_transaction_relayed : Bool
  pub transaction_execution_response : Option TransactionResponse

-- The message that tells of an event of a transaction that has a response.
abbrev pub event_message :
    NotifyParams → TransactionResponse → SocketEventType → TransactionQueueMessage
event_message params response event = record {
  transaction_id = params.transaction_id;
  event = event;
  relayer_manager_name = params.relayer_manager_name;
  transaction_hash = some response.hash;
  receipt = some response;
  error = none;
}

abbrev pub error_message : NotifyParams → TransactionQueueMessage
error_message params = record {
  transaction_id = params.transaction_id;
  event = SocketEventType.on_transaction_error;
  relayer_manager_name = params.relayer_manager_name;
  transaction_hash = none;
  receipt = none;
  error = params.error;
}

abbrev pub retry_message : NotifyParams → TransactionResponse → RetryTransactionQueueData
retry_message params response = record {
  relayer_address = params.relayer_address;
  transaction_type = params.transaction_type;
  transaction_hash = response.hash;
  transaction_id = params.transaction_id;
  raw_transaction = params.raw_transaction;
  wallet_address = params.wallet_address;
  meta_data = params.meta_data;
  relayer_manager_name = params.relayer_manager_name;
  event = SocketEventType.on_transaction_hash_generated;
}

-- previousTransactionHash ? onTransactionHashChanged : onTransactionHashGenerated
abbrev pub hash_event : Option String → SocketEventType
hash_event none = SocketEventType.on_transaction_hash_generated
hash_event (some _) = SocketEventType.on_transaction_hash_changed

-- The writes to the database: of a first transaction, of one that is replaced, of its successor.
abbrev pub pending_update : NotifyParams → TransactionResponse → ℕ → TransactionData
pending_update params response now = record no_data {
  transaction_hash = some response.hash;
  raw_transaction = some response;
  relayer_address = some params.relayer_address;
  gas_price = response.gas_price;
  status = some TransactionStatus.pending;
  updation_time = some now;
}

abbrev pub dropped_update : ℕ → TransactionData
dropped_update now = record no_data {
  resubmitted = some true;
  status = some TransactionStatus.dropped;
  updation_time = some now;
}

abbrev pub new_row : ℕ → NotifyParams → TransactionResponse → String → ℕ → TransactionData
new_row chain_id params response previous_transaction_hash now = record {
  transaction_id = some params.transaction_id;
  transaction_type = some params.transaction_type;
  transaction_hash = some response.hash;
  previous_transaction_hash = some previous_transaction_hash;
  status = some TransactionStatus.pending;
  raw_transaction = some response;
  chain_id = some chain_id;
  gas_price = response.gas_price;
  receipt = none;
  relayer_address = some params.relayer_address;
  wallet_address = some params.wallet_address;
  meta_data = params.meta_data;
  resubmitted = some false;
  creation_time = some now;
  updation_time = some now;
}

abbrev pub mined_update : TransactionReceipt → TransactionStatus → ℕ → TransactionData
mined_update receipt status now = record no_data {
  receipt = some receipt;
  status = some status;
  updation_time = some now;
}

module _ (b : Backend) where
  unfoldable pub publish_to_transaction_queue : TransactionQueueMessage → Exec (State b) Bool
  publish_to_transaction_queue data_ = do
    on_transaction_queue (b.transaction_queue.publish data_)
    pure true

  unfoldable pub publish_to_retry_transaction_queue :
      RetryTransactionQueueData → Exec (State b) Bool
  publish_to_retry_transaction_queue data_ = do
    on_retry_queue (b.retry_transaction_queue.publish data_)
    pure true

  -- onTransactionSuccess and onTransactionFailure, which differ in the status. A response and a
  -- receipt are there: the caller has seen them.
  unfoldable pub on_mined :
      TransactionStatus
      → NotifyParams
      → TransactionResponse
      → TransactionReceipt
      → Exec (State b) (Unit {0})
  on_mined status params response receipt = do
    publish_to_transaction_queue
        (event_message params response SocketEventType.on_transaction_mined)
    now ← gets (λ s. s.now)
    on_database (
        update_by_transaction_id_and_transaction_hash b.collection params.transaction_id
          response.hash (mined_update receipt status now))

  unfoldable pub on_transaction_success :
      NotifyParams → TransactionResponse → TransactionReceipt → Exec (State b) (Unit {0})
  on_transaction_success = on_mined TransactionStatus.success

  unfoldable pub on_transaction_failure :
      NotifyParams → TransactionResponse → TransactionReceipt → Exec (State b) (Unit {0})
  on_transaction_failure = on_mined TransactionStatus.failed

  -- The tests of transactionReceipt.status; an Error object has no status.
  abbrev pub by_status :
      NotifyParams
      → TransactionResponse
      → Fetched TransactionReceipt
      → Option ℕ
      → Exec (State b) (Unit {0})
  by_status params response (fetched receipt) (some (suc zero)) =
      detach (on_transaction_success params response receipt)
  by_status params response (fetched receipt) (some zero) =
      detach (on_transaction_failure params response receipt)
  by_status params response _ _ = pure tt

  abbrev pub status_of : Fetched TransactionReceipt → Option ℕ
  status_of (fetched receipt) = receipt.status
  status_of (failed_with e) = none

  abbrev pub wait_for_response :
      NotifyParams → Option TransactionResponse → Exec (State b) (Unit {0})
  wait_for_response params none = pure tt
  wait_for_response params (some response) = do
    receipt ← on_network (b.network.await_transaction response.hash)
    on_cache (b.cache.delete (get_retry_transaction_count_key params.transaction_id b.chain_id))
    by_status params response receipt (status_of receipt)

  unfoldable pub wait_for_transaction : NotifyParams → Exec (State b) (Unit {0})
  wait_for_transaction params = wait_for_response params params.transaction_execution_response

  -- The writes to the database that `notify` begins.
  abbrev pub record_transaction :
      NotifyParams → TransactionResponse → ℕ → Option String → Exec (State b) (Unit {0})
  record_transaction params response now none = detach (
      on_database (
        update_by_transaction_id b.collection params.transaction_id
          (pending_update params response now)))
  record_transaction params response now (some previous_transaction_hash) = do
    detach (
        on_database (
          update_by_transaction_id_and_transaction_hash b.collection params.transaction_id
            previous_transaction_hash (dropped_update now)))
    detach (
        on_database (
          dao_save b.collection (new_row b.chain_id params response previous_transaction_hash now)))

  -- this.waitForTransaction(params), not awaited
  abbrev pub start_waiting : NotifyParams → Exec (State b) (Unit {0})
  start_waiting params = modify (λ s. record s { waiting_for = s.waiting_for ++ params ∷ [] })

  abbrev pub notify_of : NotifyParams → Option TransactionResponse → Exec (State b) NotifyResponse
  notify_of params none = do
    publish_to_transaction_queue (error_message params)
    pure (record { is_transaction_relayed = false; transaction_execution_response = none })
  notify_of params (some response) = do
    now ← gets (λ s. s.now)
    record_transaction params response now params.previous_transaction_hash
    publish_to_transaction_queue
        (event_message params response (hash_event params.previous_transaction_hash))
    publish_to_retry_transaction_queue (retry_message params response)
    start_waiting params
    pure (record { is_transaction_relayed = true; transaction_execution_response = some response })

  unfoldable pub notify : NotifyParams → Exec (State b) NotifyResponse
  notify params = notify_of params params.transaction_execution_response
