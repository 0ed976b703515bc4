-- ===== src/RetryTransactionService.antt =====
-- relayer/src/services/retry-transaction-service/EVMRetryTransactionService.ts: a message of the
-- retry queue comes back after the chain's retry interval. Messages are taken as they were
-- published, parsed.
pub mod Receipts
use relayer_node.Base.{ℕ, String, Bool, true, false, Option, none, some, List}
use relayer_node.Js.Dict.{Dict, lookup}
use relayer_node.Exec.{
  JsError, Exec, Result, returned, ◌>>=◌, ◌>>◌, pure, throw, type_error, or_throw, detach,
}
use relayer_node.Types.{
  TransactionType, funding, Fetched, fetched, failed_with, Account, TransactionReceipt,
  RetryTransactionQueueData,
}
use relayer_node.RelayerManager.State.{RelayerManager}
use relayer_node.Backend.{Backend, State, on_network, on_retry_queue}
use relayer_node.TransactionService.{ServiceResponse}
use relayer_node.TransactionService.Resubmit.{retry_transaction}

-- The owner's account for the funding of a relayer; otherwise the relayer's, if there is one.
abbrev pub account_for : TransactionType → String → RelayerManager → Option Account
account_for TransactionType.funding relayer_address m = some m.owner_account_details
account_for _ relayer_address m = lookup relayer_address m.relayer_map

-- if (transactionReceipt): null is no receipt; an Error object passes for one.
abbrev pub has_receipt : Fetched (Option TransactionReceipt) → Bool
has_receipt (fetched none) = false
has_receipt (fetched (some receipt)) = true
has_receipt (failed_with e) = true

-- The managers of the service's chain by their names: EVMRelayerManagerMap[name][chainId].
module _ (b : Backend) (managers : Dict RelayerManager) where
  abbrev pub retry_unless :
      Bool → RetryTransactionQueueData → Option Account → Exec (State b) (Unit {0})
  retry_unless true d account = pure tt
  retry_unless false d account = do retry_transaction b d account d.transaction_type; pure tt

  abbrev pub on_retry_message : Option RetryTransactionQueueData → Exec (State b) (Unit {0})
  on_retry_message none = pure tt
  on_retry_message (some d) = do
    detach (on_retry_queue (b.retry_transaction_queue.ack d))
    m ← or_throw (lookup d.relayer_manager_name managers) "Cannot read properties of undefined"
    receipt ← on_network (b.network.fetch_transaction_receipt d.transaction_hash)
    retry_unless (has_receipt receipt) d (account_for d.transaction_type d.relayer_address m)

  -- onMessageReceived
  unfoldable pub retry_on_message_received :
      Option RetryTransactionQueueData → Exec (State b) (Unit {0})
  retry_on_message_received = on_retry_message
