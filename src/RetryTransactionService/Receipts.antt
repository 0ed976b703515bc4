-- ===== src/RetryTransactionService/Receipts.antt =====
-- When the retry service sends a transaction again.
use relayer_node.Base.{◌≡◌, refl, Option, none, some}
use relayer_node.Js.Dict.{Dict, lookup}
use relayer_node.Exec.{returned, ◌>>=◌, or_throw, detach}
use relayer_node.Types.{Fetched, fetched, TransactionReceipt, RetryTransactionQueueData}
use relayer_node.RelayerManager.State.{RelayerManager}
use relayer_node.Backend.{Backend, State}
use relayer_node.TransactionService.{ServiceResponse}
use relayer_node.TransactionService.Resubmit.{retry_transaction}
use relayer_node.RetryTransactionService.{
  account_for, has_receipt, retry_unless, retry_on_message_received,
}

module _ (b : Backend) (managers : Dict RelayerManager) where
  -- The state when the message has been acknowledged and the receipt asked for.
  abbrev pub asked : RetryTransactionQueueData → b.network.Net → State b → State b
  asked d network s = record s {
    retry_transaction_queue = (b.retry_transaction_queue.ack d s.retry_transaction_queue).1;
    network = network;
  }

  receipt_lem :
      (d : RetryTransactionQueueData) (m : RelayerManager)
      (receipt : Fetched (Option TransactionReceipt)) (network : b.network.Net) (s : State b)
      → lookup d.relayer_manager_name managers ≡ some m
      → b.network.fetch_transaction_receipt d.transaction_hash s.network
        ≡ (returned receipt, network)
      → retry_on_message_received b managers (some d) s
        ≡ retry_unless b managers
            (has_receipt receipt)
            d
            (account_for d.transaction_type d.relayer_address m)
            (asked d network s)
  unfolding retry_on_message_received detach or_throw ◌>>=◌
  receipt_lem d m receipt network s known come = rw (known, come) refl

  -- Where there is no receipt yet, the transaction is sent again with the owner's account, if it
  -- funds a relayer, and otherwise with the account that the manager has for the relayer.
  retry_on_message_received-of_none :
      (d : RetryTransactionQueueData) (m : RelayerManager) (response : ServiceResponse)
      (network : b.network.Net) (s t : State b)
      → lookup d.relayer_manager_name managers ≡ some m
      → b.network.fetch_transaction_receipt d.transaction_hash s.network
        ≡ (returned (fetched none), network)
      → retry_transaction b d
          (account_for d.transaction_type d.relayer_address m)
          d.transaction_type
          (asked d network s)
        ≡ (returned response, t)
      → retry_on_message_received b managers (some d) s ≡ (returned tt, t)
  unfolding ◌>>=◌
  retry_on_message_received-of_none d m response network s t known come again =
      rw (receipt_lem d m (fetched none) network s known come, again) refl
