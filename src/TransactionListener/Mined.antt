-- ===== src/TransactionListener/Mined.antt =====
-- What the wait for a receipt ends with.
use relayer_node.Base.{ℕ, String, ◌≡◌, refl, Bool, true, false, Option, none, some, [], ◌∷◌, ◌++◌}
use relayer_node.Exec.{returned, ◌>>=◌, detach}
use relayer_node.Types.{
  SocketEventType, TransactionStatus, TransactionResponse, TransactionReceipt, Fetched, fetched,
}
use relayer_node.TransactionDao.{
  CollectionLaws, update_first, update_by_transaction_id_and_transaction_hash,
}
use relayer_node.Cache.Laws.{CacheLaws, written}
use relayer_node.Backend.{NotifyParams, Backend, State, QueueLaws, get_retry_transaction_count_key}
use relayer_node.TransactionListener.{
  event_message, mined_update, publish_to_transaction_queue, on_mined, on_transaction_success,
  on_transaction_failure, by_status, status_of, wait_for_transaction,
}

-- The status of a receipt, and the one that is saved for it.
abbrev pub receipt_status : Bool → Option ℕ
receipt_status true = some 1
receipt_status false = some 0

abbrev pub saved_status : Bool → TransactionStatus
saved_status true = TransactionStatus.success
saved_status false = TransactionStatus.failed

module _ (b : Backend) (cache : CacheLaws b.cache) (events : QueueLaws b.transaction_queue)
    (table : CollectionLaws b.collection) where
  -- The event is published and the row of the id and hash is updated.
  abbrev IsMined :
      NotifyParams
      → TransactionResponse
      → TransactionReceipt
      → TransactionStatus
      → State b
      → State b
      → Type 0
  IsMined params response receipt status s t =
      (events.messages t.transaction_queue
        ≡ events.messages s.transaction_queue
          ++ event_message params response SocketEventType.on_transaction_mined ∷ [])
      × (table.rows t.database
          ≡ update_first
              (record {
                transaction_id = params.transaction_id;
                transaction_hash = some response.hash;
              })
              (mined_update receipt status s.now) (table.rows s.database))
      × (t.cache ≡ s.cache)
      × (t.retry_transaction_queue ≡ s.retry_transaction_queue)

  on_mined-IsMined :
      (status : TransactionStatus) (params : NotifyParams) (response : TransactionResponse)
      (receipt : TransactionReceipt) (s : State b)
      → IsMined params response receipt status s (on_mined b status params response receipt s).1
  unfolding on_mined publish_to_transaction_queue update_by_transaction_id_and_transaction_hash
      ◌>>=◌
  on_mined-IsMined status params response receipt s =
      let m = event_message params response SocketEventType.on_transaction_mined in
      let (o, e) = (events.publish-messages m s.transaction_queue).0 in
      rw e (
        (events.publish-messages m s.transaction_queue).1,
        (table.update_one-rows _ _ s.database).1,
        refl,
        refl,
      )

  by_status-IsMined :
      (ok : Bool) (params : NotifyParams) (response : TransactionResponse)
      (receipt : TransactionReceipt) (status : Option ℕ) (s : State b)
      → status ≡ receipt_status ok
      → let r = by_status b params response (fetched receipt) status s in
        (r.0 ≡ returned tt) × IsMined params response receipt (saved_status ok) s r.1
  unfolding detach on_transaction_success on_transaction_failure
  by_status-IsMined true params response receipt status s e =
      rw e (refl, on_mined-IsMined _ params response receipt s)
  by_status-IsMined false params response receipt status s e =
      rw e (refl, on_mined-IsMined _ params response receipt s)

  -- The state when the receipt has come: the count of retries is deleted.
  abbrev forgotten : NotifyParams → b.network.Net → State b → State b
  forgotten params network s = record s {
    network = network;
    cache =
        (b.cache.delete (get_retry_transaction_count_key params.transaction_id b.chain_id)
          s.cache).1;
  }

  receipt_lem :
      (params : NotifyParams) (response : TransactionResponse)
      (receipt : Fetched TransactionReceipt) (network : b.network.Net) (s : State b)
      → params.transaction_execution_response ≡ some response
      → b.network.await_transaction response.hash s.network ≡ (returned receipt, network)
      → wait_for_transaction b params s
        ≡ by_status b params response receipt (status_of b receipt) (forgotten params network s)
  unfolding wait_for_transaction ◌>>=◌
  receipt_lem params response receipt network s h come =
      let key = get_retry_transaction_count_key params.transaction_id b.chain_id in
      let (o, e) = (cache.delete-view key s.cache).0 in rw (h, come, e) refl

  -- Once the receipt of a transaction comes with status 1 or 0, one event tells the clients that it
  -- is mined, its row is saved as SUCCESS or FAILED, and the count of its retries is deleted.
  pub wait_for_transaction-IsMined :
      (ok : Bool) (params : NotifyParams) (response : TransactionResponse)
      (receipt : TransactionReceipt) (network : b.network.Net) (s : State b)
      → params.transaction_execution_response ≡ some response
      → b.network.await_transaction response.hash s.network ≡ (returned (fetched receipt), network)
      → receipt.status ≡ receipt_status ok
      → let r = wait_for_transaction b params s in
        let key = get_retry_transaction_count_key params.transaction_id b.chain_id in
        (r.0 ≡ returned tt)
        × (events.messages r.1.transaction_queue
            ≡ events.messages s.transaction_queue
              ++ event_message params response SocketEventType.on_transaction_mined ∷ [])
        × (table.rows r.1.database
            ≡ update_first
                (record {
                  transaction_id = params.transaction_id;
                  transaction_hash = some response.hash;
                })
                (mined_update receipt (saved_status ok) s.now)
                (table.rows s.database))
        × ((j : String) → cache.view r.1.cache j ≡ written key none (cache.view s.cache) j)
        × (r.1.retry_transaction_queue ≡ s.retry_transaction_queue)
  wait_for_transaction-IsMined ok params response receipt network s h come status =
      let (done, (published, saved, kept, retries)) =
        by_status-IsMined ok params response receipt receipt.status (forgotten params network s)
          status in
      let key = get_retry_transaction_count_key params.transaction_id b.chain_id in
      rw (receipt_lem params response (fetched receipt) network s h come)
        (done, published, saved, λ j. rw kept ((cache.delete-view key s.cache).1 j), retries)
