-- ===== src/TransactionListener/Notify.antt =====
-- What notify does: the messages, the rows of the database, and the wait that it begins.
use relayer_node.Base.{
  ℕ, String, ◌≡◌, refl, true, false, Option, none, some, List, [], ◌∷◌, ◌++◌, ◌∙◌, ap,
}
use relayer_node.Exec.{returned, ◌>>=◌, detach}
use relayer_node.Types.{TransactionResponse, TransactionQueueMessage, RetryTransactionQueueData}
use relayer_node.TransactionDao.{
  TransactionData, CollectionLaws, update_first, dao_save, update_by_transaction_id,
  update_by_transaction_id_and_transaction_hash,
}
use relayer_node.Backend.{NotifyParams, Backend, State, QueueLaws}
use relayer_node.TransactionListener.{
  event_message, error_message, retry_message, hash_event, pending_update, dropped_update, new_row,
  publish_to_transaction_queue, publish_to_retry_transaction_queue, notify, record_transaction,
}

-- The rows after a transaction has been recorded: its row gets the response, or, for one that
-- replaces another, the old row is marked as dropped and a new row is added.
abbrev pub recorded :
    ℕ
    → NotifyParams
    → TransactionResponse
    → ℕ
    → Option String
    → List TransactionData
    → List TransactionData
recorded chain_id params response now none rows =
    update_first (record { transaction_id = params.transaction_id; transaction_hash = none })
      (pending_update params response now) rows
recorded chain_id params response now (some previous) rows =
    update_first
      (record { transaction_id = params.transaction_id; transaction_hash = some previous })
      (dropped_update now) rows
    ++ new_row chain_id params response previous now ∷ []

module _ (b : Backend) (events : QueueLaws b.transaction_queue)
    (retries : QueueLaws b.retry_transaction_queue) (table : CollectionLaws b.collection) where
  database_after :
      NotifyParams
      → TransactionResponse
      → ℕ
      → Option String
      → b.collection.Database
      → b.collection.Database
  database_after params response now none d =
      (update_by_transaction_id b.collection params.transaction_id
        (pending_update params response now) d).1
  database_after params response now (some previous) d =
      (dao_save b.collection (new_row b.chain_id params response previous now)
        (update_by_transaction_id_and_transaction_hash b.collection params.transaction_id previous
          (dropped_update now) d).1).1

  rows-database_after :
      (params : NotifyParams) (response : TransactionResponse) (now : ℕ) (previous : Option String)
      (d : b.collection.Database)
      → table.rows (database_after params response now previous d)
        ≡ recorded b.chain_id params response now previous (table.rows d)
  unfolding database_after dao_save update_by_transaction_id
      update_by_transaction_id_and_transaction_hash
  rows-database_after params response now none d = (table.update_one-rows _ _ d).1
  rows-database_after params response now (some previous) d =
      (table.insert_many-rows _ _).1
      ∙ ap (λ rows. rows ++ new_row b.chain_id params response previous now ∷ [])
          (table.update_one-rows _ _ d).1

  record_transaction_lem :
      (params : NotifyParams) (response : TransactionResponse) (now : ℕ) (previous : Option String)
      (s : State b)
      → record_transaction b params response now previous s ≡ (
        returned tt,
        record s { database = database_after params response now previous s.database },
      )
  unfolding database_after detach ◌>>=◌
  record_transaction_lem params response now none s = refl
  record_transaction_lem params response now (some previous) s = refl

  publish_event_lem :
      (m : TransactionQueueMessage) (s : State b)
      → publish_to_transaction_queue b m s ≡ (
        returned true,
        record s { transaction_queue = (b.transaction_queue.publish m s.transaction_queue).1 },
      )
  unfolding publish_to_transaction_queue ◌>>=◌
  publish_event_lem m s =
      let (o, e) = (events.publish-messages m s.transaction_queue).0 in rw e refl

  publish_retry_lem :
      (m : RetryTransactionQueueData) (s : State b)
      → publish_to_retry_transaction_queue b m s ≡ (
        returned true,
        record s {
          retry_transaction_queue =
              (b.retry_transaction_queue.publish m s.retry_transaction_queue).1;
        },
      )
  unfolding publish_to_retry_transaction_queue ◌>>=◌
  publish_retry_lem m s =
      let (o, e) = (retries.publish-messages m s.retry_transaction_queue).0 in rw e refl

  -- A notification without a response publishes one event, the error, and does nothing else.
  pub notify-of_failure :
      (params : NotifyParams) (s : State b)
      → params.transaction_execution_response ≡ none
      → let r = notify b params s in
        (r.0
          ≡ returned
              (record { is_transaction_relayed = false; transaction_execution_response = none }))
        × (events.messages r.1.transaction_queue
            ≡ events.messages s.transaction_queue ++ error_message params ∷ [])
        × (record r.1 { transaction_queue = s.transaction_queue } ≡ s)
  unfolding notify ◌>>=◌
  notify-of_failure params s h =
      rw (h, publish_event_lem (error_message params) s)
        (refl, (events.publish-messages _ s.transaction_queue).1, refl)

  pub notify-of_response :
      (params : NotifyParams) (response : TransactionResponse) (s : State b)
      → params.transaction_execution_response ≡ some response
      → let r = notify b params s in
        let previous = params.previous_transaction_hash in
        (r.0
          ≡ returned (record {
            is_transaction_relayed = true;
            transaction_execution_response = some response;
          }))
        × (events.messages r.1.transaction_queue
            ≡ events.messages s.transaction_queue
              ++ event_message params response (hash_event previous) ∷ [])
        × (retries.messages r.1.retry_transaction_queue
            ≡ retries.messages s.retry_transaction_queue ++ retry_message params response ∷ [])
        × (table.rows r.1.database
            ≡ recorded b.chain_id params response s.now previous (table.rows s.database))
        × (r.1.waiting_for ≡ s.waiting_for ++ params ∷ [])
        × (r.1.cache ≡ s.cache)
        × (r.1.network ≡ s.network)
  unfolding notify ◌>>=◌
  notify-of_response params response s h =
      let previous = params.previous_transaction_hash in
      rw
        (
          h,
          record_transaction_lem params response s.now previous s,
          publish_event_lem (event_message params response (hash_event previous)) _,
          publish_retry_lem (retry_message params response) _,
        )
        (
          refl,
          (events.publish-messages _ s.transaction_queue).1,
          (retries.publish-messages _ s.retry_transaction_queue).1,
          rows-database_after params response s.now previous s.database,
          refl,
          refl,
          refl,
        )
