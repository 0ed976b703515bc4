-- ===== src/TransactionService/Outcome.antt =====
-- The outcomes of sendTransaction, from the state in which it is called.
use relayer_node.Base.{String, ◌≡◌, ◌∙◌, refl, ap, subst, true, false, none, some, [], ◌∷◌, ◌++◌}
use relayer_node.Exec.{JsError, returned, type_error}
use relayer_node.Types.{
  TransactionType, SocketEventType, fetched, failed_with, EvmRawTransaction, Account,
  TransactionResponse,
}
use relayer_node.Cache.Laws.{CacheLaws}
use relayer_node.TransactionDao.{CollectionLaws}
use relayer_node.Backend.{Backend, State, QueueLaws}
use relayer_node.NonceManager.{get_account_nonce_key, increment_nonce}
use relayer_node.TransactionListener.{event_message, error_message, retry_message}
use relayer_node.TransactionListener.Notify.{recorded, notify-of_response}
use relayer_node.TransactionService.{
  TransactionDataType, exception, success, failed, parse_error, is_more, create_transaction,
}
use relayer_node.TransactionService.SendTransaction.{notify_params, send_transaction}
use relayer_node.TransactionService.Execute.{execute_lem}
use relayer_node.TransactionService.Keeps.{Keeps, create_transaction-Keeps}
use relayer_node.TransactionService.Send.{
  retries_of, counted, send_transaction_lem, send_new_failure_lem, send_new_success_lem,
}

module _ (b : Backend) (cache : CacheLaws b.cache) (events : QueueLaws b.transaction_queue)
    (retries : QueueLaws b.retry_transaction_queue) (table : CollectionLaws b.collection) where
  created-Keeps :
      (d : TransactionDataType) (account : Account) (raw : EvmRawTransaction) (s t : State b)
      → create_transaction b d account (counted b cache d s) ≡ (returned raw, t)
      → Keeps b s t
  created-Keeps d account raw s t created =
      subst (λ r. Keeps b s r.1) created
        (create_transaction-Keeps b d account s (counted b cache d s)
          (refl, refl, refl, refl, refl))

  -- A transaction that is built, but that the network refuses with an error, gets the answer failed
  -- with code 500; the error is published once as an event, and neither the retry service nor the
  -- database hears of it.
  pub send_transaction-of_refusal :
      (d : TransactionDataType) (account : Account) (type : TransactionType) (name : String)
      (raw : EvmRawTransaction) (error : JsError) (network : b.network.Net) (s t : State b)
      → is_more (retries_of b cache d s) (b.max_retry_count type) ≡ false
      → create_transaction b d account (counted b cache d s) ≡ (returned raw, t)
      → b.network.submit raw (some account) t.network ≡ (returned (failed_with error), network)
      → let r = send_transaction b d account type name s in
        (r.0
          ≡ returned (
              failed 500
                (exception (type_error "Error in transaction execution"))
                d.transaction_id))
        × (events.messages r.1.transaction_queue
            ≡ events.messages s.transaction_queue
              ++ error_message (record (notify_params b d account type name raw) {
                error = some (parse_error error);
              })
                ∷ [])
        × (r.1.retry_transaction_queue ≡ s.retry_transaction_queue)
        × (r.1.database ≡ s.database)
        × (r.1.waiting_for ≡ s.waiting_for)
  send_transaction-of_refusal d account type name raw error network s t below created refused =
      let (q, rq, db, w, _) = created-Keeps d account raw s t created in
      let (done, published, same) =
        send_new_failure_lem b cache events retries table d account type name raw
          (parse_error error) (counted b cache d s) t _ created
          (execute_lem b raw account (failed_with error) network t refused) in
      let told =
        error_message
          (record (notify_params b d account type name raw) { error = some (parse_error error) }) in
      rw (send_transaction_lem b cache d account type name s, below)
        (
          done,
          published ∙ ap (λ c. events.messages c ++ told ∷ []) q,
          ap (λ u. u.retry_transaction_queue) same ∙ rq,
          ap (λ u. u.database) same ∙ db,
          ap (λ u. u.waiting_for) same ∙ w,
        )

  -- A transaction that is built, and that the network takes, gets the answer success with code 200.
  -- One event gives its hash, one message goes to the retry service, its row in the database is
  -- updated as pending, and the wait for its receipt begins.
  pub send_transaction-of_acceptance :
      (d : TransactionDataType) (account : Account) (type : TransactionType) (name : String)
      (raw : EvmRawTransaction) (response : TransactionResponse) (network : b.network.Net)
      (s t : State b)
      → is_more (retries_of b cache d s) (b.max_retry_count type) ≡ false
      → create_transaction b d account (counted b cache d s) ≡ (returned raw, t)
      → b.network.submit raw (some account) t.network ≡ (returned (fetched response), network)
      → let r = send_transaction b d account type name s in
        let params = record (notify_params b d account type name raw) {
          transaction_execution_response = some response;
        } in
        (r.0
          ≡ returned (
              success 200 d.transaction_id (record {
                is_transaction_relayed = true;
                transaction_execution_response = some response;
              })))
        × (events.messages r.1.transaction_queue
            ≡ events.messages s.transaction_queue
              ++ event_message params response SocketEventType.on_transaction_hash_generated ∷ [])
        × (retries.messages r.1.retry_transaction_queue
            ≡ retries.messages s.retry_transaction_queue ++ retry_message params response ∷ [])
        × (table.rows r.1.database
            ≡ recorded b.chain_id params response s.now none (table.rows s.database))
        × (r.1.waiting_for ≡ s.waiting_for ++ params ∷ [])
  unfolding increment_nonce
  send_transaction-of_acceptance d account type name raw response network s t below created taken =
      let (q, rq, db, w, now) = created-Keeps d account raw s t created in
      let params = record (notify_params b d account type name raw) {
        transaction_execution_response = some response;
      } in
      let (o, counts) =
        cache.increment-returns (get_account_nonce_key b account.public_key) 1 t.cache in
      let u = record t { network = network } in
      let (done, told, again, saved, waits, _, _) =
        notify-of_response b events retries table params response
          (increment_nonce b account.public_key u).1 refl in
      rw
        (
          send_transaction_lem b cache d account type name s,
          below,
          send_new_success_lem b cache events retries table d account type name raw response
              (counted b cache d s) t u o created
              (execute_lem b raw account (fetched response) network t taken) counts,
        )
        (
          refl,
          told
              ∙ ap
                  (λ c.
                    events.messages c
                    ++ event_message params response SocketEventType.on_transaction_hash_generated
                      ∷ [])
                  q,
          again ∙ ap (λ c. retries.messages c ++ retry_message params response ∷ []) rq,
          saved ∙ (λ i. recorded b.chain_id params response (now i) none (table.rows (db i))),
          waits ∙ ap (λ l. l ++ params ∷ []) w,
        )
