-- ===== src/TransactionService/Send.antt =====
-- What sendTransaction does on each path, for the clients and the retry service.
use relayer_node.Base.{String, ◌≡◌, ◌≢◌, refl, Bool, true, Option, none, some, [], ◌∷◌, ◌++◌, ℤ}
use relayer_node.Js.Text.{parse_int}
use relayer_node.Exec.{Result, returned, thrown, waiting, ◌>>=◌, pure, try_catch, type_error}
use relayer_node.Types.{TransactionType, EvmRawTransaction, Account, TransactionResponse}
use relayer_node.Notification.{get_max_retry_count_notification_message}
use relayer_node.Cache.{or_empty}
use relayer_node.Cache.Laws.{CacheLaws}
use relayer_node.TransactionDao.{CollectionLaws}
use relayer_node.Backend.{NotifyParams, Backend, State, QueueLaws, get_retry_transaction_count_key}
use relayer_node.NonceManager.{increment_nonce}
use relayer_node.TransactionListener.{error_message, notify}
use relayer_node.TransactionListener.Notify.{notify-of_failure, notify-of_response}
use relayer_node.TransactionService.{
  TransactionDataType, executed, not_executed, text, exception, success, failed, is_more,
  create_transaction, execute_transaction,
}
use relayer_node.TransactionService.SendTransaction.{
  refuse, send_unless, send_new, notify_params, after_execution, send_transaction,
  send_max_retry_count_exceeded_slack_notification,
}

module _ (b : Backend) (cache : CacheLaws b.cache) where
  abbrev count_key : TransactionDataType → String
  count_key d = get_retry_transaction_count_key d.transaction_id b.chain_id

  -- The count of the transaction's retries, as it is read.
  abbrev pub retries_of : TransactionDataType → State b → Option ℤ
  retries_of d s = parse_int (or_empty (cache.view s.cache (count_key d)))

  -- The state after the count has been read.
  abbrev pub counted : TransactionDataType → State b → State b
  counted d s = record s { cache = (b.cache.get (count_key d) s.cache).1 }

  pub send_transaction_lem :
      (d : TransactionDataType) (account : Account) (type : TransactionType) (name : String)
      (s : State b)
      → send_transaction b d account type name s
        ≡ send_unless b
            (is_more (retries_of d s) (b.max_retry_count type))
            d
            account
            type
            name
            (counted d s)
  unfolding send_transaction ◌>>=◌
  send_transaction_lem d account type name s = rw ((cache.get-view (count_key d) s.cache).0) refl

  ends_with :
      {A : Type 0} (r : Result (Unit {0})) (x : A) (s : State b)
      → r ≢ waiting
      → ((try_catch (λ t. (r, t)) (λ _. pure tt) >>= (λ _. pure x)) s) ≡ (returned x, s)
  unfolding try_catch ◌>>=◌
  ends_with (returned tt) x s h = refl
  ends_with (thrown e) x s h = refl
  ends_with waiting x s h = absurd (h refl)

  -- A transaction whose count of retries is above the maximum is refused with code 404, and nothing
  -- but a notification to Slack, which may fail, is sent anywhere.
  send_transaction-refuses :
      (d : TransactionDataType) (account : Account) (type : TransactionType) (name : String)
      (s : State b)
      → is_more (retries_of d s) (b.max_retry_count type) ≡ true
      → (b.send_slack_notification
          (get_max_retry_count_notification_message d.transaction_id account type b.chain_id)
          s.slack).0
        ≢ waiting
      → send_transaction b d account type name s ≡ (
        returned (
            failed 404
              (text "Max retry count exceeded. Use end point to get transaction status")
              d.transaction_id),
        record (counted d s) {
          slack =
              (b.send_slack_notification
                (get_max_retry_count_notification_message d.transaction_id account type b.chain_id)
                s.slack).1;
        },
      )
  unfolding refuse send_max_retry_count_exceeded_slack_notification try_catch ◌>>=◌
  send_transaction-refuses d account type name s above ends =
      rw (send_transaction_lem d account type name s, above) (ends_with _ _ _ ends)

  module _ (events : QueueLaws b.transaction_queue) (retries : QueueLaws b.retry_transaction_queue)
      (table : CollectionLaws b.collection) where
    -- After an execution that failed, the error is published and an exception thrown.
    after_failure_lem :
        (params : NotifyParams) (error : String) (s : State b)
        → params.transaction_execution_response ≡ none
        → let r = after_execution b params (not_executed error) s in
          (r.0 ≡ thrown (type_error "Error in transaction execution"))
          × (events.messages r.1.transaction_queue
              ≡ events.messages s.transaction_queue
                ++ error_message (record params { error = some error }) ∷ [])
          × (record r.1 { transaction_queue = s.transaction_queue } ≡ s)
    unfolding ◌>>=◌
    after_failure_lem params error s h =
        let (done, published, same) =
          notify-of_failure b events retries table (record params { error = some error }) s h in
        rw done (refl, published, same)

    -- The state after a transaction that is executed has been counted in the cached nonce.
    abbrev incremented : NotifyParams → State b → State b
    incremented params s = (increment_nonce b params.relayer_address s).1

    after_success_lem :
        (params : NotifyParams) (response : TransactionResponse) (s : State b) (done : Bool)
        → (increment_nonce b params.relayer_address s).0 ≡ returned done
        → let p = record params { transaction_execution_response = some response } in
          let n = notify b p (incremented params s) in
          after_execution b params (executed response) s ≡ (
            returned (
                success 200 params.transaction_id (record {
                  is_transaction_relayed = true;
                  transaction_execution_response = some response;
                })),
            n.1,
          )
    unfolding ◌>>=◌
    after_success_lem params response s done counted =
        let p = record params { transaction_execution_response = some response } in
        rw
          (
            counted,
            (notify-of_response b events retries table p response (incremented params s) refl).0,
          )
          refl

    pub send_new_failure_lem :
        (d : TransactionDataType) (account : Account) (type : TransactionType) (name : String)
        (raw : EvmRawTransaction) (error : String) (s t u : State b)
        → create_transaction b d account s ≡ (returned raw, t)
        → execute_transaction b raw (some account) t ≡ (returned (not_executed error, raw), u)
        → let r = send_new b d account type name s in
          let params = record (notify_params b d account type name raw) { error = some error } in
          (r.0
            ≡ returned (
                failed 500
                  (exception (type_error "Error in transaction execution"))
                  d.transaction_id))
          × (events.messages r.1.transaction_queue
              ≡ events.messages u.transaction_queue ++ error_message params ∷ [])
          × (record r.1 { transaction_queue = u.transaction_queue } ≡ u)
    unfolding send_new try_catch ◌>>=◌
    send_new_failure_lem d account type name raw error s t u created failed_to =
        let (done, published, same) =
          after_failure_lem (notify_params b d account type name raw) error u refl in
        rw (created, failed_to, done) (refl, published, same)

    pub send_new_success_lem :
        (d : TransactionDataType) (account : Account) (type : TransactionType) (name : String)
        (raw : EvmRawTransaction) (response : TransactionResponse) (s t u : State b) (done : Bool)
        → create_transaction b d account s ≡ (returned raw, t)
        → execute_transaction b raw (some account) t ≡ (returned (executed response, raw), u)
        → (increment_nonce b account.public_key u).0 ≡ returned done
        → let params = record (notify_params b d account type name raw) {
          transaction_execution_response = some response;
        } in
          send_new b d account type name s ≡ (
            returned (
                success 200 d.transaction_id (record {
                  is_transaction_relayed = true;
                  transaction_execution_response = some response;
                })),
            (notify b params (increment_nonce b account.public_key u).1).1,
          )
    unfolding send_new try_catch ◌>>=◌
    send_new_success_lem d account type name raw response s t u done created executed_to counted =
        rw
          (
            created,
            executed_to,
            after_success_lem (notify_params b d account type name raw) response u done counted,
          )
          refl
