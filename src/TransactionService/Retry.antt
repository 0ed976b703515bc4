-- ===== src/TransactionService/Retry.antt =====
-- What retryTransaction does: with a pair of fees, with a gas price, and with the count of retries.
use relayer_node.Base.{
  ℕ, ◌+◌, String, ◌≡◌, ◌∙◌, refl, ap, true, Option, none, some, [], ◌∷◌, ◌++◌, arith,
}
use relayer_node.Js.Text.{to_string}
use relayer_node.Exec.{JsError, Exec, returned, ◌>>=◌, pure, try_catch, or_throw}
use relayer_node.Types.{
  TransactionType, SocketEventType, fetched, failed_with, Account, TransactionResponse,
  RetryTransactionQueueData,
}
use relayer_node.Cache.Laws.{CacheLaws, written-here}
use relayer_node.TransactionDao.{CollectionLaws}
use relayer_node.Backend.{NotifyParams, Backend, State, QueueLaws, get_retry_transaction_count_key}
use relayer_node.GasPrice.Bumping.{get_bumped_up_gas_price}
use relayer_node.GasPrice.Bump.{get_bumped_up_gas_price-Throws}
use relayer_node.TransactionListener.{event_message, retry_message}
use relayer_node.TransactionListener.Notify.{recorded, notify-of_response}
use relayer_node.TransactionService.{
  exception, execution_error, ServiceResponse, success, failed, parse_error, execute_transaction,
}
use relayer_node.TransactionService.Execute.{execute_lem}
use relayer_node.TransactionService.Resubmit.{past_price, after_retry, retry_transaction}

-- The notification of a transaction that is sent again.
abbrev pub retry_params :
    RetryTransactionQueueData
    → Account
    → TransactionType
    → String
    → TransactionResponse
    → NotifyParams
retry_params d account type price response = record {
  transaction_execution_response = some response;
  transaction_id = d.transaction_id;
  relayer_address = account.public_key;
  transaction_type = type;
  previous_transaction_hash = some d.transaction_hash;
  raw_transaction = record d.raw_transaction { gas_price = some price };
  wallet_address = d.wallet_address;
  meta_data = d.meta_data;
  relayer_manager_name = d.relayer_manager_name;
  error = none;
}

module _ (b : Backend) (cache : CacheLaws b.cache) where
  -- The state after the count of retries has been incremented.
  abbrev pub recounted : RetryTransactionQueueData → State b → State b
  recounted d s = record s {
    cache =
        (b.cache.increment (get_retry_transaction_count_key d.transaction_id b.chain_id) 1
          s.cache).1;
  }

  -- The second half of the try block, from the bumped-up price on.
  abbrev resubmit :
      RetryTransactionQueueData
      → Option Account
      → TransactionType
      → String
      → Exec (State b) ServiceResponse
  resubmit d account type price =
      execute_transaction b (record d.raw_transaction { gas_price = some price }) account
      >>= after_retry b d account type

  retry_transaction_lem :
      (d : RetryTransactionQueueData) (account : Option Account) (type : TransactionType)
      (s : State b)
      → retry_transaction b d account type s
        ≡ try_catch
            (get_bumped_up_gas_price b (past_price b d.raw_transaction) b.bump_gas_price_multiplier
              >>= resubmit d account type)
            (λ e. pure (failed 500 (exception e) d.transaction_id))
            (recounted d s)
  unfolding retry_transaction try_catch ◌>>=◌
  retry_transaction_lem d account type s =
      let key = get_retry_transaction_count_key d.transaction_id b.chain_id in
      let (o, e) = cache.increment-returns key 1 s.cache in rw e refl

  -- A transaction without a gas price, as it is built on a network of EIP-1559, is never sent again:
  -- every retry of it fails with code 500, and the count of retries is all that changes.
  pub retry_transaction-of_pair :
      (d : RetryTransactionQueueData) (account : Option Account) (type : TransactionType)
      (s : State b)
      → d.raw_transaction.gas_price ≡ none
      → (e : JsError) × (retry_transaction b d account type s
          ≡ (returned (failed 500 (exception e) d.transaction_id), recounted d s))
  unfolding try_catch ◌>>=◌
  retry_transaction-of_pair d account type s h =
      let (e, fails) =
        get_bumped_up_gas_price-Throws b none b.bump_gas_price_multiplier (recounted d s)
          (λ n. n) in
      (e, rw (retry_transaction_lem d account type s, h, fails) refl)

  -- Where the network refuses the transaction that is sent again, the answer is a failure with the
  -- network's error, and nothing is published: the retry service does not hear of it again.
  retry_transaction-of_refusal :
      (d : RetryTransactionQueueData) (account : Account) (type : TransactionType) (price : String)
      (error : JsError) (network : b.network.Net) (s : State b)
      → get_bumped_up_gas_price b
          (past_price b d.raw_transaction)
          b.bump_gas_price_multiplier
          (recounted d s)
        ≡ (returned price, recounted d s)
      → b.network.submit
          (record d.raw_transaction { gas_price = some price })
          (some account)
          s.network
        ≡ (returned (failed_with error), network)
      → retry_transaction b d (some account) type s ≡ (
        returned (failed 500 (execution_error (parse_error error)) d.transaction_id),
        record (recounted d s) { network = network },
      )
  unfolding try_catch ◌>>=◌
  retry_transaction-of_refusal d account type price error network s bumped refused =
      rw
        (
          retry_transaction_lem d (some account) type s,
          bumped,
          execute_lem b (record d.raw_transaction { gas_price = some price }) account
              (failed_with error) network (recounted d s) refused,
        )
        refl

  module _ (events : QueueLaws b.transaction_queue) (retries : QueueLaws b.retry_transaction_queue)
      (table : CollectionLaws b.collection) where
    pub retry_transaction-of_acceptance :
        (d : RetryTransactionQueueData) (account : Account) (type : TransactionType)
        (price : String) (response : TransactionResponse) (n : ℕ) (network : b.network.Net)
        (s : State b)
        → cache.view s.cache (get_retry_transaction_count_key d.transaction_id b.chain_id)
          ≡ some (to_string n)
        → get_bumped_up_gas_price b
            (past_price b d.raw_transaction)
            b.bump_gas_price_multiplier
            (recounted d s)
          ≡ (returned price, recounted d s)
        → b.network.submit
            (record d.raw_transaction { gas_price = some price })
            (some account)
            s.network
          ≡ (returned (fetched response), network)
        → let r = retry_transaction b d (some account) type s in
          let params = retry_params d account type price response in
          (r.0
            ≡ returned (
                success 200 d.transaction_id (record {
                  is_transaction_relayed = true;
                  transaction_execution_response = some response;
                })))
          × (events.messages r.1.transaction_queue
              ≡ events.messages s.transaction_queue
                ++ event_message params response SocketEventType.on_transaction_hash_changed ∷ [])
          × (retries.messages r.1.retry_transaction_queue
              ≡ retries.messages s.retry_transaction_queue ++ retry_message params response ∷ [])
          × (table.rows r.1.database
              ≡ recorded b.chain_id params response s.now
                  (some d.transaction_hash)
                  (table.rows s.database))
          × (cache.view r.1.cache (get_retry_transaction_count_key d.transaction_id b.chain_id)
              ≡ some (to_string (n + 1)))
    unfolding try_catch or_throw ◌>>=◌
    retry_transaction-of_acceptance d account type price response n network s count bumped taken =
        let params = retry_params d account type price response in
        let key = get_retry_transaction_count_key d.transaction_id b.chain_id in
        let (done, told, again, saved, waits, kept, _) =
          notify-of_response b events retries table params response
            (record (recounted d s) { network = network }) refl in
        let (_, grown) = cache.increment-number key 1 n s.cache (omega arith) count in
        rw
          (
            retry_transaction_lem d (some account) type s,
            bumped,
            execute_lem b (record d.raw_transaction { gas_price = some price }) account
                (fetched response) network (recounted d s) taken,
            done,
          )
          (
            refl,
            told,
            again,
            saved,
            ap (λ c. cache.view c key) kept ∙ (grown key ∙ written-here key _ (cache.view s.cache)),
          )
