-- ===== src/Tests/Outcomes.antt =====
-- Runs of the notifications and of sendTransaction, which end well or with an error.
use relayer_node.Tests.Taking.{b, cache, events, retries, table}
use relayer_node.Base.{String, ◌≡◌, refl, true, false, none, some, [], ◌∷◌}
use relayer_node.Js.Dict.{lookup, insert}
use relayer_node.Js.Text.{to_string, parse_int}
use relayer_node.Js.Number.{integer_of_text, round_to_double}
use relayer_node.Exec.{returned, type_error, ◌>>=◌, try_catch, or_throw}
use relayer_node.Types.{TransactionType, SocketEventType, TransactionStatus, fetched, failed_with}
use relayer_node.Cache.Laws.{written}
use relayer_node.Network.{
  use_provider, network_send_transaction, network_nonce, network_gas_price,
  network_wait_for_transaction,
}
use relayer_node.TransactionDao.{update_first}
use relayer_node.Backend.{NotifyParams, State, get_retry_transaction_count_key}
use relayer_node.NonceManager.{
  get_nonce, get_account_nonce_key, get_used_account_nonce_key, get_and_set_nonce_from_network,
}
use relayer_node.GasPrice.{
  get_gas_price, get_legacy, get_gas_price_for_simulation, get_gas_price_key, includes_chain,
}
use relayer_node.TransactionListener.{
  event_message, error_message, retry_message, mined_update, wait_for_transaction,
}
use relayer_node.TransactionListener.Notify.{recorded}
use relayer_node.TransactionListener.Mined.{wait_for_transaction-IsMined}
use relayer_node.TransactionService.{
  exception, success, failed, parse_error, is_more, create_transaction, hexlify_price,
}
use relayer_node.TransactionService.SendTransaction.{notify_params, send_transaction}
use relayer_node.TransactionService.Send.{retries_of, counted}
use relayer_node.TransactionService.Outcome.{
  send_transaction-of_refusal, send_transaction-of_acceptance,
}
use relayer_node.Tests.Chain.{Answers, test_backend, test_cache-CacheLaws, test_state}
use relayer_node.Network.{on_error, error_text, is_timeout}
use relayer_node.Tests.Transactions.{
  test_response, test_receipt, refusal_error, taking, refusing, test_account, test_data, test_raw,
  retries_at,
}

abbrev s : State b
s = test_state taking (retries_at "2")

abbrev params : NotifyParams
params = record (notify_params b test_data test_account TransactionType.scw "manager" test_raw) {
  transaction_execution_response = some test_response;
}

abbrev failed_params : NotifyParams
failed_params =
    record (notify_params b test_data test_account TransactionType.scw "manager" test_raw) {
      error = some "nonce too low";
    }

receipt_comes :
    b.network.await_transaction "0x0a" s.network ≡ (returned (fetched test_receipt), s.network)
unfolding network_wait_for_transaction use_provider try_catch ◌>>=◌
receipt_comes = refl

wait_for_transaction-IsMined_example :
    let r = wait_for_transaction b params s in
    let key = get_retry_transaction_count_key "0x01" 137 in
    (r.0 ≡ returned tt)
    × (r.1.transaction_queue
        ≡ event_message params test_response SocketEventType.on_transaction_mined ∷ [])
    × (r.1.database
        ≡ update_first
            (record { transaction_id = "0x01"; transaction_hash = some "0x0a" })
            (mined_update test_receipt TransactionStatus.success s.now)
            [])
    × ((j : String) → cache.view r.1.cache j ≡ written key none (cache.view s.cache) j)
    × (r.1.retry_transaction_queue ≡ s.retry_transaction_queue)
wait_for_transaction-IsMined_example =
    wait_for_transaction-IsMined b cache events table true params test_response test_receipt
      s.network s refl receipt_comes refl

abbrev refused : State (test_backend refusing)
refused = test_state refusing (retries_at "2")

is_allowed : is_more (retries_of b cache test_data s) (some 5) ≡ false
unfolding lookup parse_int get_retry_transaction_count_key to_string
is_allowed = refl

-- The state once a transaction has been built: its nonce is in the cache.
abbrev built : (a : Answers) → State (test_backend a)
built a =
    test_state a (("RetryTransactionCount_0x01_137", "2") ∷ ("AccountNonce_0x0b_137", "7") ∷ [])

is_built :
    create_transaction b test_data test_account (counted b cache test_data s)
    ≡ (returned test_raw, built taking)
unfolding create_transaction get_nonce get_account_nonce_key get_used_account_nonce_key
    get_and_set_nonce_from_network get_gas_price get_legacy get_gas_price_for_simulation
    get_gas_price_key includes_chain hexlify_price network_nonce network_gas_price use_provider
    lookup insert parse_int to_string integer_of_text round_to_double or_throw try_catch ◌>>=◌
    get_retry_transaction_count_key
is_built = refl

sends :
    b.network.submit test_raw (some test_account) (built taking).network
    ≡ (returned (fetched test_response), (built taking).network)
unfolding network_send_transaction use_provider or_throw try_catch ◌>>=◌
sends = refl

send_transaction-of_acceptance_example :
    let r = send_transaction b test_data test_account TransactionType.scw "manager" s in
    (r.0
      ≡ returned (
          success 200 "0x01" (record {
            is_transaction_relayed = true;
            transaction_execution_response = some test_response;
          })))
    × (r.1.transaction_queue
        ≡ event_message params test_response SocketEventType.on_transaction_hash_generated ∷ [])
    × (r.1.retry_transaction_queue ≡ retry_message params test_response ∷ [])
    × (r.1.database ≡ recorded 137 params test_response s.now none [])
    × (r.1.waiting_for ≡ params ∷ [])
send_transaction-of_acceptance_example =
    send_transaction-of_acceptance b cache events retries table test_data test_account
      TransactionType.scw "manager" test_raw test_response (built taking).network s (built taking)
      is_allowed is_built sends

is_built_in_vain :
    create_transaction
      (test_backend refusing)
      test_data
      test_account
      (counted (test_backend refusing) (test_cache-CacheLaws refusing) test_data refused)
    ≡ (returned test_raw, built refusing)
unfolding create_transaction get_nonce get_account_nonce_key get_used_account_nonce_key
    get_and_set_nonce_from_network get_gas_price get_legacy get_gas_price_for_simulation
    get_gas_price_key includes_chain hexlify_price network_nonce network_gas_price use_provider
    lookup insert parse_int to_string integer_of_text round_to_double or_throw try_catch ◌>>=◌
    get_retry_transaction_count_key
is_built_in_vain = refl

is_refused :
    (test_backend refusing).network.submit test_raw (some test_account) (built refusing).network
    ≡ (returned (failed_with refusal_error), (built refusing).network)
unfolding network_send_transaction use_provider on_error error_text is_timeout or_throw try_catch
    ◌>>=◌
is_refused = refl

send_transaction-of_refusal_example :
    let r =
      send_transaction
        (test_backend refusing)
        test_data
        test_account
        TransactionType.scw
        "manager"
        refused in
    (r.0 ≡ returned (failed 500 (exception (type_error "Error in transaction execution")) "0x01"))
    × (r.1.transaction_queue
        ≡ error_message (record failed_params { error = some (parse_error refusal_error) }) ∷ [])
    × (r.1.retry_transaction_queue ≡ [])
    × (r.1.database ≡ [])
    × (r.1.waiting_for ≡ [])
send_transaction-of_refusal_example =
    send_transaction-of_refusal (test_backend refusing) (test_cache-CacheLaws refusing) events
      retries table test_data test_account TransactionType.scw "manager" test_raw refusal_error
      (built refusing).network refused (built refusing) is_allowed is_built_in_vain is_refused
