-- ===== src/Tests/Tracking.antt =====
-- A transaction whose row was saved, as it is sent, and as it is sent again.
use relayer_node.Tests.Taking.{b, cache, events, retries, table}
use relayer_node.Base.{◌≡◌, refl, false, none, some, [], ◌∷◌}
use relayer_node.Js.Dict.{lookup, insert}
use relayer_node.Js.Text.{to_string, parse_int}
use relayer_node.Js.Number.{
  integer_of_text, round_to_double, number_of, times_literal, shown_integer,
}
use relayer_node.Exec.{returned, ◌>>=◌, try_catch, or_throw}
use relayer_node.Types.{TransactionType, TransactionStatus, fetched, RetryTransactionQueueData}
use relayer_node.Network.{use_provider, network_send_transaction, network_nonce, network_gas_price}
use relayer_node.TransactionDao.{TransactionData, latest_first}
use relayer_node.Backend.{State, get_retry_transaction_count_key}
use relayer_node.NonceManager.{
  get_nonce, get_account_nonce_key, get_used_account_nonce_key, get_and_set_nonce_from_network,
}
use relayer_node.GasPrice.{
  includes_chain, get_gas_price, get_legacy, get_gas_price_for_simulation, get_gas_price_key,
}
use relayer_node.GasPrice.Bumping.{get_bumped_up_gas_price, bump_text, bump, hex_of_number}
use relayer_node.TransactionListener.{retry_message}
use relayer_node.TransactionService.{is_more, create_transaction, hexlify_price}
use relayer_node.TransactionService.SendTransaction.{notify_params, send_transaction}
use relayer_node.TransactionService.Send.{retries_of, counted}
use relayer_node.TransactionService.Resubmit.{past_price, retry_transaction}
use relayer_node.TransactionService.Retry.{recounted}
use relayer_node.Server.{status_of}
use relayer_node.Server.Relay.{pending_row}
use relayer_node.Server.Transactions.{transaction_status, includes_network}
use relayer_node.Server.Transactions.Pending.{IsOfChain}
use relayer_node.Tests.Api.{test_databases}
use relayer_node.Server.Transactions.Tracked.{
  send_transaction-then_status, retry_transaction-then_status,
}
use relayer_node.Tests.Chain.{test_state}
use relayer_node.Tests.Transactions.{
  test_response, taking, test_account, test_data, test_raw, retries_at,
}

abbrev row : TransactionData
row = pending_row 137 "0x0d" "0x01" 0

abbrev s : State b
s = record (test_state taking (retries_at "2")) { database = row ∷ [] }

-- The state once the transaction has been built.
abbrev built : State b
built = record s {
  cache = ("RetryTransactionCount_0x01_137", "2") ∷ ("AccountNonce_0x0b_137", "7") ∷ [];
}

is_allowed : is_more (retries_of b cache test_data s) (some 5) ≡ false
unfolding lookup parse_int get_retry_transaction_count_key to_string
is_allowed = refl

is_built :
    create_transaction b test_data test_account (counted b cache test_data s)
    ≡ (returned test_raw, built)
unfolding create_transaction get_nonce get_account_nonce_key get_used_account_nonce_key
    get_and_set_nonce_from_network get_gas_price get_legacy get_gas_price_for_simulation
    get_gas_price_key includes_chain hexlify_price network_nonce network_gas_price use_provider
    lookup insert parse_int to_string integer_of_text round_to_double or_throw try_catch ◌>>=◌
    get_retry_transaction_count_key
is_built = refl

sends :
    b.network.submit test_raw (some test_account) built.network
    ≡ (returned (fetched test_response), built.network)
unfolding network_send_transaction use_provider or_throw try_catch ◌>>=◌
sends = refl

has_row :
    latest_first (record { transaction_id = "0x01"; transaction_hash = none }) s.database ≡ row ∷ []
unfolding latest_first
has_row = refl

of_chain : IsOfChain b test_databases "137"
unfolding parse_int includes_network
of_chain = (refl, refl)

send_transaction-then_status_example :
    (transaction_status b test_databases
      (record { chain_id = "137"; transaction_id = "0x01" })
      (send_transaction b test_data test_account TransactionType.scw "manager" s).1).0
    ≡ returned (record {
      code = 200;
      body = status_of (record {
        chain_id = parse_int "137";
        transaction_id = some "0x01";
        status = some TransactionStatus.pending;
        transaction_hash = some "0x0a";
        gas_price = some 100;
        receipt = none;
        previous_transaction_hash = none;
      });
    })
send_transaction-then_status_example =
    send_transaction-then_status b cache events retries table test_data test_account
      TransactionType.scw "manager" test_raw test_response built.network s built row 100
      test_databases "137" is_allowed is_built sends has_row refl of_chain

abbrev d : RetryTransactionQueueData
d =
    retry_message
      (record (notify_params b test_data test_account TransactionType.scw "manager" test_raw) {
        transaction_execution_response = some test_response;
      })
      test_response

is_bumped :
    get_bumped_up_gas_price b (past_price b d.raw_transaction) (some 50) (recounted b cache d s)
    ≡ (returned "150", recounted b cache d s)
unfolding get_bumped_up_gas_price bump_text bump hex_of_number includes_chain integer_of_text
    number_of round_to_double times_literal shown_integer to_string or_throw ◌>>=◌
is_bumped = refl

is_taken :
    b.network.submit (record test_raw { gas_price = some "150" }) (some test_account) s.network
    ≡ (returned (fetched test_response), s.network)
unfolding network_send_transaction use_provider or_throw try_catch ◌>>=◌
is_taken = refl

is_counted : cache.view s.cache (get_retry_transaction_count_key "0x01" 137) ≡ some (to_string 2)
unfolding lookup get_retry_transaction_count_key to_string
is_counted = refl

retry_transaction-then_status_example :
    (transaction_status b test_databases
      (record { chain_id = "137"; transaction_id = "0x01" })
      (retry_transaction b d (some test_account) TransactionType.scw s).1).0
    ≡ returned (record {
      code = 200;
      body = status_of (record {
        chain_id = parse_int "137";
        transaction_id = some "0x01";
        status = some TransactionStatus.pending;
        transaction_hash = some "0x0a";
        gas_price = some 100;
        receipt = none;
        previous_transaction_hash = some "0x0a";
      });
    })
retry_transaction-then_status_example =
    retry_transaction-then_status b cache events retries table d test_account TransactionType.scw
      "150" test_response 2 s.network s row [] test_databases "137" is_counted is_bumped is_taken
      has_row of_chain
