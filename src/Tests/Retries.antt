-- ===== src/Tests/Retries.antt =====
-- Runs of retryTransaction, of the retry service and of the consumers.
use relayer_node.Tests.Taking.{b, cache}
use relayer_node.Base.{arith, ◌≡◌, refl, none, some}
use relayer_node.Js.Text.{to_string}
use relayer_node.Js.Number.{integer_of_text}
use relayer_node.Exec.{JsError, returned, ◌>>=◌, try_catch, or_throw}
use relayer_node.Types.{TransactionType, legacy, failed_with, RetryTransactionQueueData}
use relayer_node.Network.{use_provider, network_send_transaction}
use relayer_node.Backend.{NotifyParams, Backend, State}
use relayer_node.GasPrice.Raised.{
  IsRaised, get_bumped_up_gas_price-raises, get_bumped_up_gas_price-bumps,
}
use relayer_node.Exec.Ends.{EndsIn}
use relayer_node.GasPrice.Bumping.{get_bumped_up_gas_price}
use relayer_node.TransactionListener.{retry_message}
use relayer_node.TransactionService.{exception, failed}
use relayer_node.TransactionService.SendTransaction.{notify_params}
use relayer_node.TransactionService.Resubmit.{retry_transaction}
use relayer_node.TransactionService.Retry.{recounted, retry_transaction-of_pair}
use relayer_node.Tests.Chain.{test_backend, test_state}
use relayer_node.Network.{on_error, error_text, is_timeout}
use relayer_node.Tests.Transactions.{
  test_response, refusal_error, taking, refusing, test_account, test_data, test_raw, retries_at,
}

abbrev s : State b
s = test_state taking (retries_at "2")

abbrev sent_params : NotifyParams
sent_params =
    record (notify_params b test_data test_account TransactionType.scw "manager" test_raw) {
      transaction_execution_response = some test_response;
    }

abbrev d : RetryTransactionQueueData
d = retry_message sent_params test_response

abbrev pair_d : RetryTransactionQueueData
pair_d = record d {
  raw_transaction = record test_raw {
    gas_price = none;
    max_fee_per_gas = some "200";
    max_priority_fee_per_gas = some "100";
  };
}

retry_transaction-of_pair_example :
    (e : JsError) × (retry_transaction b pair_d (some test_account) TransactionType.scw s
      ≡ (returned (failed 500 (exception e) "0x01"), recounted b cache pair_d s))
retry_transaction-of_pair_example =
    retry_transaction-of_pair b cache pair_d (some test_account) TransactionType.scw s refl

get_bumped_up_gas_price-raises_example :
    EndsIn (IsRaised b 1000) (get_bumped_up_gas_price b (some (legacy "1000")) (some 5) s).0
unfolding integer_of_text
get_bumped_up_gas_price-raises_example =
    get_bumped_up_gas_price-raises b "1000" 1000 5 s refl refl (omega arith)

get_bumped_up_gas_price-bumps_example :
    get_bumped_up_gas_price b (some (legacy "1000")) (some 50) s ≡ (returned "1500", s)
unfolding integer_of_text to_string
get_bumped_up_gas_price-bumps_example =
    get_bumped_up_gas_price-bumps b "1000" 1000 50 s refl refl (omega arith) (omega arith)
      (omega arith) (omega arith)

abbrev c : Backend
c = test_backend refusing

abbrev refused : State c
refused = test_state refusing (retries_at "2")

is_refused :
    c.network.submit
      (record test_raw { gas_price = some "150" })
      (some test_account)
      refused.network
    ≡ (returned (failed_with refusal_error), refused.network)
unfolding network_send_transaction use_provider on_error error_text is_timeout or_throw try_catch
    ◌>>=◌
is_refused = refl
