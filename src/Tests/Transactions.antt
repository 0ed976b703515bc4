-- ===== src/Tests/Transactions.antt =====
-- Runs of the transaction services on a chain whose node takes or refuses a transaction.
use relayer_node.Base.{String, ◌≡◌, refl, none, some, [], ◌∷◌}
use relayer_node.Js.Dict.{Dict}
use relayer_node.Exec.{JsError, returned, thrown}
use relayer_node.Types.{
  fetched, EvmRawTransaction, Account, TransactionResponse, TransactionReceipt,
}
use relayer_node.TransactionService.{TransactionDataType, execute_transaction}
use relayer_node.TransactionService.Execute.{on_evm, execution_of, execute_transaction-of_signed}
use relayer_node.Tests.Chain.{Answers, test_provider, test_backend, test_state}

abbrev pub test_response : TransactionResponse
test_response = record {
  hash = "0x0a";
  from = "0x0b";
  gas_price = some 100;
  nonce = 7;
  gas_limit = "0x5208";
  to = "0xto";
  value = "0x0";
  call_data = "0x";
}

abbrev pub test_receipt : TransactionReceipt
test_receipt = record { transaction_hash = "0x0a"; from = "0x0b"; status = some 1 }

abbrev pub nonce_too_low : JsError
nonce_too_low = record { message = "nonce too low" }

-- The error as the network service returns it.
abbrev pub refusal_error : JsError
refusal_error = record { message = "Error: nonce too low" }

-- The node takes a transaction; the node refuses everything.
abbrev pub taking : Answers
taking = record {
  sent = returned test_response;
  mined = returned test_receipt;
  receipt = returned none;
}

abbrev pub refusing : Answers
refusing = record {
  sent = thrown nonce_too_low;
  mined = thrown nonce_too_low;
  receipt = thrown nonce_too_low;
}

abbrev pub test_account : Account
test_account = record { public_key = "0x0b"; private_key = "key" }

abbrev pub test_data : TransactionDataType
test_data = record {
  to = "0x0c";
  value = "0x0";
  call_data = "0x";
  gas_limit = "0x5208";
  speed = none;
  wallet_address = "0x0d";
  transaction_id = "0x01";
  meta_data = none;
}

abbrev pub test_raw : EvmRawTransaction
test_raw = record {
  from = "0x0b";
  gas_price = some "100";
  max_priority_fee_per_gas = none;
  max_fee_per_gas = none;
  gas_limit = "0x5208";
  to = "0x0c";
  value = "0x0";
  call_data = "0x";
  chain_id = 137;
  nonce = fetched 7;
  access_list = none;
  type = none;
}

abbrev pub retries_at : String → Dict String
retries_at count = ("RetryTransactionCount_0x01_137", count) ∷ []

execute_transaction-of_signed_example :
    execute_transaction
      (on_evm (test_backend refusing) (test_provider refusing))
      test_raw
      (some test_account)
      (test_state refusing [])
    ≡ (execution_of test_raw (thrown nonce_too_low), test_state refusing [])
execute_transaction-of_signed_example =
    execute_transaction-of_signed (test_provider refusing) (test_backend refusing) test_raw
      test_account "0xf8" tt (test_state refusing []) refl
